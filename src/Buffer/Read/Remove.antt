-- ===== src/Buffer/Read/Remove.antt =====
-- `remove` and `drain` (src/reactor/buffer.cpp) on a packed buffer take the front of the view.
pub mod Front
pub mod Loop
use unp.Base.{
  ℕ, ◌^◌, ◌≤◌, ◌<◌, ◌≡◌, refl, ap, ◌⊎◌, some, none, [], arith, length, take, drop, ◌==◌, false,
  le→ltb,
}
use unp.Buffer.Store.{Buffer}
use unp.Buffer.Read.{remove, drain}
use unp.Buffer.Packed.{contents, view, IsPacked, is_empty, is_packed}
use unp.Buffer.Read.Remove.Front.{left}
use unp.Buffer.Read.Remove.Loop.{loop_lem}

-- `remove` of n bytes from a packed buffer, with n above 0, below 2 ^ 32 and at most the bytes there
-- are, which are fewer than 2 ^ 64, copies out the first n bytes of the view; what is left is packed
-- and views the rest.
pub remove-view :
    (b : Buffer) (n : ℕ)
    → IsPacked b
    → 0 < n
    → n ≤ length (view b)
    → n < 2 ^ 32
    → length (view b) < 2 ^ 64
    → (b' : Buffer) × (remove b false n ≡ some (b', some (take n (view b))))
      × IsPacked b'
      × (view b' ≡ drop n (view b))
unfolding remove contents
remove-view b n is_empty pos h u w = absurd (omega arith)
remove-view b n (is_packed full lc live l) pos h u w =
    let (r, e, d) = loop_lem full lc _ n [] live l pos h refl w u in
    (
      left r,
      rw (pos_test, le→ltb _ _ h, e) (ap (λ t. some (left r, some t)) d.out),
      d.packed,
      d.rest,
    )
  where
    pos_test : (n == 0) ≡ false
    pos_test = ground arith

-- On a packed buffer a `remove` of nothing, or of more bytes than there are, changes nothing and
-- returns -1.
pub remove_refused :
    (b : Buffer) (n : ℕ)
    → IsPacked b
    → (n ≡ 0) ⊎ (length (view b) < n)
    → remove b false n ≡ some (b, none)
unfolding remove contents
remove_refused b n is_empty h = ground arith
remove_refused b n (is_packed full lc live l) h = ground arith

-- `drain(n)` of a packed buffer, with n above 0, below 2 ^ 32 and at most the bytes there are, which
-- are fewer than 2 ^ 64, returns n; what is left is packed and views the old bytes but the first n.
pub drain-view :
    (b : Buffer) (n : ℕ)
    → IsPacked b
    → 0 < n
    → n ≤ length (view b)
    → n < 2 ^ 32
    → length (view b) < 2 ^ 64
    → (b' : Buffer) × (drain b n ≡ some (b', some n)) × IsPacked b' × (view b' ≡ drop n (view b))
unfolding drain
drain-view b n p pos h u w =
    let (b', e, q, v) = remove-view b n p pos h u w in (b', rw e refl, q, v)
