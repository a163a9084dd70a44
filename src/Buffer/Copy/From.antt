-- ===== src/Buffer/Copy/From.antt =====
-- The copies of a buffer's bytes from an iterator on (src/reactor/buffer.cpp): the constructor with an iterator
-- and `append`.
use unp.Base.{
  ℕ, suc, ◌+◌, ◌^◌, ◌≤◌, ◌<◌, ◌≡◌, refl, ap, Option, none, some, ◌++◌, arith, length, take, drop,
  length-take, length-drop, ◌==◌, false, lt→ltb, le→leb, sub32,
}
use unp.Buffer.Chain.{Chain, size, content, sub_chain, ◌>>=◌}
use unp.Buffer.Chain
use unp.Buffer.Store.{Buffer, empty, free_trailing_empty_chains}
use unp.Buffer.Packed.{
  contents, view, IsPacked, is_packed, is_empty, packed_test, get_last, take_last,
}
use unp.Buffer.Iter.{Iter}
use unp.Buffer.Iter.Place.{Place, Found-packed, seen_from}
use unp.Buffer.Copy.{
  Ending, moves, copies, with_back, from_loop, copied_length, copy_from, append_buffer,
}
use unp.Buffer.Copy.Rounds.{Copies, with_total-packed}
use unp.Buffer.Copy.Loop.{from_loop_lem, copied_length_lem}

-- What both copies from an iterator do once it has been checked.
pub copied_loop :
    (id : ℕ) (ending : Ending) (other : Buffer) (it : Iter)
    → IsPacked other
    → (p : Place id other it) → it.offset_of_chain < p.c.off
    → Copies
        (λ n b.
          from_loop ending
            (drop (suc p.k) other.chains)
            p.c
            (seen_from p.k other.last)
            it.offset_of_chain
            (sub32 p.c.off it.offset_of_chain)
            n
            b)
        (drop it.offset_of_buffer (view other))
copied_loop id ending other it packed_other p inside =
    let f = Found-packed id other it packed_other p in
    rw (f.last, f.rest)
      (from_loop_lem ending (drop (suc p.k) other.chains) p.c it.offset_of_chain f.live.chain
        f.behind p.from inside)

-- The checks in front of the loop of `buffer(const buffer& other, uint32_t data_len, Iter start)` pass.
pub copy_from_run :
    (id : ℕ) (other : Buffer) (n : ℕ) (it : Iter)
    → IsPacked other
    → (p : Place id other it) → it.offset_of_chain < p.c.off
    → 0 < n
    → (b b' : Buffer)
    → from_loop moves
        (drop (suc p.k) other.chains)
        p.c
        (seen_from p.k other.last)
        it.offset_of_chain
        (sub32 p.c.off it.offset_of_chain)
        (copied_length other n it.offset_of_buffer)
        empty
      ≡ some b
    → record (with_back b) { total = n } ≡ b'
    → copy_from id other n it ≡ some b'
unfolding copy_from Chain.validate_iter
copy_from_run id other n it packed_other p inside positive b b' e same =
    let f = Found-packed id other it packed_other p in
    let zero_test : (n == 0) ≡ false = ground arith in
    rw (f.valid, ◌>>=◌)
      (rw (zero_test, f.some_bytes)
        (rw (p.chain, ◌>>=◌)
          (rw (p.get, ◌>>=◌)
            (rw (lt→ltb _ _ inside, le→leb _ _ p.from) (rw (e, ◌>>=◌) (ap some same))))))

-- The copy of n bytes, at least one, from an iterator on that is at a byte of a chain of a packed
-- buffer with fewer than 2 ^ 32 bytes, of which n are left there, does not fault: the copy is packed
-- and views just these bytes.
pub copy_from-view :
    (id : ℕ) (other : Buffer) (n : ℕ) (it : Iter)
    → IsPacked other
    → (p : Place id other it) → it.offset_of_chain < p.c.off
    → 0 < n
    → length (view other) < 2 ^ 32
    → it.offset_of_buffer + n ≤ length (view other)
    → (b : Buffer) × (copy_from id other n it ≡ some b)
      × IsPacked b
      × (view b ≡ take n (drop it.offset_of_buffer (view other)))
unfolding contents
copy_from-view id other n it packed_other p inside positive small fits =
    let left : n ≤ length (drop it.offset_of_buffer (view other)) =
      omega (arith, length-drop it.offset_of_buffer (view other)) in
    let (b, e, g) =
      copied_loop id moves other it packed_other p inside n empty is_empty positive (omega arith)
        left (omega arith) in
    let len : length (view b) ≡ n =
      omega (arith, ap length g.bytes, length-take n (drop it.offset_of_buffer (view other))) in
    let asked =
      copied_length_lem other n it.offset_of_buffer packed_other (omega arith) small fits in
    (
      b,
      copy_from_run id other n it packed_other p inside positive b b (rw asked e)
          (with_total-packed b n g.shape positive len),
      g.shape,
      g.bytes,
    )

free_trailing_packed :
    (b : Buffer) → IsPacked b → (at : Option ℕ) × (free_trailing_empty_chains b ≡ some (b, at))
unfolding free_trailing_empty_chains
free_trailing_packed b is_empty = (none, refl)
free_trailing_packed b (is_packed full lc live l) =
    (some (length full), rw (packed_test full lc l, get_last full lc) (rw (take_last full lc) refl))

-- The checks in front of the loop of `append(const buffer& other, uint64_t data_len, Iter start)` pass.
append_buffer_run :
    (id : ℕ) (b other : Buffer) (n : ℕ) (it : Iter)
    → IsPacked b
    → IsPacked other
    → (p : Place id other it) → it.offset_of_chain < p.c.off
    → 0 < n
    → copied_length other n it.offset_of_buffer ≡ n
    → (b' : Buffer)
    → from_loop copies
        (drop (suc p.k) other.chains)
        p.c
        (seen_from p.k other.last)
        it.offset_of_chain
        (sub32 p.c.off it.offset_of_chain)
        n
        b
      ≡ some b'
    → append_buffer id b other n it ≡ some (b', some n)
unfolding append_buffer Chain.validate_iter
append_buffer_run id b other n it packed_b packed_other p inside positive asked b' e =
    let f = Found-packed id other it packed_other p in
    let (at, freed) = free_trailing_packed b packed_b in
    let zero_test : (n == 0) ≡ false = ground arith in
    rw (f.valid, ◌>>=◌)
      (rw (f.some_bytes, zero_test)
        (rw (freed, ◌>>=◌)
          (rw (p.chain, ◌>>=◌)
            (rw (p.get, ◌>>=◌)
              (rw (lt→ltb _ _ inside, le→leb _ _ p.from)
                (rw (asked, ◌>>=◌) (rw (e, ◌>>=◌) refl)))))))

-- Appending n bytes, at least one, of a packed buffer with fewer than 2 ^ 32 bytes, from an iterator on
-- that is at a byte of a chain and where n are left, to a packed buffer does not fault and returns n;
-- the buffer stays packed, and these bytes are behind those it had. This is for totals below 2 ^ 64.
pub append_buffer-view :
    (id : ℕ) (b other : Buffer) (n : ℕ) (it : Iter)
    → IsPacked b
    → IsPacked other
    → (p : Place id other it) → it.offset_of_chain < p.c.off
    → 0 < n
    → length (view other) < 2 ^ 32
    → it.offset_of_buffer + n ≤ length (view other)
    → length (view b) + n < 2 ^ 64
    → (b' : Buffer) × (append_buffer id b other n it ≡ some (b', some n))
      × IsPacked b'
      × (view b' ≡ view b ++ take n (drop it.offset_of_buffer (view other)))
append_buffer-view id b other n it packed_b packed_other p inside positive small fits room =
    let left : n ≤ length (drop it.offset_of_buffer (view other)) =
      omega (arith, length-drop it.offset_of_buffer (view other)) in
    let (b', e, g) =
      copied_loop id copies other it packed_other p inside n b packed_b positive (omega arith) left
        room in
    let asked =
      copied_length_lem other n it.offset_of_buffer packed_other (omega arith) small fits in
    (
      b',
      append_buffer_run id b other n it packed_b packed_other p inside positive asked b' e,
      g.shape,
      g.bytes,
    )
