-- ===== src/Buffer/Read/Pullup.antt =====
-- `pullup` (src/reactor/buffer.cpp) on a packed buffer: the first chain gets the first bytes, and the view
-- stays.
use unp.Base.{
  ℕ, ◌+◌, ◌-◌, ◌^◌, ◌≤◌, ◌<◌, ◌≡◌, refl, sym, ap, subst, ◌∙◌, inl, inr, Bool-cases, some, none,
  List, [], ◌∷◌, ◌++◌, arith, length, length-append, take, leb, ◌==◌, false, le→ltb, leb→le, leb→lt,
  to_u32, take-append_left,
}
use unp.Base.Int.{pos, negsuc}
use unp.Buffer.Chain.{Chain, size, content, chain_free_space, new_chain}
use unp.Buffer.Chain.Laws.{IsChain, new_chain-Room, assign_lem, length-content}
use unp.Buffer.Store.{Buffer}
use unp.Buffer.Read.{Merge, room_for, last_after, pullup_to, pullup, read_value}
use unp.Buffer.Read.Gather.{merge_loop_lem, merge_part_lem}
use unp.Buffer.Packed.{
  contents, view, IsLive, AllLive, packed, IsPacked, is_empty, is_packed, chained, chained-IsPacked,
  AllLive-snoc, length_snoc,
}

-- The chain that the bytes are gathered in.
room_for_lem :
    (first : Chain) (n remain : ℕ)
    → IsChain first
    → n < 2 ^ 32
    → remain ≡ n - size first
    → size first ≤ n
    → (d : Chain) × (room_for first n remain ≡ some d)
      × IsChain d
      × (content d ≡ content first)
      × (d.off + remain ≤ d.capacity)
unfolding room_for
room_for_lem first n remain v w e h = elim (Bool-cases (leb remain (chain_free_space first))) [
  | inl fits ↦ (first, rw fits refl, v, refl, omega (arith, leb→le _ _ fits, v))
  | inr tight ↦
      let k : to_u32 n ≡ n = omega arith in
      let r = new_chain-Room n w in
      let (d, e', v', keeps, o, cap) = assign_lem (new_chain n) first r.valid v in
      (d, rw (tight, k) e', v', keeps, omega (arith, o, cap, r.enough))
]

zero_test : (n : ℕ) → 0 < n → (n == 0) ≡ false
zero_test n h = ground arith

-- The bytes that are read through the returned pointer begin with the first `n` of the view.
take_front : (xs ys zs : List ℕ) (n : ℕ) → xs ++ ys ≡ zs → n ≤ length xs → take n xs ≡ take n zs
take_front xs ys zs n e h = sym (take-append_left n xs ys h) ∙ ap (take n) e

pub record Pulled (b : Buffer) (n : ℕ) (b' : Buffer) (bytes : List ℕ) : Type 0 where
  pub packed : IsPacked b'
  pub keeps : view b' ≡ view b
  pub enough : n ≤ length bytes
  pub front : take n bytes ≡ take n (view b)

last_after_lem :
    (m : Merge) (rest : List Chain) (k : ℕ)
    → m.rest ≡ rest
    → m.merged + length rest ≡ k
    → last_after m (some k) ≡ some (length rest)
unfolding last_after
last_after_lem m [] k e h = rw e refl
last_after_lem m (c ∷ cs) k e h = rw e (ap some (omega arith))

pullup_chains :
    (c : Chain) (cs : List Chain) (n : ℕ)
    → let b = chained (c ∷ cs) (length cs) (length (contents (c ∷ cs))) in
      IsLive c
      → AllLive cs
      → 0 < n
      → n < 2 ^ 32
      → n ≤ length (contents (c ∷ cs))
      → (b' : Buffer) × (bytes : List ℕ) × (pullup_to b n ≡ some (b', some bytes))
        × Pulled b n b' bytes
unfolding pullup_to contents last_after
pullup_chains c cs n l live some_wanted w h = elim (Bool-cases (leb n (size c))) [
  | inl held ↦ (
    _,
    content c,
    rw held refl,
    record {
      packed = chained-IsPacked c cs _ l live refl;
      keeps = refl;
      enough = omega (arith, leb→le _ _ held, len);
      front = take_front (content c) (contents cs) _ n refl (omega (arith, leb→le _ _ held, len));
    },
  )
  | inr more ↦
      let gap : size c < n = leb→lt _ _ more in
      let (d, e, v, keeps, room) = room_for_lem c n (n - size c) l.chain w refl (omega arith) in
      let (m, e', g, stop) =
        merge_loop_lem cs d 0 (n - size c) v live room
          (omega (arith, length-append (content c) (contents cs), len)) in
      let (m', e'', q) =
        merge_part_lem m.first m.rest m.merged m.remain g.chain g.live g.room stop in
      pulled m' (omega (arith, g.held, q.held, length-content d v, ap length keeps, len))
        (q.bytes ∙ g.bytes ∙ ap (λ t. t ++ contents cs) keeps) q.chain q.live
        (omega (arith, q.merged, q.count, g.count)) (rw (more, e, e', e'') refl)
]
  where
    len : length (content c) ≡ size c
    len = length-content c l.chain

    pulled :
        (m : Merge)
        → size m.first ≡ n
        → content m.first ++ contents m.rest ≡ content c ++ contents cs
        → IsChain m.first
        → AllLive m.rest
        → m.merged + length m.rest ≡ length cs
        → pullup_to (chained (c ∷ cs) (length cs) (length (contents (c ∷ cs)))) n
          ≡ some (
            record {
              chains = m.first ∷ m.rest;
              last = last_after m (some (length cs));
              total = length (contents (c ∷ cs));
            },
            some (content m.first),
          )
        → (b' : Buffer) × (bytes : List ℕ) × (pullup_to
              (chained (c ∷ cs) (length cs) (length (contents (c ∷ cs))))
              n
            ≡ some (b', some bytes))
          × Pulled (chained (c ∷ cs) (length cs) (length (contents (c ∷ cs)))) n b' bytes
    pulled m held same chain rest_live count run = (
      chained (m.first ∷ m.rest) (length m.rest) (length (contents (c ∷ cs))),
      content m.first,
      run
          ∙ ap
              (λ t. some (
                record { chains = m.first ∷ m.rest; last = t; total = length (contents (c ∷ cs)) },
                some (content m.first),
              ))
              (last_after_lem m m.rest (length cs) refl count),
      record {
        packed =
            chained-IsPacked m.first m.rest _ (record { chain = chain; nonempty = omega arith })
              rest_live (ap length (sym same));
        keeps = same;
        enough = omega (arith, held, length-content m.first chain);
        front =
            take_front (content m.first) (contents m.rest) _ n same
              (omega (arith, held, length-content m.first chain));
      },
    )

-- `pullup(n)` of a packed buffer, with n above 0, below 2 ^ 32 and at most the bytes there are, returns
-- a pointer at whose place the first n bytes of the view stand in one block; the buffer stays packed
-- and keeps its view.
pub pullup-view :
    (b : Buffer) (n : ℕ)
    → IsPacked b
    → 0 < n
    → n ≤ length (view b)
    → n < 2 ^ 32
    → (b' : Buffer) × (bytes : List ℕ) × (pullup b (pos n) ≡ some (b', some bytes))
      × Pulled b n b' bytes
unfolding pullup contents
pullup-view b n is_empty wanted h w = absurd (omega arith)
pullup-view b n (is_packed [] lc live l) wanted h w =
    let (b', bytes, e, q) = pullup_chains lc [] n l tt wanted w h in
    (b', bytes, rw (zero_test n wanted, le→ltb _ _ h) e, q)
pullup-view b n (is_packed (c ∷ full) lc live l) wanted h w =
    let rest = full ++ lc ∷ [] in
    let (b', bytes, e, q) =
      pullup_chains c rest n live.0 (AllLive-snoc full lc live.1 l) wanted w h in
    let same : chained (c ∷ rest) (length rest) (length (contents (c ∷ rest)))
        ≡ packed (c ∷ full) lc =
      ap (λ k. chained (c ∷ rest) k (length (contents (c ∷ rest)))) (length_snoc full lc) in
    (
      b',
      bytes,
      rw (zero_test n wanted, le→ltb _ _ h) (ap (λ t. pullup_to t n) (sym same) ∙ e),
      subst (λ t. Pulled t n b' bytes) same q,
    )

-- `pullup` of a negative size, on a buffer of fewer than 2 ^ 63 bytes, gathers nothing: the buffer is
-- as before, and the null pointer is returned.
pub pullup_negative :
    (b : Buffer) (k : ℕ) → k < 2 ^ 63 → b.total < 2 ^ 63 → pullup b (negsuc k) ≡ some (b, none)
unfolding pullup
pullup_negative b k h small = ground arith

-- `read_T` of n bytes of a packed buffer, with n above 0, below 2 ^ 32 and at most the bytes there are,
-- copies out the first n bytes of the view; the buffer stays packed and keeps its view.
pub read_value-view :
    (b : Buffer) (n : ℕ)
    → IsPacked b
    → 0 < n
    → n ≤ length (view b)
    → n < 2 ^ 32
    → (b' : Buffer) × (read_value b n ≡ some (b', some (take n (view b))))
      × IsPacked b'
      × (view b' ≡ view b)
unfolding read_value
read_value-view b n p wanted h w =
    let (b', bytes, e, q) = pullup-view b n p wanted h w in
    (b', rw e (ap (λ t. some (b', some t)) q.front), q.packed, q.keeps)
