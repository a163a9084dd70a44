-- ===== src/Buffer/Read/Gather.antt =====
-- The merging part of `pullup` (src/reactor/buffer.cpp): chains are copied to the end of the first one
-- until it has what is wanted.
use unp.Base.{
  ℕ, zero, suc, ◌+◌, ◌-◌, ◌≤◌, ◌<◌, ◌≡◌, refl, sym, ap, ◌∙◌, inl, inr, Bool-cases, some, List, [],
  ◌∷◌, ◌++◌, arith, length, length-append, take, drop, append_assoc, leb, ◌==◌, true, false, le→leb,
  le→ltb, lt→ltb, leb→le, leb→lt, to_u32, take-append-drop, take-take, length-take, length-drop,
}
use unp.Buffer.Chain
use unp.Buffer.Chain.{Chain, size, content, chain_free_space, new_chain, validate_iter}
use unp.Buffer.Chain.Laws.{IsChain, Appended, length-content, copy_in_fits}
use unp.Buffer.Chain.Append.{append_chain_fits}
use unp.Buffer.Read.{Merge, merge_loop, merge_part}
use unp.Buffer.Read.Remove.Front.{advance, content-advance, advance-IsLive}
use unp.Buffer.Packed.{contents, IsLive, AllLive}

-- What a merge keeps: the bytes, the room for what is still wanted, and the count of chains.
pub record Merging (first : Chain) (cs : List Chain) (merged remain : ℕ) (m : Merge) : Type 0 where
  pub chain : IsChain m.first
  pub live : AllLive m.rest
  pub bytes : content m.first ++ contents m.rest ≡ content first ++ contents cs
  pub held : size m.first + m.remain ≡ size first + remain
  pub room : m.first.off + m.remain ≤ m.first.capacity
  pub count : m.merged + length m.rest ≡ merged + length cs

-- The loop stopped by its test: the next chain is more than is wanted.
abbrev pub Stopped : Merge → List Chain → Type 0
Stopped m [] = m.remain ≡ 0
Stopped m (c ∷ cs) = m.remain < size c

pub merge_loop_lem :
    (cs : List Chain) (first : Chain) (merged remain : ℕ)
    → IsChain first
    → AllLive cs
    → first.off + remain ≤ first.capacity
    → remain ≤ length (contents cs)
    → (m : Merge) × (merge_loop first cs merged remain ≡ some m)
      × Merging first cs merged remain m
      × Stopped m m.rest
unfolding merge_loop contents
merge_loop_lem [] first merged remain v live room h = (
  record { first = first; rest = []; merged = merged; remain = remain },
  refl,
  record { chain = v; live = tt; bytes = refl; held = refl; room = room; count = refl },
  omega arith,
)
merge_loop_lem (c ∷ cs) first merged remain v live room h =
    elim (Bool-cases (leb (size c) remain)) [
      | inr stop ↦ (
        record { first = first; rest = c ∷ cs; merged = merged; remain = remain },
        rw stop refl,
        record { chain = v; live = live; bytes = refl; held = refl; room = room; count = refl },
        leb→lt _ _ stop,
      )
      | inl more ↦
          let fits : size c ≤ remain = leb→le _ _ more in
          let len = length-content c live.0.chain in
          let (d, e, a) = append_chain_fits first c v live.0.chain (omega arith) in
          let held : size d ≡ size first + size c = omega (
            arith,
            length-content d a.valid,
            length-content first v,
            ap length a.bytes,
            length-append (content first) (content c),
            len,
          ) in
          let (m, e', g, s) =
            merge_loop_lem cs d (suc merged) (remain - size c) a.valid live.1
              (omega (arith, a.off, a.capacity, len))
              (omega (arith, length-append (content c) (contents cs), len)) in
          (
            m,
            rw (more, nonzero c live.0, e) e',
            record {
              chain = g.chain;
              live = g.live;
              bytes =
                  g.bytes
                  ∙ ap (λ t. t ++ contents cs) a.bytes
                  ∙ append_assoc (content first) (content c) (contents cs);
              held = omega (arith, g.held, held);
              room = g.room;
              count = omega (arith, g.count);
            },
            s,
          )
    ]
  where
    nonzero : (x : Chain) → IsLive x → (size x == 0) ≡ false
    nonzero x l = ground (arith, l.nonempty)

-- A part of a chain is copied to the end of a chain that has the room for it.
append_from_part :
    (first c : Chain) (n : ℕ)
    → IsChain first
    → IsLive c
    → n < size c
    → first.off + n ≤ first.capacity
    → (first' : Chain) × (Chain.append_from first c n true c.misalign ≡ some (first', n))
      × Appended first (take n (content c)) first'
unfolding Chain.append_from Chain.reserve validate_iter content
append_from_part first c n v l h room =
    let same : take n (take (c.off - c.misalign) (drop c.misalign c.mem))
        ≡ take n (drop c.misalign c.mem) =
      take-take n (c.off - c.misalign) (drop c.misalign c.mem) (omega (arith, l.chain)) in
    let len : length (take n (drop c.misalign c.mem)) ≡ n =
      omega (arith, length-take n (drop c.misalign c.mem), length-drop c.misalign c.mem, l.chain) in
    let (d, e, a) = copy_in_fits first (take n (drop c.misalign c.mem)) v (omega (arith, len)) in
    (
      d,
      rw (
        le→ltb (size c) n (omega arith),
        lt→ltb c.misalign c.off (omega (arith, l.chain)),
        le→leb c.misalign c.misalign (omega arith),
        le→ltb (chain_free_space first) n (omega (arith, v)),
        e,
      ),
      rw same a,
    )

pub record Parted (m m' : Merge) : Type 0 where
  pub chain : IsChain m'.first
  pub live : AllLive m'.rest
  pub bytes : content m'.first ++ contents m'.rest ≡ content m.first ++ contents m.rest
  pub held : size m'.first ≡ size m.first + m.remain
  pub count : length m'.rest ≡ length m.rest
  pub merged : m'.merged ≡ m.merged

suc_test : (n : ℕ) → (suc n == 0) ≡ false
suc_test n = ground arith

pub merge_part_lem :
    (first : Chain) (rest : List Chain) (merged remain : ℕ)
    → let m : Merge = record { first = first; rest = rest; merged = merged; remain = remain } in
      IsChain first
      → AllLive rest
      → first.off + remain ≤ first.capacity
      → Stopped m rest
      → (m' : Merge) × (merge_part m ≡ some m') × Parted m m'
unfolding merge_part contents
merge_part_lem first rest merged zero v live room stop = (
  record { first = first; rest = rest; merged = merged; remain = zero },
  refl,
  record { chain = v; live = live; bytes = refl; held = omega arith; count = refl; merged = refl },
)
merge_part_lem first [] merged (suc n) v live room stop = absurd (omega arith)
merge_part_lem first (c ∷ cs) merged (suc n) v live room stop =
    let w : to_u32 (suc n) ≡ suc n = omega (arith, stop) in
    let (d, e, a) = append_from_part first c (suc n) v live.0 stop room in
    (
      record { first = d; rest = advance c (suc n) ∷ cs; merged = merged; remain = suc n },
      rw (suc_test n, w, e) refl,
      record {
        chain = a.valid;
        live = (advance-IsLive c (suc n) live.0 stop, live.1);
        bytes =
            rw (a.bytes, content-advance c (suc n) live.0 stop)
              (rejoin (content first) (content c) (contents cs) (suc n));
        held = omega (
          arith,
          length-content d a.valid,
          length-content first v,
          ap length a.bytes,
          length-append (content first) (take (suc n) (content c)),
          length-take (suc n) (content c),
          length-content c live.0.chain,
        );
        count = refl;
        merged = refl;
      },
    )
  where
    rejoin : (xs ys zs : List ℕ) (k : ℕ) → (xs ++ take k ys) ++ (drop k ys ++ zs) ≡ xs ++ (ys ++ zs)
    rejoin xs ys zs k =
        append_assoc xs (take k ys) (drop k ys ++ zs)
        ∙ ap (λ t. xs ++ t)
            (sym (append_assoc (take k ys) (drop k ys) zs)
              ∙ ap (λ t. t ++ zs) (take-append-drop k ys))
