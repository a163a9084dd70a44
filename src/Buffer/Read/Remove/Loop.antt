-- ===== src/Buffer/Read/Remove/Loop.antt =====
-- The loop of `remove` (src/reactor/buffer.cpp) over the chains.
use unp.Base.{
  ℕ, suc, ◌-◌, ◌^◌, ◌≤◌, ◌<◌, ◌≡◌, refl, sym, ap, ◌∙◌, inl, inr, ==-eq, some, List, [], ◌∷◌, ◌++◌,
  arith, length, take, append-nil, leb, ◌==◌, leb→le, leb→lt, Bool-cases, take-append_left,
  drop-append_left, sub32, sub64,
}
use unp.Buffer.Chain.{Chain, size, content}
use unp.Buffer.Chain.Laws.{length-content}
use unp.Buffer.Read.{Removal, remove_loop}
use unp.Buffer.Packed.{contents, contents-singleton, IsLive, AllLive}
use unp.Buffer.Read.Remove.Front.{
  advance, content-advance, advance-IsLive, Removed, remove_nothing, first_part, first_whole,
  same_left, loop_last, total_cons, Removed-cons,
}

pub loop_part :
    (c : Chain) (full : List Chain) (lc : Chain) (total n : ℕ) (out : List ℕ)
    → AllLive (c ∷ full)
    → IsLive lc
    → 0 < n
    → n < size c
    → total ≡ length (contents (c ∷ full ++ lc ∷ []))
    → total < 2 ^ 64
    → (r : Removal) × (remove_loop (c ∷ full ++ lc ∷ []) (some (suc (length full))) total n out
        ≡ some r)
      × Removed (c ∷ full ++ lc ∷ []) n out r
unfolding contents
loop_part c full lc total n out live l pos h t w =
    let rest = full ++ lc ∷ [] in
    let l' = advance-IsLive c n live.0 h in
    let len = length-content c live.0.chain in
    (
      record {
        chains = advance c n ∷ rest;
        last = some (suc (length full));
        total = sub64 total n;
        out = out ++ take n (content c);
      },
      first_part c rest (some (suc (length full))) total n out live.0 pos h,
      record {
        packed =
            same_left (advance c n ∷ full) lc _
              (omega (
                arith,
                t,
                total_cons c rest live.0,
                total_cons (advance c n) rest l',
                live.0.chain,
              ))
              (l', live.1) l;
        rest =
            ap (λ u. u ++ contents rest) (content-advance c n live.0 h)
            ∙ sym (drop-append_left n (content c) (contents rest) (omega (arith, len)));
        out =
            ap (λ u. out ++ u)
              (sym (take-append_left n (content c) (contents rest) (omega (arith, len))));
      },
    )

pub loop_exact :
    (c : Chain) (full : List Chain) (lc : Chain) (total n : ℕ) (out : List ℕ)
    → AllLive (c ∷ full)
    → IsLive lc
    → n ≡ size c
    → total ≡ length (contents (c ∷ full ++ lc ∷ []))
    → total < 2 ^ 64
    → (r : Removal) × (remove_loop (c ∷ full ++ lc ∷ []) (some (suc (length full))) total n out
        ≡ some r)
      × Removed (c ∷ full ++ lc ∷ []) n out r
loop_exact c full lc total n out live l e t w =
    let rest = full ++ lc ∷ [] in
    let z : n - size c ≡ 0 = omega arith in
    (
      record {
        chains = rest;
        last = some (length full);
        total = sub64 total (size c);
        out = out ++ content c;
      },
      first_whole c rest (length full) total n _ out live.0 (omega arith) refl
          ∙ remove_nothing rest (some (length full)) _ _ _ (omega (arith, live.0.chain)),
      Removed-cons c rest n out _ live.0 (omega arith) (record {
        packed = same_left full lc _ (omega (arith, t, total_cons c rest live.0)) live.1 l;
        rest = rw z refl;
        out = rw (z, append-nil) refl;
      }),
    )

pub loop_lem :
    (full : List Chain) (lc : Chain) (total n : ℕ) (out : List ℕ)
    → AllLive full
    → IsLive lc
    → 0 < n
    → n ≤ total
    → total ≡ length (contents (full ++ lc ∷ []))
    → total < 2 ^ 64
    → n < 2 ^ 32
    → (r : Removal) × (remove_loop (full ++ lc ∷ []) (some (length full)) total n out ≡ some r)
      × Removed (full ++ lc ∷ []) n out r
unfolding contents
loop_lem [] lc total n out live l pos h t w u =
    let k : total ≡ size lc =
      omega (arith, t, ap length (contents-singleton lc), length-content lc l.chain) in
    loop_last lc total n out l pos (omega arith) k
loop_lem (c ∷ full) lc total n out live l pos h t w u = elim (Bool-cases (leb (size c) n)) [
  | inr part ↦ loop_part c full lc total n out live l pos (leb→lt _ _ part) t w
  | inl whole ↦ elim (Bool-cases (n == size c)) [
    | inl e ↦ loop_exact c full lc total n out live l (==-eq _ _ e) t w
    | inr e ↦
        let fits : size c ≤ n = leb→le _ _ whole in
        let n' : sub32 n (size c) ≡ n - size c = omega (arith, live.0.chain) in
        let t' : sub64 total (size c) ≡ length (contents (full ++ lc ∷ [])) =
          omega (arith, t, total_cons c (full ++ lc ∷ []) live.0) in
        let (r, e', d) =
          loop_lem full lc (sub64 total (size c)) (n - size c) (out ++ content c) live.1 l
            (ground arith) (omega arith) t' (omega arith) (omega arith) in
        (
          r,
          first_whole c (full ++ lc ∷ []) (length full) total n (n - size c) out live.0 fits n'
              ∙ e',
          Removed-cons c (full ++ lc ∷ []) n out r live.0 fits d,
        )
  ]
]
