-- ===== src/Buffer/Read/Remove/Front.antt =====
-- One step of the loop of `remove` (src/reactor/buffer.cpp) on the first chain.
use unp.Base.{
  ℕ, zero, suc, ◌+◌, ◌-◌, ◌≤◌, ◌<◌, ◌≡◌, refl, sym, ap, subst, inl, inr, ==-eq, Option, some, none,
  List, [], ◌∷◌, ◌++◌, arith, length, length-append, take, drop, append_assoc, append-nil, ◌==◌,
  Bool-cases, drop-drop, drop-take, take-append, take_all, drop_all, add32, sub32, sub64,
}
use unp.Buffer.Chain.{Chain, size, content}
use unp.Buffer.Chain.Laws.{length-content}
use unp.Buffer.Store.{Buffer}
use unp.Buffer.Read.{Removal, remove_loop}
use unp.Buffer.Packed.{contents, contents-singleton, IsLive, AllLive, IsPacked, is_empty, is_packed}

-- A chain whose first `n` bytes are given up.
abbrev pub advance : Chain → ℕ → Chain
advance c n = record c { misalign = add32 c.misalign n }

pub content-advance :
    (c : Chain) (n : ℕ) → IsLive c → n < size c → content (advance c n) ≡ drop n (content c)
unfolding content
content-advance c n l h =
    let m : add32 c.misalign n ≡ c.misalign + n = omega (arith, l.chain) in
    let k : c.off - c.misalign - n ≡ c.off - (c.misalign + n) = omega arith in
    rw
      (m, drop-take n (c.off - c.misalign) (drop c.misalign c.mem), drop-drop n c.misalign c.mem, k)
      refl

pub advance-IsLive : (c : Chain) (n : ℕ) → IsLive c → n < size c → IsLive (advance c n)
advance-IsLive c n l h = record {
  chain = record {
    starts = omega (arith, l.chain);
    ends = l.chain.ends;
    block = l.chain.block;
    word = l.chain.word;
  };
  nonempty = omega (arith, l.chain);
}

abbrev pub left : Removal → Buffer
left r = record { chains = r.chains; last = r.last; total = r.total }

-- What the loop leaves after taking `n` bytes of `cs`.
pub record Removed (cs : List Chain) (n : ℕ) (before : List ℕ) (r : Removal) : Type 0 where
  pub packed : IsPacked (left r)
  pub rest : contents r.chains ≡ drop n (contents cs)
  pub out : r.out ≡ before ++ take n (contents cs)

pub remove_nothing :
    (cs : List Chain) (last : Option ℕ) (total n : ℕ) (out : List ℕ)
    → n ≡ 0
    → remove_loop cs last total n out
      ≡ some (record { chains = cs; last = last; total = total; out = out })
unfolding remove_loop
remove_nothing [] last total n out e = ground arith
remove_nothing (c ∷ cs) last total n out e = ground arith

-- The first chain is not used up.
pub first_part :
    (c : Chain) (cs : List Chain) (last : Option ℕ) (total n : ℕ) (out : List ℕ)
    → IsLive c
    → 0 < n
    → n < size c
    → remove_loop (c ∷ cs) last total n out
      ≡ some (record {
        chains = advance c n ∷ cs;
        last = last;
        total = sub64 total n;
        out = out ++ take n (content c);
      })
unfolding remove_loop
first_part c cs last total n out l pos h = ground (arith, l.chain.starts)

-- The first chain is used up, and is not the last.
pub first_whole :
    (c : Chain) (cs : List Chain) (k total n m : ℕ) (out : List ℕ)
    → IsLive c
    → size c ≤ n
    → sub32 n (size c) ≡ m
    → remove_loop (c ∷ cs) (some (suc k)) total n out
      ≡ remove_loop cs (some k) (sub64 total (size c)) m (out ++ content c)
unfolding remove_loop
first_whole c cs k total n m out l h e = ground (arith, l.chain.starts, l.nonempty)

pub last_whole :
    (c : Chain) (total n : ℕ) (out : List ℕ)
    → IsLive c
    → n ≡ size c
    → remove_loop (c ∷ []) (some 0) total n out
      ≡ some (record {
        chains = [];
        last = none;
        total = sub64 total (size c);
        out = out ++ content c;
      })
unfolding remove_loop
last_whole c total n out l h = ground (arith, l.chain.starts, l.nonempty)

pub same_left :
    (full : List Chain) (lc : Chain) (total : ℕ)
    → total ≡ length (contents (full ++ lc ∷ []))
    → AllLive full
    → IsLive lc
    → IsPacked (record { chains = full ++ lc ∷ []; last = some (length full); total = total })
same_left full lc total e live l =
    let b : (t : ℕ) → Buffer =
      λ t. record { chains = full ++ lc ∷ []; last = some (length full); total = t } in
    subst (λ t. IsPacked (b t)) (sym e) (is_packed full lc live l)

pub take_more :
    (xs ys : List ℕ) (n : ℕ) → length xs ≤ n → take n (xs ++ ys) ≡ xs ++ take (n - length xs) ys
take_more xs ys n h = take-append n xs ys h

pub drop_more :
    (xs ys : List ℕ) (n : ℕ) → length xs ≤ n → drop n (xs ++ ys) ≡ drop (n - length xs) ys
drop_more [] ys n h = let e : n - 0 ≡ n = omega arith in rw e
drop_more (x ∷ xs) ys zero h = absurd (omega arith)
drop_more (x ∷ xs) ys (suc n) h =
    let e : suc n - suc (length xs) ≡ n - length xs = omega arith in
    rw e (drop_more xs ys n (omega arith))

-- The loop on the last chain alone.
pub loop_last :
    (lc : Chain) (total n : ℕ) (out : List ℕ)
    → IsLive lc
    → 0 < n
    → n ≤ size lc
    → total ≡ size lc
    → (r : Removal) × (remove_loop (lc ∷ []) (some 0) total n out ≡ some r)
      × Removed (lc ∷ []) n out r
unfolding contents
loop_last lc total n out l pos h t = elim (Bool-cases (n == size lc)) [
  | inl e ↦
      let n-eq : n ≡ size lc = ==-eq _ _ e in
      let z : sub64 total (size lc) ≡ 0 = omega arith in
      (
        record { chains = []; last = none; total = sub64 total (size lc); out = out ++ content lc },
        last_whole lc total n out l n-eq,
        record {
          packed = rw z is_empty;
          rest = rw append-nil (sym (drop_all n (content lc) (omega (arith, len, n-eq))));
          out =
              rw append-nil
                (ap (λ t. out ++ t) (sym (take_all n (content lc) (omega (arith, len, n-eq)))));
        },
      )
  | inr e ↦
      let small : n < size lc = ground arith in
      let w : sub64 total n ≡ length (contents (advance lc n ∷ [])) = omega (
        arith,
        t,
        ap length (contents-singleton (advance lc n)),
        length-content (advance lc n) (advance-IsLive lc n l small).chain,
        l.chain,
      ) in
      (
        record {
          chains = advance lc n ∷ [];
          last = some 0;
          total = sub64 total n;
          out = out ++ take n (content lc);
        },
        first_part lc [] (some 0) total n out l pos small,
        record {
          packed = same_left [] (advance lc n) _ w tt (advance-IsLive lc n l small);
          rest = rw (append-nil, append-nil) (content-advance lc n l small);
          out = rw append-nil refl;
        },
      )
]
  where
    len : length (content lc) ≡ size lc
    len = length-content lc l.chain

pub total_cons :
    (c : Chain) (cs : List Chain)
    → IsLive c
    → length (contents (c ∷ cs)) ≡ size c + length (contents cs)
unfolding contents
total_cons c cs l = omega (arith, length-append (content c) (contents cs), length-content c l.chain)

-- Behind a chain that is used up the loop goes on with the rest.
pub Removed-cons :
    (c : Chain) (cs : List Chain) (n : ℕ) (out : List ℕ) (r : Removal)
    → IsLive c
    → size c ≤ n
    → Removed cs (n - size c) (out ++ content c) r
    → Removed (c ∷ cs) n out r
unfolding contents
Removed-cons c cs n out r l h d =
    let len = length-content c l.chain in
    let k : n - length (content c) ≡ n - size c = omega (arith, len) in
    record {
      packed = d.packed;
      rest = rw (drop_more (content c) (contents cs) n (omega (arith, len)), k) d.rest;
      out =
          rw (take_more (content c) (contents cs) n (omega (arith, len)), k, ← append_assoc) d.out;
    }
