-- ===== src/Util/StringPiece/Order.antt =====
-- The comparison of src/util/string_piece/string_piece.h as an order on pieces without a NUL.
use unp.Base.{
  ℕ, suc, ◌<◌, ◌≡◌, refl, sym, ap, ap₂, ◌∙◌, true, false, List, [], ◌∷◌, inl, inr, Bool-cases,
  false≢true, arith, length, ltb, ◌==◌, if◌then◌else◌, min, ==-eq, false≢true, false≢true,
}
use unp.Util.StringPiece.{Sign, less, equal, greater, is_equal, strncmp, equals, compare_pieces}

-- The lexicographic order, a prefix first.
abbrev pub lexicographic : List ℕ → List ℕ → Sign
lexicographic [] [] = equal
lexicographic [] (y ∷ ys) = less
lexicographic (x ∷ xs) [] = greater
lexicographic (x ∷ xs) (y ∷ ys) =
    let rest = lexicographic xs ys in if ltb x y then less else if ltb y x then greater else rest

abbrev pub NoNul : List ℕ → Type 0
NoNul [] = Unit
NoNul (x ∷ xs) = (0 < x) × NoNul xs

-- What `compare` makes of the sizes and of the sign of `strncmp`.
abbrev verdict : ℕ → ℕ → Sign → Sign
verdict m n less = less
verdict m n greater = greater
verdict m n equal = if m == n then equal else if ltb m n then less else greater

lexicographic_lem :
    (xs ys : List ℕ)
    → NoNul xs
    → verdict (length xs) (length ys) (strncmp (min (length xs) (length ys)) xs ys)
      ≡ lexicographic xs ys
unfolding strncmp
lexicographic_lem [] [] h = refl
lexicographic_lem [] (y ∷ ys) h = rw (no_min, strncmp) (unfold strncmp in ground arith)
  where
    no_min : min 0 (length (y ∷ ys)) ≡ 0
    no_min = omega arith
lexicographic_lem (x ∷ xs) [] h = rw (no_min, strncmp) (unfold strncmp in ground arith)
  where
    no_min : min (length (x ∷ xs)) 0 ≡ 0
    no_min = omega arith
lexicographic_lem (x ∷ xs) (y ∷ ys) h =
    rw (one_more, strncmp)
      (step (strncmp (min (length xs) (length ys)) xs ys) (lexicographic xs ys)
        (lexicographic_lem xs ys h.1))
  where
    one_more : min (suc (length xs)) (suc (length ys)) ≡ suc (min (length xs) (length ys))
    one_more = omega arith

    no_nul : (x == 0) ≡ false
    no_nul = ground (arith, h.0)

    verdict_suc : (m n : ℕ) (s : Sign) → verdict (suc m) (suc n) s ≡ verdict m n s
    verdict_suc m n less = refl
    verdict_suc m n greater = refl
    verdict_suc m n equal = ground arith

    step :
        (s l : Sign)
        → verdict (length xs) (length ys) s ≡ l
        → verdict
            (suc (length xs))
            (suc (length ys))
            (if ltb x y then less else if ltb y x then greater else if x == 0 then equal else s)
          ≡ (if ltb x y then less else if ltb y x then greater else l)
    step s l e = elim (Bool-cases (ltb x y)) [
      | inl before ↦ rw before refl
      | inr above ↦ elim (Bool-cases (ltb y x)) [
        | inl after ↦ rw (above, after) refl
        | inr same ↦ rw (above, same, no_nul) (verdict_suc (length xs) (length ys) s ∙ e)
      ]
    ]

compare_verdict :
    (xs ys : List ℕ)
    → compare_pieces xs ys
      ≡ verdict (length xs) (length ys) (strncmp (min (length xs) (length ys)) xs ys)
unfolding compare_pieces equals
compare_verdict xs ys = elim (Bool-cases (length xs == length ys)) [
  | inl same ↦
      let shortest : min (length xs) (length ys) ≡ length xs =
        omega (arith, ==-eq (length xs) (length ys) same) in
      cases_same (length xs) (length ys) (min (length xs) (length ys)) (strncmp (length xs) xs ys)
        (strncmp (min (length xs) (length ys)) xs ys) same shortest
        (ap (λ k. strncmp k xs ys) (sym shortest))
  | inr other ↦
      cases_other (length xs) (length ys) (strncmp (length xs) xs ys)
        (strncmp (min (length xs) (length ys)) xs ys) other
]
  where
    cases_same :
        (m n k : ℕ) (s t : Sign)
        → (m == n) ≡ true
        → k ≡ m
        → s ≡ t
        → (if (if m == n then is_equal s else false) then equal else (elim t [
          | less ↦ less
          | greater ↦ greater
          | equal ↦ if k == m then less else greater
        ]))
          ≡ verdict m n t
    cases_same m n k s less same shortest e = rw (same, e) refl
    cases_same m n k s greater same shortest e = rw (same, e) refl
    cases_same m n k s equal same shortest e = rw (same, e) refl

    cases_other :
        (m n : ℕ) (s t : Sign)
        → (m == n) ≡ false
        → (if (if m == n then is_equal s else false) then equal else (elim t [
          | less ↦ less
          | greater ↦ greater
          | equal ↦ if min m n == m then less else greater
        ]))
          ≡ verdict m n t
    cases_other m n s less other = rw other refl
    cases_other m n s greater other = rw other refl
    cases_other m n s equal other = ground arith

-- Where the first piece has no NUL, compare gives the sign of the lexicographic order, in which a
-- prefix comes first.
pub compare-lexicographic : (xs ys : List ℕ) → NoNul xs → compare_pieces xs ys ≡ lexicographic xs ys
compare-lexicographic xs ys h = compare_verdict xs ys ∙ lexicographic_lem xs ys h

-- The other way round.
abbrev pub flip : Sign → Sign
flip less = greater
flip equal = equal
flip greater = less

lexicographic-flip : (xs ys : List ℕ) → lexicographic ys xs ≡ flip (lexicographic xs ys)
lexicographic-flip [] [] = refl
lexicographic-flip [] (y ∷ ys) = refl
lexicographic-flip (x ∷ xs) [] = refl
lexicographic-flip (x ∷ xs) (y ∷ ys) = rw (lexicographic-flip xs ys) (cases (lexicographic xs ys))
  where
    cases :
        (s : Sign)
        → (if ltb y x then less else if ltb x y then greater else flip s)
          ≡ flip (if ltb x y then less else if ltb y x then greater else s)
    cases s = ground arith

lexicographic-eq : (xs ys : List ℕ) → lexicographic xs ys ≡ equal → xs ≡ ys
lexicographic-eq [] [] e = refl
lexicographic-eq [] (y ∷ ys) e = absurd (false≢true (ap is_equal e))
lexicographic-eq (x ∷ xs) [] e = absurd (false≢true (ap is_equal e))
lexicographic-eq (x ∷ xs) (y ∷ ys) e =
    let (same, rest) = both (lexicographic xs ys) e in
    ap₂ (λ z zs. z ∷ zs) same (lexicographic-eq xs ys rest)
  where
    both :
        (s : Sign)
        → (if ltb x y then less else if ltb y x then greater else s) ≡ equal
        → (x ≡ y) × (s ≡ equal)
    both s e = elim (Bool-cases (ltb x y)) [
      | inl before ↦ absurd (false≢true (ap is_equal (rw before at e)))
      | inr above ↦ elim (Bool-cases (ltb y x)) [
        | inl after ↦ absurd (false≢true (ap is_equal (rw (above, after) at e)))
        | inr below ↦ (ground arith, rw (above, below) at e)
      ]
    ]

-- Comparing two pieces without a NUL the other way round gives the opposite sign.
pub compare-flip :
    (xs ys : List ℕ) → NoNul xs → NoNul ys → compare_pieces ys xs ≡ flip (compare_pieces xs ys)
compare-flip xs ys h k =
    compare-lexicographic ys xs k
    ∙ lexicographic-flip xs ys
    ∙ ap flip (sym (compare-lexicographic xs ys h))

-- Where the first piece has no NUL, pieces that compare as equal have the same bytes.
pub compare-eq : (xs ys : List ℕ) → NoNul xs → compare_pieces xs ys ≡ equal → xs ≡ ys
compare-eq xs ys h e = lexicographic-eq xs ys (sym (compare-lexicographic xs ys h) ∙ e)
