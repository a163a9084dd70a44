-- ===== src/Util/Kmp/Fall.antt =====
-- Falling back along the table of src/util/substring_search/KMP.cpp.
use unp.Base.{
  ℕ, zero, suc, ◌+◌, ◌-◌, ◌≤◌, ◌<◌, ◌≡◌, refl, sym, ap, ◌∙◌, ◌⊎◌, inl, inr, true, false, Option,
  none, some, List, [], ◌∷◌, length, get_elem?, arith, ◌==◌, ==-eq, Bool-cases, lt_or_le,
}
use unp.Base.Int.{ℤ, pos, negsuc}
use unp.Buffer.Chain.{◌>>=◌}
use unp.Util.Kmp.{fall_back}
use unp.Util.Kmp.Table.{Table, Border}

-- The pattern stands in the text from byte `at` on.
abbrev pub Occurs : List ℕ → List ℕ → ℕ → Type 0
Occurs pattern text at =
    (k : ℕ) → k < length pattern → get_elem? text (at + k) ≡ get_elem? pattern k

-- A result is -1, or a place where the pattern stands.
abbrev pub Found : List ℕ → List ℕ → Option ℤ → Type 0
Found pattern text result =
    (result ≡ some (negsuc 0)) ⊎ ((at : ℕ) × (result ≡ some (pos at)) × Occurs pattern text at)

-- The first `j` bytes of the pattern stand before byte `i` of the text.
abbrev pub Matched : List ℕ → List ℕ → ℕ → ℕ → Type 0
Matched pattern text i j =
    (j ≤ i) × ((k : ℕ) → k < j → get_elem? text (i - j + k) ≡ get_elem? pattern k)

pub get_some : (xs : List ℕ) (k : ℕ) → k < length xs → (x : ℕ) × (get_elem? xs k ≡ some x)
get_some [] k h = absurd (omega arith)
get_some (x ∷ xs) zero h = (x, refl)
get_some (x ∷ xs) (suc k) h = get_some xs k (omega arith)

module _ (pattern text : List ℕ) where
  -- A border of what is matched is matched.
  pub Border-Matched :
      (i j b : ℕ) → Matched pattern text i j → Border pattern b j → Matched pattern text i b
  Border-Matched i j b (le, agree) (less, border) = (omega (arith, le, less), agree_less)
    where
      agree_less : (k : ℕ) → k < b → get_elem? text (i - b + k) ≡ get_elem? pattern k
      agree_less k h =
          let index : i - b + k ≡ i - j + (j - b + k) = omega (arith, le, less) in
          ap (get_elem? text) index ∙ agree (j - b + k) (omega (arith, less)) ∙ sym (border k h)

  pub more-Matched :
      (i j : ℕ)
      → Matched pattern text i j
      → get_elem? text i ≡ get_elem? pattern j
      → Matched pattern text (suc i) (suc j)
  more-Matched i j (le, agree) e = (omega (arith, le), agree_more)
    where
      agree_more : (k : ℕ) → k < suc j → get_elem? text (suc i - suc j + k) ≡ get_elem? pattern k
      agree_more k h = elim (lt_or_le k j) [
        | inl below ↦
            let index : suc i - suc j + k ≡ i - j + k = omega (arith, le) in
            ap (get_elem? text) index ∙ agree k below
        | inr at ↦
            let index : suc i - suc j + k ≡ i = omega (arith, le) in
            let last : j ≡ k = omega arith in
            ap (get_elem? text) index ∙ e ∙ ap (get_elem? pattern) last
      ]

  pub no_bytes-Matched : (i : ℕ) → Matched pattern text i 0
  no_bytes-Matched i = (omega arith, λ k h. absurd (omega arith))

  module _ (table : List (Option ℕ)) (is_table : Table pattern table)
      (size : length table ≡ length pattern) (t : ℕ) where
    -- What falling back from `j` ends in: -1, or a shorter match that the byte continues.
    abbrev pub Fallen : ℕ → ℕ → Option ℕ → Type 0
    Fallen i j r =
        (r ≡ none)
        ⊎ ((j' : ℕ) × (r ≡ some j')
            × (j' ≤ j)
            × Matched pattern text i j'
            × (get_elem? pattern j' ≡ some t))

    pub fall_hit :
        (fuel j p : ℕ)
        → get_elem? pattern j ≡ some p
        → (t == p) ≡ true
        → fall_back (suc fuel) table pattern t (some j) ≡ some (some j)
    unfolding fall_back
    fall_hit fuel j p e hit = rw (e, ◌>>=◌) (rw (hit, ◌>>=◌) refl)

    pub fall_miss :
        (fuel j p : ℕ) (j' : Option ℕ)
        → get_elem? pattern j ≡ some p
        → (t == p) ≡ false
        → get_elem? table j ≡ some j'
        → fall_back (suc fuel) table pattern t (some j) ≡ fall_back fuel table pattern t j'
    unfolding fall_back
    fall_miss fuel j p j' e miss at = rw (e, ◌>>=◌) (rw (miss, ◌>>=◌) (rw (at, ◌>>=◌) refl))

    pub fall_back_lem :
        (fuel i j : ℕ)
        → j < length pattern
        → suc j < fuel
        → Matched pattern text i j
        → (r : Option ℕ) × (fall_back fuel table pattern t (some j) ≡ some r) × Fallen i j r
    unfolding fall_back
    fall_back_lem zero i j inside enough m = absurd (omega arith)
    fall_back_lem (suc fuel) i zero inside enough m =
        let (p, e) = get_some pattern 0 inside in
        elim (Bool-cases (t == p)) [
          | inl hit ↦ (
            some 0,
            fall_hit fuel _ p e hit,
            inr (0, refl, omega arith, m, e ∙ ap some (sym (==-eq t p hit))),
          )
          | inr miss ↦ (
            none,
            fall_miss fuel 0 p none e miss is_table.first ∙ fallen_none fuel (omega arith),
            inl refl,
          )
        ]
      where
        fallen_none : (fuel : ℕ) → 0 < fuel → fall_back fuel table pattern t none ≡ some none
        fallen_none zero h = absurd (omega arith)
        fallen_none (suc fuel) h = refl
    fall_back_lem (suc fuel) i (suc j) inside enough m =
        let (p, e) = get_some pattern (suc j) inside in
        elim (Bool-cases (t == p)) [
          | inl hit ↦ (
            some (suc j),
            fall_hit fuel _ p e hit,
            inr (suc j, refl, omega arith, m, e ∙ ap some (sym (==-eq t p hit))),
          )
          | inr miss ↦
              let (b, at_j, border) =
                is_table.entries (suc j) (omega arith) (omega (arith, size, inside)) in
              let (r, e', fallen) =
                fall_back_lem fuel i b (omega (arith, border.0)) (omega (arith, border.0))
                  (Border-Matched i (suc j) b m border) in
              (
                r,
                fall_miss fuel (suc j) p (some b) e miss at_j ∙ e',
                shorter b r (omega (arith, border.0)) fallen,
              )
        ]
      where
        shorter : (b : ℕ) (r : Option ℕ) → b ≤ suc j → Fallen i b r → Fallen i (suc j) r
        shorter b r le (inl e) = inl e
        shorter b r le (inr (j', e, below, m, agree)) = inr (j', e, omega (arith, below), m, agree)
