-- ===== src/Util/StringPiece/Find.antt =====
-- `find` of src/util/string_piece/string_piece.h against `sub_string`.
use unp.Base.{
  ℕ, zero, suc, ◌+◌, ◌-◌, ◌^◌, ◌<◌, ◌≡◌, refl, ap, ap₂, ◌∙◌, ◌⊎◌, inl, inr, some, List, [], ◌∷◌,
  arith, length, get_elem?, take, drop, min, none-ne-some, some-injective, le→ltb, length-take,
  length-drop,
}
use unp.Base.Int.{pos, negsuc}
use unp.Util.Kmp.Fall.{Occurs}
use unp.Util.Kmp.Search.{kmp_search_sound}
use unp.Util.StringPiece.{find_piece, sub_string}

-- A pattern that stands at the front.
front_lem :
    (pattern text : List ℕ)
    → ((k : ℕ) → k < length pattern → get_elem? text k ≡ get_elem? pattern k)
    → take (length pattern) text ≡ pattern
front_lem [] text h = refl
front_lem (p ∷ ps) [] h = absurd (none-ne-some p (h 0 (omega arith)))
front_lem (p ∷ ps) (t ∷ ts) h =
    ap₂ (λ x xs. x ∷ xs) (some-injective _ _ (h 0 (omega arith)))
      (front_lem ps ts (λ k less. h (suc k) (omega arith)))

Occurs-take :
    (pattern text : List ℕ) (at : ℕ)
    → Occurs pattern text at
    → take (length pattern) (drop at text) ≡ pattern
Occurs-take pattern text zero h =
    front_lem pattern text (λ k less. ap (get_elem? text) (index k) ∙ h k less)
  where
    index : (k : ℕ) → k ≡ 0 + k
    index k = omega arith
Occurs-take [] [] (suc at) h = refl
Occurs-take (p ∷ ps) [] (suc at) h = absurd (none-ne-some p (h 0 (omega arith)))
Occurs-take pattern (t ∷ ts) (suc at) h =
    Occurs-take pattern ts at (λ k less. ap (get_elem? (t ∷ ts)) (index k) ∙ h k less)
  where
    index : (k : ℕ) → suc (at + k) ≡ suc at + k
    index k = omega arith

-- find of a pattern that is not empty, both it and the piece shorter than 2 ^ 31, is -1 or an index
-- from which sub_string of the pattern's size gives the pattern.
pub find_piece-sub_string :
    (pattern text : List ℕ)
    → 0 < length pattern
    → length text < 2 ^ 31
    → length pattern < 2 ^ 31
    → (find_piece text pattern ≡ some (negsuc 0))
      ⊎ ((at : ℕ) × (find_piece text pattern ≡ some (pos at))
          × (sub_string text at (length pattern) ≡ some pattern))
unfolding find_piece sub_string
find_piece-sub_string pattern text some_byte small short =
    elim (kmp_search_sound pattern text small short) [
      | inl missing ↦ inl missing
      | inr (at, e, occurs) ↦ inr (at, e, piece at (Occurs-take pattern text at occurs))
    ]
  where
    piece :
        (at : ℕ)
        → take (length pattern) (drop at text) ≡ pattern
        → sub_string text at (length pattern) ≡ some pattern
    piece at front =
        let count : min (length pattern) (length text - at) ≡ length pattern = omega (
          arith,
          ap length front,
          length-take (length pattern) (drop at text),
          length-drop at text,
        ) in
        rw (le→ltb (length text) at (omega (arith, count, some_byte)), count) (ap some front)
