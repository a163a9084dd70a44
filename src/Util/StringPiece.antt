-- ===== src/Util/StringPiece.antt =====
-- `Range` of src/util/string_piece/string_piece.h over the bytes that it points at.
pub mod Order
pub mod Find
mod Tests
use unp.Base.{
  ℕ, zero, suc, ◌-◌, Bool, true, false, Option, none, some, List, [], ◌∷◌, length, take, drop, ltb,
  ◌==◌, if◌then◌else◌, min,
}
use unp.Base.Int.{ℤ}
use unp.Util.Kmp.{kmp_search}

-- The sign of a comparison.
pub data Sign : Type 0 where
  less equal greater : Sign

abbrev pub is_equal : Sign → Bool
is_equal equal = true
is_equal _ = false

-- `strncmp(a, b, n)`, which stops at a NUL: the sign is that of the first difference.
unfoldable pub strncmp : ℕ → List ℕ → List ℕ → Sign
strncmp zero cs ds = equal
strncmp (suc n) [] ds = equal
strncmp (suc n) (a ∷ cs) [] = equal
strncmp (suc n) (a ∷ cs) (b ∷ ds) =
    let rest = strncmp n cs ds in
    if ltb a b then less else if ltb b a then greater else if a == 0 then equal else rest

-- `operator==`
unfoldable pub equals : List ℕ → List ℕ → Bool
equals xs ys = if length xs == length ys then is_equal (strncmp (length xs) xs ys) else false

unfoldable pub compare_pieces : List ℕ → List ℕ → Sign
compare_pieces xs ys =
    if equals xs ys then equal else (elim (strncmp (min (length xs) (length ys)) xs ys) [
      | less ↦ less
      | greater ↦ greater
      | equal ↦ if min (length xs) (length ys) == length xs then less else greater
    ])

-- `operator<`
unfoldable pub precedes : List ℕ → List ℕ → Bool
precedes xs ys = elim (compare_pieces xs ys) [ less ↦ true | _ ↦ false ]

-- `find(value)`: an index, or `npos`.
unfoldable pub find_value : List ℕ → ℕ → Option ℕ
find_value [] value = none
find_value (x ∷ xs) value =
    let rest = find_value xs value in
    if x == value then some 0 else elim rest [ none ↦ none | some i ↦ some (suc i) ]

unfoldable pub find_piece : List ℕ → List ℕ → Option ℤ
find_piece xs pattern = kmp_search xs pattern

-- `sub_string(first, len)`; `none` is `std::out_of_range`.
unfoldable pub sub_string : List ℕ → ℕ → ℕ → Option (List ℕ)
sub_string xs first len =
    if ltb (length xs) first
    then none
    else some (take (min len (length xs - first)) (drop first xs))
