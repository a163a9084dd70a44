-- ===== src/Util/StringPiece/Tests.antt =====
-- Pieces at concrete inputs.
use unp.Base.{ℕ, ◌≡◌, refl, List, [], ◌∷◌, arith}
use unp.Util.StringPiece.{less, equal, strncmp, equals, compare_pieces}
use unp.Util.StringPiece.Order.{lexicographic, compare-lexicographic}

abbrev piece : List ℕ
piece = 3 ∷ 1 ∷ 2 ∷ []

abbrev prefix_piece : List ℕ
prefix_piece = 3 ∷ 1 ∷ []

prefix_first : compare_pieces prefix_piece piece ≡ less
unfolding compare_pieces equals strncmp
prefix_first = refl

-- Past a NUL nothing is compared.
nul_hides : compare_pieces (3 ∷ 0 ∷ 1 ∷ []) (3 ∷ 0 ∷ 2 ∷ []) ≡ equal
unfolding compare_pieces equals strncmp
nul_hides = refl

compare-lexicographic_example : compare_pieces prefix_piece piece ≡ lexicographic prefix_piece piece
compare-lexicographic_example =
    compare-lexicographic prefix_piece piece (omega arith, (omega arith, tt))

same_piece : compare_pieces piece piece ≡ equal
unfolding compare_pieces equals strncmp
same_piece = refl
