-- ===== src/Util/Kmp/Tests.antt =====
-- The search of src/util/substring_search/KMP.cpp at concrete inputs.
use unp.Base.{ℕ, ◌≡◌, refl, some, List, [], ◌∷◌, arith}
use unp.Base.Int.{pos, negsuc}
use unp.Util.Kmp.{kmp_search, build_search_table, build_loop, search_loop, fall_back}
use unp.Util.Kmp.Fall.{Found}
use unp.Util.Kmp.Search.{kmp_search_sound}

abbrev pattern : List ℕ
pattern = 1 ∷ 1 ∷ 2 ∷ 1 ∷ 1 ∷ 1 ∷ 2 ∷ []

-- The pattern stands in this text from byte 5 on.
abbrev text : List ℕ
text = 1 ∷ 1 ∷ 2 ∷ 1 ∷ 1 ∷ 1 ∷ 1 ∷ 2 ∷ 1 ∷ 1 ∷ 1 ∷ 2 ∷ []

kmp_search_finds : kmp_search (9 ∷ pattern) pattern ≡ some (pos 1)
unfolding kmp_search build_search_table build_loop search_loop fall_back
kmp_search_finds = refl

-- The table's entry 6 is 0, where the longest border of the six bytes before it has two.
kmp_search_misses : kmp_search text pattern ≡ some (negsuc 0)
unfolding kmp_search build_search_table build_loop search_loop fall_back
kmp_search_misses = refl

kmp_search_sound_example : Found pattern text (kmp_search text pattern)
kmp_search_sound_example = kmp_search_sound pattern text (omega arith) (omega arith)
