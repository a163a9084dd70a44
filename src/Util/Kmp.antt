-- ===== src/Util/Kmp.antt =====
-- `build_search_table` and `kmp_search` of src/util/substring_search/KMP.cpp over byte lists. An `int`
-- that is -1 is `none`; `j` is a number, which the int holds for a pattern shorter than 2 ^ 31. A `none` outside is a fault: an index
-- out of range, or too little fuel.
pub mod Table
pub mod Fall
pub mod Search
mod Tests
use unp.Base.{
  ℕ, zero, suc, ◌-◌, ◌^◌, Bool, true, false, ◌||◌, Option, none, some, List, [], ◌∷◌, ◌++◌, length,
  get_elem?, ltb, ◌==◌, if◌then◌else◌, u32_mod, add64, sub64, to_u32,
}
use unp.Base.Int.{ℤ, pos, negsuc}
use unp.Buffer.Chain.{◌>>=◌}

-- `++back` of an `int`.
abbrev pub next : Option ℕ → ℕ
next none = 0
next (some k) = suc k

abbrev pub back : List (Option ℕ) → Option (Option ℕ)
back table = get_elem? table (length table - 1)

abbrev pub same : Option ℕ → Option ℕ → Bool
same (some a) (some b) = a == b
same _ _ = false

-- What is pushed back in a round.
abbrev pub entry : Bool → Option (Option ℕ) → ℕ
entry true (some last) = next last
entry _ _ = 0

-- The loop, with the number of rounds left: `i` is the size of the table, so that the entry that was
-- just pushed is `search_table[i]`.
unfoldable pub build_loop : ℕ → ℕ → List ℕ → List (Option ℕ) → Bool → List (Option ℕ)
build_loop zero i pattern table is_last_equal = table
build_loop (suc rounds) i pattern table is_last_equal =
    let e = entry is_last_equal (back table) in
    build_loop rounds (suc i) pattern (table ++ some e ∷ [])
      (same (get_elem? pattern i) (get_elem? pattern e))

unfoldable pub build_search_table : List ℕ → List (Option ℕ)
build_search_table pattern = build_loop (length pattern - 1) 1 pattern (none ∷ []) true

-- `while(j != -1 && t != pattern[j]) j = search_table[j];`
unfoldable pub fall_back : ℕ → List (Option ℕ) → List ℕ → ℕ → Option ℕ → Option (Option ℕ)
fall_back zero table pattern t j = none
fall_back (suc fuel) table pattern t none = some none
fall_back (suc fuel) table pattern t (some j) = do
  p ← get_elem? pattern j
  elim (t == p) [
    | true ↦ some (some j)
    | false ↦ do j' ← get_elem? table j; fall_back fuel table pattern t j'
  ]

-- `(int)n`
abbrev pub to_int : ℕ → ℤ
to_int n = if ltb (to_u32 n) (2 ^ 31) then pos (to_u32 n) else negsuc (u32_mod - 1 - to_u32 n)

-- `j == pattern_len_int - 1`
abbrev pub is_last_place : ℕ → ℤ → Bool
is_last_place j (pos n) = suc j == n
is_last_place j (negsuc n) = false

-- `i - pattern_len_int + 1`, where the int is converted to a size_t.
abbrev pub match_start : ℕ → ℤ → ℕ
match_start i (pos n) = add64 (sub64 i n) 1
match_start i (negsuc n) = add64 (add64 i (suc n)) 1

-- The loop over the text from `text[i]` on. The entries of the table fall, so that `j + 2` rounds are
-- enough to fall back from `j`.
unfoldable pub search_loop : List ℕ → ℕ → ℕ → List (Option ℕ) → List ℕ → Option ℤ
search_loop [] i j table pattern = some (negsuc 0)
search_loop (t ∷ text) i j table pattern = do
  p ← get_elem? pattern j
  elim (t == p) [
    | true ↦ elim (is_last_place j (to_int (length pattern))) [
      | true ↦ some (to_int (match_start i (to_int (length pattern))))
      | false ↦ search_loop text (suc i) (suc j) table pattern
    ]
    | false ↦ do
      fallen ← fall_back (suc (suc j)) table pattern t (some j)
      search_loop text (suc i) (next fallen) table pattern
  ]

-- `kmp_search(text, text_len, pattern, pattern_len)` of two pointers that are not null.
unfoldable pub kmp_search : List ℕ → List ℕ → Option ℤ
kmp_search text pattern =
    if length text == 0 || length pattern == 0
    then some (negsuc 0)
    else search_loop text 0 0 (build_search_table pattern) pattern

-- The bytes that `strlen` counts.
unfoldable pub c_string : List ℕ → List ℕ
c_string [] = []
c_string (c ∷ cs) = if c == 0 then [] else c ∷ c_string cs

-- `kmp_search(const char* text, const char* pattern)`
unfoldable pub kmp_search_c : List ℕ → List ℕ → Option ℤ
kmp_search_c text pattern = kmp_search (c_string text) (c_string pattern)
