-- ===== src/Util/Kmp/Table.antt =====
-- The table of src/util/substring_search/KMP.cpp holds borders of the pattern's prefixes.
use unp.Base.{
  ℕ, zero, suc, ◌+◌, ◌-◌, ◌≤◌, ◌<◌, ◌≡◌, refl, sym, ap, ◌∙◌, inl, inr, Bool, true, false, Option,
  none, some, List, [], ◌∷◌, ◌++◌, length, length-append, get_elem?, arith, ==-eq, Bool-cases,
  lt_or_le, subst, some-injective, none-ne-some, false≢true,
}
use unp.Buffer.Packed.{get_last}
use unp.Util.Kmp.{back, same, entry, build_loop, build_search_table}

-- The first `b` bytes of the pattern are also those before its byte `k`.
abbrev pub Border : List ℕ → ℕ → ℕ → Type 0
Border pattern b k =
    (b < k) × ((i : ℕ) → i < b → get_elem? pattern i ≡ get_elem? pattern (k - b + i))

-- Entry 0 is -1, and every other is a border.
pub record Table (pattern : List ℕ) (table : List (Option ℕ)) : Type 0 where
  pub some_entry : 0 < length table
  pub first : get_elem? table 0 ≡ some none
  pub entries :
      (k : ℕ)
      → 0 < k
      → k < length table
      → (b : ℕ) × (get_elem? table k ≡ some (some b)) × Border pattern b k

-- What the flag of the loop says of the last entry.
abbrev pub Flag : List ℕ → List (Option ℕ) → Bool → Type 0
Flag pattern table equal =
    (b : ℕ)
    → back table ≡ some (some b)
    → equal ≡ true
    → get_elem? pattern b ≡ get_elem? pattern (length table - 1)

same-eq : (x y : Option ℕ) → same x y ≡ true → x ≡ y
same-eq (some a) (some b) h = ap some (==-eq a b h)
same-eq none y h = absurd (false≢true h)
same-eq (some a) none h = absurd (false≢true h)

get_before {ℓ} :
    {A : Type ℓ} (xs : List A) (y : A) (k : ℕ)
    → k < length xs
    → get_elem? (xs ++ y ∷ []) k ≡ get_elem? xs k
get_before [] y k h = absurd (omega arith)
get_before (x ∷ xs) y zero h = refl
get_before (x ∷ xs) y (suc k) h = get_before xs y k (omega arith)

-- A border that the next byte continues is a border of the longer prefix.
longer :
    (pattern : List ℕ) (b k : ℕ)
    → Border pattern b k
    → get_elem? pattern b ≡ get_elem? pattern k
    → Border pattern (suc b) (suc k)
longer pattern b k (less, agree) e = (omega arith, same_byte)
  where
    same_byte : (i : ℕ) → i < suc b → get_elem? pattern i ≡ get_elem? pattern (suc k - suc b + i)
    same_byte i h = elim (lt_or_le i b) [
      | inl below ↦ agree i below ∙ ap (get_elem? pattern) (omega (arith, less))
      | inr at ↦
          let last : i ≡ b = omega arith in
          let index : k ≡ suc k - suc b + i = omega (arith, less) in
          ap (get_elem? pattern) last ∙ e ∙ ap (get_elem? pattern) index
    ]

-- What the next entry is: a border of the prefix of the table's length.
entry-Border :
    (pattern : List ℕ) (table : List (Option ℕ)) (equal : Bool)
    → Table pattern table
    → Flag pattern table equal
    → Border pattern (entry equal (back table)) (length table)
entry-Border pattern table equal t flag = elim (lt_or_le 1 (length table)) [
  | inl several ↦
      let (b, e, border) =
        t.entries (length table - 1) (omega (arith, several)) (omega (arith, several)) in
      from_last b e border several
  | inr one ↦ from_first (omega (arith, one, t.some_entry))
]
  where
    no_bytes : (k : ℕ) → 0 < k → Border pattern 0 k
    no_bytes k h = (h, λ i i_less. absurd (omega arith))

    from_first : length table ≡ 1 → Border pattern (entry equal (back table)) (length table)
    from_first one =
        let zero_entry : entry equal (back table) ≡ 0 = rw (one, t.first) (at_first equal) in
        rw zero_entry (no_bytes (length table) t.some_entry)
      where
        at_first : (equal : Bool) → entry equal (some none) ≡ 0
        at_first true = refl
        at_first false = refl

    from_last :
        (b : ℕ)
        → get_elem? table (length table - 1) ≡ some (some b)
        → Border pattern b (length table - 1)
        → 2 ≤ length table
        → Border pattern (entry equal (back table)) (length table)
    from_last b e border several = rw e (elim (Bool-cases equal) [
      | inl held ↦
          let count : suc (length table - 1) ≡ length table = omega (arith, several) in
          rw held (
            subst (Border pattern (suc b)) count
              (longer pattern b (length table - 1) border (flag b e held)))
      | inr fails ↦ rw fails (no_bytes (length table) t.some_entry)
    ])

-- A round keeps both.
push-Table :
    (pattern : List ℕ) (table : List (Option ℕ)) (b : ℕ)
    → Table pattern table
    → Border pattern b (length table)
    → Table pattern (table ++ some b ∷ [])
push-Table pattern table b t border = record {
  some_entry = omega (arith, length-append table (some b ∷ []));
  first = get_before table (some b) 0 t.some_entry ∙ t.first;
  entries = all_entries;
}
  where
    all_entries :
        (k : ℕ)
        → 0 < k
        → k < length (table ++ some b ∷ [])
        → (c : ℕ) × (get_elem? (table ++ some b ∷ []) k ≡ some (some c)) × Border pattern c k
    all_entries k pos less = elim (lt_or_le k (length table)) [
      | inl old ↦
          let (c, e, older) = t.entries k pos old in (c, get_before table (some b) k old ∙ e, older)
      | inr new ↦
          let at : length table ≡ k = omega (arith, length-append table (some b ∷ [])) in
          (
            b,
            ap (get_elem? (table ++ some b ∷ [])) (sym at) ∙ get_last table (some b),
            subst (Border pattern b) at border,
          )
    ]

build_loop-Table :
    (rounds i : ℕ) (pattern : List ℕ) (table : List (Option ℕ)) (equal : Bool)
    → length table ≡ i
    → Table pattern table
    → Flag pattern table equal
    → Table pattern (build_loop rounds i pattern table equal)
      × (length (build_loop rounds i pattern table equal) ≡ rounds + i)
unfolding build_loop
build_loop-Table zero i pattern table equal size t flag = (t, omega arith)
build_loop-Table (suc rounds) i pattern table equal size t flag =
    let e : ℕ = entry equal (back table) in
    let (t', count) =
      build_loop-Table rounds (suc i) pattern (table ++ some e ∷ [])
        (same (get_elem? pattern i) (get_elem? pattern e))
        (omega (arith, length-append table (some e ∷ []), size))
        (push-Table pattern table e t (entry-Border pattern table equal t flag)) (next_flag e) in
    (t', omega (arith, count))
  where
    next_flag :
        (e : ℕ)
        → Flag pattern (table ++ some e ∷ []) (same (get_elem? pattern i) (get_elem? pattern e))
    next_flag e b at held =
        let count : length (table ++ some e ∷ []) - 1 ≡ length table =
          omega (arith, length-append table (some e ∷ [])) in
        let is_e : some (some e) ≡ some (some b) =
          sym (ap (get_elem? (table ++ some e ∷ [])) count ∙ get_last table (some e)) ∙ at in
        let found : e ≡ b = some-injective _ _ (some-injective _ _ is_e) in
        ap (get_elem? pattern) (sym found)
        ∙ sym (same-eq (get_elem? pattern i) (get_elem? pattern e) held)
        ∙ ap (get_elem? pattern) (sym (count ∙ size))

-- The table of a pattern that is not empty has one entry for each byte: -1 for the first, and for each
-- other byte k the length of a border of the k bytes before it, which is below k.
pub build_search_table-Table :
    (pattern : List ℕ)
    → 0 < length pattern
    → Table pattern (build_search_table pattern)
      × (length (build_search_table pattern) ≡ length pattern)
unfolding build_search_table
build_search_table-Table pattern some_byte =
    let (t, count) =
      build_loop-Table (length pattern - 1) 1 pattern (none ∷ []) true refl
        (record {
          some_entry = omega arith;
          first = refl;
          entries = λ k pos less. absurd (omega arith);
        })
        (λ b e. absurd (none-ne-some _ (some-injective _ _ e))) in
    (t, omega (arith, count))
