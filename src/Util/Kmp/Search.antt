-- ===== src/Util/Kmp/Search.antt =====
-- What `kmp_search` of src/util/substring_search/KMP.cpp finds.
use unp.Base.{
  ℕ, suc, ◌+◌, ◌-◌, ◌^◌, ◌≤◌, ◌<◌, ◌≡◌, refl, sym, ap, ◌∙◌, inl, inr, true, false, Option, some,
  List, [], ◌∷◌, length, get_elem?, arith, ◌==◌, ==-eq, ==-ne, Bool-cases, ◌||◌, lt_or_le, subst,
  lt→ltb, some-injective, to_u32, add64, sub64,
}
use unp.Base.Int.{pos}
use unp.Buffer.Chain.{◌>>=◌}
use unp.Util.Kmp.{
  next, fall_back, search_loop, kmp_search, build_search_table, to_int, is_last_place, match_start,
}
use unp.Util.Kmp.Table.{Table, build_search_table-Table}
use unp.Util.Kmp.Fall.{
  Found, Matched, get_some, more-Matched, no_bytes-Matched, Fallen, fall_back_lem,
}

-- A length below 2 ^ 31 is the same as an int.
int_lem : (m : ℕ) → m < 2 ^ 31 → to_int m ≡ pos m
int_lem m small =
    let word : to_u32 m ≡ m = omega (arith, small) in rw word (rw (lt→ltb m (2 ^ 31) small) refl)

index_lem :
    (i m : ℕ)
    → 0 < m
    → m ≤ suc i
    → i < 2 ^ 31
    → m < 2 ^ 31
    → to_int (match_start i (to_int m)) ≡ pos (suc i - m)
index_lem i m some_byte le small short =
    let word : to_u32 (add64 (sub64 i m) 1) ≡ suc i - m = omega (arith, some_byte, le, small) in
    rw (int_lem m short) (rw word (rw (lt→ltb (suc i - m) (2 ^ 31) (omega arith)) refl))

place_lem : (j m : ℕ) → m < 2 ^ 31 → is_last_place j (to_int m) ≡ (suc j == m)
place_lem j m short = rw (int_lem m short) refl

module _ (pattern text : List ℕ) (some_byte : 0 < length pattern) (small : length text < 2 ^ 31)
    (short : length pattern < 2 ^ 31) (table : List (Option ℕ)) (is_table : Table pattern table)
    (size : length table ≡ length pattern) where
  loop_hit :
      (t : ℕ) (ts : List ℕ) (i j p : ℕ)
      → get_elem? pattern j ≡ some p
      → (t == p) ≡ true
      → is_last_place j (to_int (length pattern)) ≡ true
      → search_loop (t ∷ ts) i j table pattern
        ≡ some (to_int (match_start i (to_int (length pattern))))
  unfolding search_loop
  loop_hit t ts i j p e hit at = rw (e, ◌>>=◌) (rw (hit, ◌>>=◌) (rw (at, ◌>>=◌) refl))

  loop_more :
      (t : ℕ) (ts : List ℕ) (i j p : ℕ)
      → get_elem? pattern j ≡ some p
      → (t == p) ≡ true
      → is_last_place j (to_int (length pattern)) ≡ false
      → search_loop (t ∷ ts) i j table pattern ≡ search_loop ts (suc i) (suc j) table pattern
  unfolding search_loop
  loop_more t ts i j p e hit at = rw (e, ◌>>=◌) (rw (hit, ◌>>=◌) (rw (at, ◌>>=◌) refl))

  loop_miss :
      (t : ℕ) (ts : List ℕ) (i j p : ℕ) (r : Option ℕ)
      → get_elem? pattern j ≡ some p
      → (t == p) ≡ false
      → fall_back (suc (suc j)) table pattern t (some j) ≡ some r
      → search_loop (t ∷ ts) i j table pattern ≡ search_loop ts (suc i) (next r) table pattern
  unfolding search_loop
  loop_miss t ts i j p r e miss fallen = rw (e, ◌>>=◌) (rw (miss, ◌>>=◌) (rw (fallen, ◌>>=◌) refl))

  -- Where the text goes on from byte `i`.
  abbrev From : List ℕ → ℕ → Type 0
  From rest i =
      (i + length rest ≡ length text) × ((k : ℕ) → get_elem? text (i + k) ≡ get_elem? rest k)

  From-front : (t : ℕ) (ts : List ℕ) (i : ℕ) → From (t ∷ ts) i → get_elem? text i ≡ some t
  From-front t ts i (_, at) =
      let index : i ≡ i + 0 = omega arith in ap (get_elem? text) index ∙ at 0

  From-next : (t : ℕ) (ts : List ℕ) (i : ℕ) → From (t ∷ ts) i → From ts (suc i)
  From-next t ts i (count, at) = (omega (arith, count), shifted)
    where
      shifted : (k : ℕ) → get_elem? text (suc i + k) ≡ get_elem? ts k
      shifted k =
          let index : suc i + k ≡ i + suc k = omega arith in ap (get_elem? text) index ∙ at (suc k)

  search_loop_lem :
      (rest : List ℕ) (i j : ℕ)
      → From rest i
      → j < length pattern
      → Matched pattern text i j
      → Found pattern text (search_loop rest i j table pattern)
  unfolding search_loop
  search_loop_lem [] i j from inside m = inl refl
  search_loop_lem (t ∷ ts) i j from inside m =
      let (p, e) = get_some pattern j inside in
      elim (Bool-cases (t == p)) [
        | inl hit ↦
            let longer : Matched pattern text (suc i) (suc j) =
              more-Matched pattern text i j m
                (From-front t ts i from ∙ ap some (==-eq t p hit) ∙ sym e) in
            elim (Bool-cases (is_last_place j (to_int (length pattern)))) [
              | inl at ↦ found p e hit at longer
              | inr more ↦ subst (Found pattern text) (sym (loop_more t ts i j p e hit more)) (
                  search_loop_lem ts (suc i) (suc j) (From-next t ts i from)
                    (inside_next (
                      ==-ne (suc j) (length pattern)
                        (sym (place_lem j (length pattern) short) ∙ more)))
                    longer)
            ]
        | inr miss ↦
            let (r, e', fallen) =
              fall_back_lem pattern text table is_table size t (suc (suc j)) i j inside
                (omega arith) m in
            subst (Found pattern text) (sym (loop_miss t ts i j p r e miss e')) (
              search_loop_lem ts (suc i) (next r) (From-next t ts i from)
                (after p r e miss fallen).0 (after p r e miss fallen).1)
      ]
    where
      inside_next : (suc j ≡ length pattern → ⊥) → suc j < length pattern
      inside_next other = elim (lt_or_le (suc j) (length pattern)) [
        | inl less ↦ less
        | inr at ↦ absurd (other (omega arith))
      ]

      found :
          (p : ℕ)
          → get_elem? pattern j ≡ some p
          → (t == p) ≡ true
          → is_last_place j (to_int (length pattern)) ≡ true
          → Matched pattern text (suc i) (suc j)
          → Found pattern text (search_loop (t ∷ ts) i j table pattern)
      found p e hit at (le, agree) =
          let whole : suc j ≡ length pattern =
            ==-eq (suc j) (length pattern) (sym (place_lem j (length pattern) short) ∙ at) in
          inr (
            suc i - length pattern,
            loop_hit t ts i j p e hit at
                ∙ ap some (
                    index_lem i (length pattern) some_byte (omega (arith, whole, le))
                      (omega (arith, from.0)) short),
            λ k less.
                ap (λ n. get_elem? text (suc i - n + k)) (sym whole)
                ∙ agree k (omega (arith, whole)),
          )

      below : (j' : ℕ) → j' ≤ j → (j' ≡ j → ⊥) → suc j' < length pattern
      below j' le other = elim (lt_or_le j' j) [
        | inl less ↦ omega (arith, less, inside)
        | inr same ↦ absurd (other (omega (arith, le, same)))
      ]

      after :
          (p : ℕ) (r : Option ℕ)
          → get_elem? pattern j ≡ some p
          → (t == p) ≡ false
          → Fallen pattern text table is_table size t i j r
          → (next r < length pattern) × Matched pattern text (suc i) (next r)
      after p r e miss (inl none_left) =
          rw none_left (some_byte, no_bytes-Matched pattern text (suc i))
      after p r e miss (inr (j', is_some, le, shorter, agree)) =
          let other : j' ≡ j → ⊥ =
            λ q. ==-ne t p miss (some-injective _ _ (sym agree ∙ ap (get_elem? pattern) q ∙ e)) in
          rw is_some (
            below j' le other,
            more-Matched pattern text i j' shorter (From-front t ts i from ∙ sym agree),
          )

-- On a text and a pattern shorter than 2 ^ 31 the search ends without a fault: every index is in range
-- and falling back comes to an end. Its result is -1, or a place in the text where the whole pattern
-- stands.
pub kmp_search_sound :
    (pattern text : List ℕ)
    → length text < 2 ^ 31
    → length pattern < 2 ^ 31
    → Found pattern text (kmp_search text pattern)
unfolding kmp_search
kmp_search_sound pattern text small short =
    elim (Bool-cases (length text == 0 || length pattern == 0)) [
      | inl none_there ↦ inl (rw (none_there, kmp_search) refl)
      | inr bytes ↦
          let (table, size) = build_search_table-Table pattern (some_bytes bytes) in
          rw (bytes, kmp_search)
            (search_loop_lem pattern text (some_bytes bytes) small short
              (build_search_table pattern) table size text 0 0
              (omega arith, λ k. ap (get_elem? text) (omega arith)) (some_bytes bytes)
              (no_bytes-Matched pattern text 0))
    ]
  where
    some_bytes : (length text == 0 || length pattern == 0) ≡ false → 0 < length pattern
    some_bytes h = ground arith
