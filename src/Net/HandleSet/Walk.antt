-- ===== src/Net/HandleSet/Walk.antt =====
-- How first_handle and next_handle of src/net/handle_set.h walk through a set.
use unp.Base.{
  ℕ, zero, suc, ◌+◌, ◌-◌, ◌≤◌, ◌<◌, ◌≡◌, refl, sym, subst, ap, ◌∙◌, inl, inr, Bool, true, false,
  false≢true, Bool-cases, Option, none, some, none-ne-some, some-injective, List, [], ◌∷◌, arith,
  get_elem?, get_below, get_inside, drop, ltb, ◌==◌, ==-eq, ==-ne, lt→ltb, ltb→lt, ltb→le,
}
use unp.Base.Int.{ℤ, pos}
use unp.Buffer.Chain.{◌>>=◌}
use unp.Reactor.Epoll.{is_zero}
use unp.Net.HandleSet.{
  HandleSet, is_positive, search_up, first_handle, next_loop, following, next_handle,
}
use unp.Net.HandleSet.Members.{count, IsHandles}

-- The least handle from `start` on, if there is one.
abbrev pub IsNext : List Bool → ℕ → Option ℕ → Type 0
IsNext bits start none = (j : ℕ) → start ≤ j → get_elem? bits j ≡ some true → ⊥
IsNext bits start (some handle) =
    (get_elem? bits handle ≡ some true)
    × (start ≤ handle)
    × ((j : ℕ) → start ≤ j → get_elem? bits j ≡ some true → handle ≤ j)

-- A place to go on from that is not behind the greatest handle.
abbrev pub AtMost : Option ℕ → Option ℕ → Type 0
AtMost none max = Unit {0}
AtMost (some handle) none = Unit {0}
AtMost (some handle) (some m) = handle ≤ m

count_zero : (bits : List Bool) → count bits ≡ 0 → (j : ℕ) → get_elem? bits j ≡ some true → ⊥
count_zero [] z j e = none-ne-some _ e
count_zero (true ∷ bits) z j e = absurd (omega (arith, z))
count_zero (false ∷ bits) z zero e = false≢true (some-injective _ _ e)
count_zero (false ∷ bits) z (suc j) e = count_zero bits z j e

count_nonzero : (bits : List Bool) (j : ℕ) → get_elem? bits j ≡ some true → 0 < count bits
count_nonzero [] j e = absurd (none-ne-some _ e)
count_nonzero (true ∷ bits) j e = omega arith
count_nonzero (false ∷ bits) zero e = absurd (false≢true (some-injective _ _ e))
count_nonzero (false ∷ bits) (suc j) e = count_nonzero bits j e

some_bit : (bits : List Bool) → 0 < count bits → (j : ℕ) × (get_elem? bits j ≡ some true)
some_bit [] h = absurd (omega (arith, h))
some_bit (true ∷ bits) h = (0, refl)
some_bit (false ∷ bits) h = let (j, e) = some_bit bits h in (suc j, e)

get-drop :
    (bits : List Bool) (start j : ℕ) → get_elem? (drop start bits) j ≡ get_elem? bits (start + j)
get-drop bits zero j = ap (λ k. get_elem? bits k) (omega arith)
get-drop [] (suc start) j = refl
get-drop (b ∷ bits) (suc start) j =
    let e : suc start + j ≡ suc (start + j) = omega arith in rw e (get-drop bits start j)

least_behind :
    (bits : List Bool) (h : ℕ)
    → ((j : ℕ) → get_elem? bits j ≡ some true → h ≤ j)
    → (j : ℕ) → get_elem? (false ∷ bits) j ≡ some true
    → suc h ≤ j
least_behind bits h least zero e = absurd (false≢true (some-injective _ _ e))
least_behind bits h least (suc j) e = omega (arith, least j e)

next_loop_lem :
    (bits : List Bool) (start k : ℕ)
    → get_elem? bits k ≡ some true
    → (h : ℕ) × (next_loop bits start (some (start + k)) ≡ some (start + h))
      × (get_elem? bits h ≡ some true)
      × ((j : ℕ) → get_elem? bits j ≡ some true → h ≤ j)
unfolding next_loop
next_loop_lem [] start k e = absurd (none-ne-some _ e)
next_loop_lem (true ∷ bits) start k e = (0, ap some (omega arith), refl, λ j e'. omega arith)
next_loop_lem (false ∷ bits) start zero e = absurd (false≢true (some-injective _ _ e))
next_loop_lem (false ∷ bits) start (suc k) e =
    let (h, run, bit, least) = next_loop_lem bits (suc start) k e in
    let shift : suc start + k ≡ start + suc k = omega arith in
    let shift' : suc start + h ≡ start + suc h = omega arith in
    (
      suc h,
      rw (lt→ltb start (start + suc k) (omega arith)) (
          subst (λ t. next_loop bits (suc start) (some t) ≡ some (start + suc h)) shift
            (run ∙ ap some shift')),
      bit,
      least_behind bits h least,
    )

-- The loop of next_handle, from a place that is not behind the greatest handle.
search_from :
    (bits : List Bool) (m start : ℕ)
    → get_elem? bits m ≡ some true
    → start ≤ m
    → (h : ℕ) × (next_loop (drop start bits) start (some m) ≡ some h) × IsNext bits start (some h)
search_from bits m start e ahead =
    let split : start + (m - start) ≡ m = omega arith in
    let at : get_elem? (drop start bits) (m - start) ≡ some true =
      get-drop bits start (m - start) ∙ ap (λ k. get_elem? bits k) split ∙ e in
    let (h, run, bit, least) = next_loop_lem (drop start bits) start (m - start) at in
    (
      start + h,
      subst (λ t. next_loop (drop start bits) start (some t) ≡ some (start + h)) split run,
      (
        sym (get-drop bits start h) ∙ bit,
        omega arith,
        λ j from ej.
            let again : start + (j - start) ≡ j = omega arith in
            omega (
              arith,
              from,
              least (j - start)
                  (get-drop bits start (j - start) ∙ ap (λ k. get_elem? bits k) again ∙ ej),
            ),
      ),
    )

zero_test : (size : ℤ) (n : ℕ) → size ≡ pos n → is_zero size ≡ (n == 0)
zero_test size n e = ap is_zero e

walk :
    (size : ℤ) (max : Option ℕ) (bits : List Bool) (current : Option ℕ)
    → let s : HandleSet = record { size = size; max_handle = max; bits = bits } in
      IsHandles s
      → AtMost current max
      → (next : Option ℕ) × (next_handle s current ≡ some next)
        × IsNext bits (following current) next
unfolding next_handle
walk size none bits current v near = elim (Bool-cases (count bits == 0)) [
  | inl z ↦ (none, rw (zero_test size (count bits) v.size, z) refl, λ j from e. v.greatest j e)
  | inr nz ↦
      let (j, e) = some_bit bits (omega (arith, ==-ne (count bits) 0 nz)) in absurd (v.greatest j e)
]
walk size (some m) bits none v near =
    let (h, run, next) = search_from bits m 0 v.greatest.0 (omega arith) in
    (
      some h,
      rw (zero_test size (count bits) v.size, full) (rw (run, ◌>>=◌) (rw (next.0, ◌>>=◌) refl)),
      next,
    )
  where
    full : (count bits == 0) ≡ false
    full = ground (arith, count_nonzero bits m v.greatest.0)
walk size (some m) bits (some c) v near =
    let full : (count bits == 0) ≡ false = ground (arith, count_nonzero bits m v.greatest.0) in
    let (b, e) = get_below bits c (omega (arith, near, get_inside bits m true v.greatest.0)) in
    elim (Bool-cases (c == m)) [
      | inl last ↦ (
        none,
        rw (zero_test size (count bits) v.size, full) (rw (e, ◌>>=◌) (rw last refl)),
        λ j from ej. absurd (omega (arith, from, v.greatest.1 j ej, ==-eq c m last)),
      )
      | inr inner ↦
          let (h, run, next) =
            search_from bits m (suc c) v.greatest.0 (omega (arith, near, ==-ne c m inner)) in
          (
            some h,
            rw (zero_test size (count bits) v.size, full)
                (rw (e, ◌>>=◌) (rw inner (rw (run, ◌>>=◌) (rw (next.0, ◌>>=◌) refl)))),
            next,
          )
    ]

-- In a set that counts its handles and knows the greatest one, next_handle from INVALID_HANDLE or from
-- a handle that is not above the greatest does not fault and returns the least handle of the set behind
-- it, or INVALID_HANDLE if there is none.
pub next_handle-IsNext :
    (s : HandleSet) (current : Option ℕ)
    → IsHandles s
    → AtMost current s.max_handle
    → (next : Option ℕ) × (next_handle s current ≡ some next)
      × IsNext s.bits (following current) next
next_handle-IsNext s current v near = walk s.size s.max_handle s.bits current v near

search_up_lem :
    (bits : List Bool) (start k : ℕ)
    → get_elem? bits k ≡ some true
    → (h : ℕ) × (search_up bits start ≡ some (start + h))
      × (get_elem? bits h ≡ some true)
      × ((j : ℕ) → get_elem? bits j ≡ some true → h ≤ j)
unfolding search_up
search_up_lem [] start k e = absurd (none-ne-some _ e)
search_up_lem (true ∷ bits) start k e = (0, ap some (omega arith), refl, λ j e'. omega arith)
search_up_lem (false ∷ bits) start zero e = absurd (false≢true (some-injective _ _ e))
search_up_lem (false ∷ bits) start (suc k) e =
    let (h, run, bit, least) = search_up_lem bits (suc start) k e in
    let shift : suc start + h ≡ start + suc h = omega arith in
    (suc h, run ∙ ap some shift, bit, least_behind bits h least)

positive_test : (size : ℤ) (n : ℕ) → size ≡ pos n → is_positive size ≡ ltb 0 n
positive_test size n e = ap is_positive e

-- The walk starts at the least handle.
pub first_handle-IsNext :
    (s : HandleSet)
    → IsHandles s
    → (first : Option ℕ) × (first_handle s ≡ some first) × IsNext s.bits 0 first
unfolding first_handle
first_handle-IsNext s v = elim (Bool-cases (ltb 0 (count s.bits))) [
  | inr few ↦ (
    none,
    rw (positive_test s.size (count s.bits) v.size, few) refl,
    λ j from e. absurd (omega (arith, count_nonzero s.bits j e, ltb→le 0 (count s.bits) few)),
  )
  | inl many ↦
      let (j, e) = some_bit s.bits (ltb→lt 0 (count s.bits) many) in
      let (h, run, bit, least) = search_up_lem s.bits 0 j e in
      (
        some (0 + h),
        rw (positive_test s.size (count s.bits) v.size, many) (rw (run, ◌>>=◌) refl),
        (
          ap (λ k. get_elem? s.bits k) (omega arith) ∙ bit,
          omega arith,
          λ i from ei. omega (arith, least i ei),
        ),
      )
]
