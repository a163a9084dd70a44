-- ===== src/Reactor/Select/Top.antt =====
-- `current_max_handle_p_1_` of src/reactor/select_reactor_impl.cpp is one more than the greatest handle that has a handler.
use unp.Base.{
  ℕ, zero, suc, ◌+◌, ◌-◌, ◌/◌, ◌≤◌, ◌<◌, ◌≡◌, ◌≢◌, ◌⊎◌, inl, inr, refl, sym, ap, ◌∙◌, true, false,
  Bool-cases, Option, none, some, none-ne-some, some-injective, List, [], ◌∷◌, ◌++◌, arith, length,
  get_elem?, get-set, get_below, get_or, set, replicate, length-append, length-replicate, leb, ◌==◌,
  ==-eq, ==-ne, leb→le, leb→lt, le→leb, if◌then◌else◌,
}
use unp.Base.Int.{pos}
use unp.Buffer.Chain.{◌>>=◌}
use unp.Reactor.Assoc.{is_nil, get_or-resize}
use unp.Reactor.Table.{none_event}
use unp.Reactor.Select.{
  EventTuple, SelectTable, find, tuple_bind_new, tuple_get_handler, get_handler, resized, bind,
  max_number_of_handle,
}

-- `m` is one more than the greatest index of a row that is not empty, or 0.
abbrev pub IsAbove : ℕ → List EventTuple → Type 0
IsAbove zero rows = (j : ℕ) (row : EventTuple) → get_elem? rows j ≡ some row → row ≡ []
IsAbove (suc m) rows =
    ((row : EventTuple) × (get_elem? rows m ≡ some row) × (is_nil row ≡ false))
    × ((j : ℕ) (row : EventTuple) → m < j → get_elem? rows j ≡ some row → row ≡ [])

abbrev pub IsTop : SelectTable → Type 0
IsTop t = IsAbove t.current_max t.event_vector

-- A row read after a write.
pub row-set :
    (rows : List EventTuple) (i j : ℕ) (row r : EventTuple)
    → i < length rows
    → get_elem? (set rows i row) j ≡ some r
    → ((j ≡ i) × (r ≡ row)) ⊎ ((j ≢ i) × (get_elem? rows j ≡ some r))
row-set rows i j row r h e = elim (Bool-cases (j == i)) [
  | inl k ↦ inl (
    ==-eq j i k,
    some-injective _ _
        (sym e ∙ get-set rows i row j h ∙ ap (λ t. if t then some row else get_elem? rows j) k),
  )
  | inr k ↦ inr (
    ==-ne j i k,
    sym (get-set rows i row j h ∙ ap (λ t. if t then some row else get_elem? rows j) k) ∙ e,
  )
]

pub row_here :
    (rows : List EventTuple) (i : ℕ) (row : EventTuple)
    → i < length rows
    → get_elem? (set rows i row) i ≡ some row
row_here rows i row h =
    let same : (i == i) ≡ true = ground arith in get-set rows i row i h ∙ rw same refl

pub row_there :
    (rows : List EventTuple) (i j : ℕ) (row r : EventTuple)
    → i < length rows
    → (j == i) ≡ false
    → get_elem? rows j ≡ some r
    → get_elem? (set rows i row) j ≡ some r
row_there rows i j row r h k e =
    get-set rows i row j h ∙ ap (λ t. if t then some row else get_elem? rows j) k ∙ e

-- The rows that a resize adds are empty.
old_or_nil :
    (rows : List EventTuple) (n j : ℕ) (row : EventTuple)
    → get_elem? (rows ++ replicate n []) j ≡ some row
    → (get_elem? rows j ≡ some row) ⊎ (row ≡ [])
old_or_nil [] zero j row e = absurd (none-ne-some _ e)
old_or_nil [] (suc n) zero row e = inr (sym (some-injective _ _ e))
old_or_nil [] (suc n) (suc j) row e = old_or_nil [] n j row e
old_or_nil (r ∷ rows) n zero row e = inl e
old_or_nil (r ∷ rows) n (suc j) row e = old_or_nil rows n j row e

old_there :
    (rows : List EventTuple) (n j : ℕ) (row : EventTuple)
    → get_elem? rows j ≡ some row
    → get_elem? (rows ++ replicate n []) j ≡ some row
old_there [] n j row e = absurd (none-ne-some _ e)
old_there (r ∷ rows) n zero row e = e
old_there (r ∷ rows) n (suc j) row e = old_there rows n j row e

IsAbove-append :
    (m : ℕ) (rows : List EventTuple) (n : ℕ) → IsAbove m rows → IsAbove m (rows ++ replicate n [])
IsAbove-append zero rows n g =
    λ j row e. elim (old_or_nil rows n j row e) [ inl old ↦ g j row old | inr nil ↦ nil ]
IsAbove-append (suc m) rows n g = (
  (g.0.0, old_there rows n m g.0.0 g.0.1, g.0.2),
  λ j row less e. elim (old_or_nil rows n j row e) [ inl old ↦ g.1 j row less old | inr nil ↦ nil ],
)

pub IsAbove-resized :
    (m : ℕ) (rows : List EventTuple) (handle : ℕ) → IsAbove m rows → IsAbove m (resized rows handle)
unfolding resized
IsAbove-resized m rows handle g = elim (Bool-cases (leb (length rows) handle)) [
  | inl short ↦ rw short (IsAbove-append m rows (handle + handle / 2 - length rows) g)
  | inr long ↦ rw long g
]

-- A row is written that is not empty.
pub IsAbove-set :
    (m : ℕ) (rows : List EventTuple) (i : ℕ) (row : EventTuple)
    → i < length rows
    → is_nil row ≡ false
    → IsAbove m rows
    → IsAbove (if leb m i then suc i else m) (set rows i row)
IsAbove-set zero rows i row h full g = rw (le→leb 0 i (omega arith)) (
  (row, row_here rows i row h, full),
  λ j r less e. elim (row-set rows i j row r h e) [
    | inl (same, same_row) ↦ absurd (omega (arith, less, same))
    | inr (differs, old) ↦ g j r old
  ],
)
IsAbove-set (suc m) rows i row h full g = elim (Bool-cases (leb (suc m) i)) [
  | inl above ↦ rw above (
    (row, row_here rows i row h, full),
    λ j r less e. elim (row-set rows i j row r h e) [
      | inl (same, same_row) ↦ absurd (omega (arith, less, same))
      | inr (differs, old) ↦ g.1 j r (omega (arith, less, leb→le (suc m) i above)) old
    ],
  )
  | inr below ↦ rw below (
    elim (Bool-cases (m == i)) [
      | inl last ↦ (
        row,
        ap (λ k. get_elem? (set rows i row) k) (==-eq m i last) ∙ row_here rows i row h,
        full,
      )
      | inr other ↦ (g.0.0, row_there rows i m row g.0.0 h other g.0.1, g.0.2)
    ],
    λ j r less e. elim (row-set rows i j row r h e) [
      | inl (same, same_row) ↦ absurd (omega (arith, less, same, leb→lt (suc m) i below))
      | inr (differs, old) ↦ g.1 j r less old
    ],
  )
]

-- The row that is written to is the old one, or an empty one.
resized_row :
    (rows : List EventTuple) (handle : ℕ) (row : EventTuple)
    → get_elem? (resized rows handle) handle ≡ some row
    → get_or rows handle [] ≡ row
unfolding resized
resized_row rows handle row e = elim (Bool-cases (leb (length rows) handle)) [
  | inl short ↦
      sym (get_or-resize rows (handle + handle / 2 - length rows) handle [])
      ∙ get_or_row (rows ++ replicate (handle + handle / 2 - length rows) []) handle row
          (rw short at e)
  | inr long ↦ get_or_row rows handle row (rw long at e)
]
  where
    get_or_row :
        (xs : List EventTuple) (i : ℕ) (a : EventTuple)
        → get_elem? xs i ≡ some a
        → get_or xs i [] ≡ a
    get_or_row [] i a h = absurd (none-ne-some _ h)
    get_or_row (x ∷ xs) zero a h = some-injective _ _ h
    get_or_row (x ∷ xs) (suc i) a h = get_or_row xs i a h

resized_within :
    (rows : List EventTuple) (handle : ℕ)
    → (handle < length rows) ⊎ (2 ≤ handle)
    → handle < length (resized rows handle)
unfolding resized
resized_within rows handle fits = elim (Bool-cases (leb (length rows) handle)) [
  | inl short ↦ rw short (
      omega (
        arith,
        fits,
        leb→le (length rows) handle short,
        length-append rows (replicate (handle + handle / 2 - length rows) []),
        length-replicate {A = EventTuple} (handle + handle / 2 - length rows) [],
      ))
  | inr long ↦ rw long (leb→lt (length rows) handle long)
]

-- The handler that get_handler finds first.
abbrev pub or_else : Option ℕ → ℕ → ℕ
or_else none handler = handler
or_else (some old) handler = old

find_snoc :
    (row : EventTuple) (type handler : ℕ)
    → find (row ++ (type, handler) ∷ []) type ≡ some (or_else (find row type) handler)
find_snoc [] type handler = let same : (type == type) ≡ true = ground arith in rw same refl
find_snoc ((t, h) ∷ row) type handler = elim (Bool-cases (t == type)) [
  | inl same ↦ rw same refl
  | inr differs ↦ rw differs (find_snoc row type handler)
]

in_range : (max handle : ℕ) → leb (suc handle) (if leb max handle then suc handle else max) ≡ true
in_range max handle = ground arith

get_row :
    (rows : List EventTuple) (max handle type : ℕ) (row : EventTuple) (found : ℕ)
    → leb (suc handle) max ≡ true
    → get_elem? rows handle ≡ some row
    → find row type ≡ some found
    → get_handler (record { event_vector = rows; current_max = max }) (some handle) type
      ≡ some (some found)
unfolding get_handler tuple_get_handler
get_row rows max handle type row found range e first =
    rw range (rw (e, ◌>>=◌) (rw (first, tuple_get_handler) refl))

is_nil_snoc : (row : EventTuple) (p : ℕ × ℕ) → is_nil (row ++ p ∷ []) ≡ false
is_nil_snoc [] p = refl
is_nil_snoc (q ∷ row) p = refl

-- Binding a handler to an event other than NONE of a handle that the vector has room for, or from 2 on
-- and at most FD_SETSIZE, does not fault and returns 0; it keeps current_max_handle_p_1_ one more than
-- the greatest handle with a handler, and get_handler finds the first handler that was bound to the
-- event.
pub bind-IsTop :
    (t : SelectTable) (handle handler type : ℕ)
    → IsTop t
    → handle ≤ max_number_of_handle
    → (handle < length t.event_vector) ⊎ (2 ≤ handle)
    → type ≢ none_event
    → (t' : SelectTable) × (bind t (some handle) (some handler) type ≡ some (t', pos 0))
      × IsTop t'
      × (get_handler t' (some handle) type
          ≡ some (some (or_else (find (get_or t.event_vector handle []) type) handler)))
unfolding bind tuple_bind_new
bind-IsTop t handle handler type top valid fits real =
    let rows = resized t.event_vector handle in
    let within = resized_within t.event_vector handle fits in
    let (row, e) = get_below rows handle within in
    let row' : EventTuple = row ++ (type, handler) ∷ [] in
    let real_test : (type == none_event) ≡ false = ground (arith, real) in
    let here = row_here rows handle row' within in
    (
      record {
        event_vector = set rows handle row';
        current_max = if leb t.current_max handle then suc handle else t.current_max;
      },
      rw (le→leb handle max_number_of_handle valid) (rw (e, ◌>>=◌) (rw real_test refl)),
      IsAbove-set t.current_max rows handle row' within (is_nil_snoc row (type, handler))
          (IsAbove-resized t.current_max t.event_vector handle top),
      get_row (set rows handle row') _ handle type row' _ (in_range t.current_max handle) here (
          find_snoc row type handler
          ∙ ap (λ r. some (or_else (find r type) handler))
              (sym (resized_row t.event_vector handle row e))),
    )
