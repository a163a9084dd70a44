-- ===== src/Reactor/Select/Lower.antt =====
-- What unbinding a handle's handlers does to `current_max_handle_p_1_` (src/reactor/select_reactor_impl.cpp).
use unp.Base.{
  ℕ, zero, suc, ◌≤◌, ◌<◌, ◌≡◌, ◌≢◌, inl, inr, refl, sym, ap, ◌∙◌, true, false, false≢true,
  Bool-cases, none, some, some-injective, List, [], ◌∷◌, arith, length, get_elem?, get_below,
  get_inside, set, length-set, ltb, ◌==◌, ==-eq, ==-ne, le→leb, ltb→lt, ltb→le, if◌then◌else◌,
}
use unp.Base.Int.{pos}
use unp.Buffer.Chain.{◌>>=◌}
use unp.Reactor.Assoc.{is_nil}
use unp.Reactor.Table.{none_event}
use unp.Reactor.Select.{
  EventTuple, SelectTable, find, tuple_unbind, tuple_get_handler, lower_max, unbind_all, search_max,
  unbind, erase_first,
}
use unp.Reactor.Select.Top.{IsAbove, IsTop, row-set, row_there}

-- `m` is one more than the greatest index below `n` of a row that is not empty, or 0.
abbrev pub IsAboveTo : ℕ → ℕ → List EventTuple → Type 0
IsAboveTo n zero rows = (j : ℕ) (row : EventTuple) → j < n → get_elem? rows j ≡ some row → row ≡ []
IsAboveTo n (suc m) rows =
    ((row : EventTuple) × (m < n) × (get_elem? rows m ≡ some row) × (is_nil row ≡ false))
    × ((j : ℕ) (row : EventTuple) → m < j → j < n → get_elem? rows j ≡ some row → row ≡ [])

pub nil_row : (row : EventTuple) → is_nil row ≡ true → row ≡ []
nil_row [] e = refl
nil_row (p ∷ row) e = absurd (false≢true e)

pub IsAboveTo-suc :
    (n m : ℕ) (rows : List EventTuple) (row : EventTuple)
    → get_elem? rows n ≡ some row
    → row ≡ []
    → IsAboveTo n m rows
    → IsAboveTo (suc n) m rows
IsAboveTo-suc n zero rows row e nil g = λ j r less e'. elim (Bool-cases (j == n)) [
  | inl same ↦ some-injective _ _ (sym e' ∙ ap (λ k. get_elem? rows k) (==-eq j n same) ∙ e) ∙ nil
  | inr differs ↦ g j r (omega (arith, less, ==-ne j n differs)) e'
]
IsAboveTo-suc n (suc m) rows row e nil g = (
  (g.0.0, omega (arith, g.0.1), g.0.2, g.0.3),
  λ j r more less e'. elim (Bool-cases (j == n)) [
    | inl same ↦ some-injective _ _ (sym e' ∙ ap (λ k. get_elem? rows k) (==-eq j n same) ∙ e) ∙ nil
    | inr differs ↦ g.1 j r more (omega (arith, less, ==-ne j n differs)) e'
  ],
)

-- The loop of `unbind(handle)` ends, and finds the greatest handle below.
lower_max_lem :
    (rows : List EventTuple) (n : ℕ)
    → n ≤ length rows
    → (m : ℕ) × (lower_max rows n ≡ some m) × IsAboveTo n m rows
unfolding lower_max
lower_max_lem rows zero h = (0, refl, λ j row less e. absurd (omega (arith, less)))
lower_max_lem rows (suc n) h =
    let (row, e) = get_below rows n (omega (arith, h)) in
    elim (Bool-cases (is_nil row)) [
      | inl nil ↦
          let (m, run, g) = lower_max_lem rows n (omega (arith, h)) in
          (m, rw (e, ◌>>=◌) (rw nil run), IsAboveTo-suc n m rows row e (nil_row row nil) g)
      | inr full ↦ (
        suc n,
        rw (e, ◌>>=◌) (rw full refl),
        ((row, omega arith, e, full), λ j r more less e'. absurd (omega (arith, more, less))),
      )
    ]

-- The row of the greatest handle is emptied.
pub IsAbove-lowered :
    (m handle : ℕ) (rows : List EventTuple)
    → handle < length rows
    → IsAboveTo handle m rows
    → ((j : ℕ) (row : EventTuple) → handle < j → get_elem? rows j ≡ some row → row ≡ [])
    → IsAbove m (set rows handle [])
IsAbove-lowered zero handle rows h below above = λ j row e.
    elim (row-set rows handle j [] row h e) [
      | inl (same, nil) ↦ nil
      | inr (differs, old) ↦ elim (Bool-cases (ltb j handle)) [
        | inl less ↦ below j row (ltb→lt j handle less) old
        | inr more ↦ above j row (omega (arith, differs, ltb→le j handle more)) old
      ]
    ]
IsAbove-lowered (suc m) handle rows h below above = (
  (
    below.0.0,
    row_there rows handle m [] below.0.0 h (ground (arith, below.0.1)) below.0.2,
    below.0.3,
  ),
  λ j row bigger e. elim (row-set rows handle j [] row h e) [
    | inl (same, nil) ↦ nil
    | inr (differs, old) ↦ elim (Bool-cases (ltb j handle)) [
      | inl less ↦ below.1 j row bigger (ltb→lt j handle less) old
      | inr more ↦ above j row (omega (arith, differs, ltb→le j handle more)) old
    ]
  ],
)

-- The row of another handle than the greatest one is emptied.
pub IsAbove-inner :
    (m handle : ℕ) (rows : List EventTuple)
    → handle < length rows
    → suc m ≢ suc handle
    → IsAbove (suc m) rows
    → IsAbove (suc m) (set rows handle [])
IsAbove-inner m handle rows within inner top =
    let other : (m == handle) ≡ false = ground (arith, inner) in
    (
      (top.0.0, row_there rows handle m [] top.0.0 within other top.0.1, top.0.2),
      λ j r more e'. elim (row-set rows handle j [] r within e') [
        | inl (at, nil) ↦ nil
        | inr (differs, old) ↦ top.1 j r more old
      ],
    )

emptied :
    (rows : List EventTuple) (max handle : ℕ) (row : EventTuple)
    → IsAbove max rows
    → handle < max
    → get_elem? rows handle ≡ some row
    → is_nil row ≡ false
    → (m : ℕ) × ((if max == suc handle then lower_max rows handle else some max) ≡ some m)
      × IsAbove m (set rows handle [])
emptied rows zero handle row top inside e full = absurd (omega (arith, inside))
emptied rows (suc m) handle row top inside e full =
    let within = get_inside rows handle row e in
    elim (Bool-cases (suc m == suc handle)) [
      | inl last ↦
          let same : m ≡ handle = omega (arith, ==-eq (suc m) (suc handle) last) in
          let (m', run, below) = lower_max_lem rows handle (omega (arith, within)) in
          (
            m',
            rw last run,
            IsAbove-lowered m' handle rows within below
                (λ j r more e'. top.1 j r (omega (arith, more, same)) e'),
          )
      | inr inner ↦ (
        suc m,
        rw inner refl,
        IsAbove-inner m handle rows within (==-ne (suc m) (suc handle) inner) top,
      )
    ]

-- `unbind(handle)` of a handle with a handler.
pub unbind_all-IsTop :
    (t : SelectTable) (handle : ℕ) (row : EventTuple)
    → IsTop t
    → handle < t.current_max
    → get_elem? t.event_vector handle ≡ some row
    → is_nil row ≡ false
    → (t' : SelectTable) × (unbind_all t (some handle) ≡ some (t', pos 0))
      × IsTop t'
      × (t'.event_vector ≡ set t.event_vector handle [])
unfolding unbind_all
unbind_all-IsTop t handle row top inside e full =
    let (m, run, g) = emptied t.event_vector t.current_max handle row top inside e full in
    (
      record { event_vector = set t.event_vector handle []; current_max = m },
      rw (le→leb (suc handle) t.current_max inside)
          (rw (e, ◌>>=◌) (rw full (rw (run, ◌>>=◌) refl))),
      g,
      refl,
    )

search_max_faults :
    (rows : List EventTuple) (n : ℕ)
    → n ≤ length rows
    → ((j : ℕ) (row : EventTuple) → j < n → get_elem? rows j ≡ some row → row ≡ [])
    → search_max rows n ≡ none
unfolding search_max
search_max_faults rows zero h nil = refl
search_max_faults rows (suc n) h nil =
    let (row, e) = get_below rows n (omega (arith, h)) in
    let empty : is_nil row ≡ true = ap is_nil (nil n row (omega arith) e) in
    rw (e, ◌>>=◌)
      (rw empty
        (search_max_faults rows n (omega (arith, h)) (λ j r less. nil j r (omega (arith, less)))))

-- A row that has just the pair that is unbound.
find_alone : (handler type : ℕ) → find ((type, handler) ∷ []) type ≡ some handler
find_alone handler type = let same : (type == type) ≡ true = ground arith in rw same refl

erase_alone : (handler type : ℕ) → erase_first ((type, handler) ∷ []) type ≡ []
erase_alone handler type = let same : (type == type) ≡ true = ground arith in rw same refl

unbound_row :
    (handler type : ℕ)
    → type ≢ none_event
    → (tuple_get_handler ((type, handler) ∷ []) type ≡ some handler)
      × ((tuple_unbind ((type, handler) ∷ []) type (some handler)).0 ≡ [])
unfolding tuple_unbind tuple_get_handler
unbound_row handler type real =
    let same : (handler == handler) ≡ true = ground arith in
    let real_test : (type == none_event) ≡ false = ground (arith, real) in
    (
      rw (find_alone handler type, tuple_get_handler) refl,
      rw (real_test, find_alone handler type) (rw same (erase_alone handler type)),
    )

-- Where the handle has its last handler, and no handle below has one, the loop reads the place -1.
pub unbind_of_last :
    (t : SelectTable) (handle handler type : ℕ)
    → get_elem? t.event_vector handle ≡ some ((type, handler) ∷ [])
    → type ≢ none_event
    → t.current_max ≡ suc handle
    → ((j : ℕ) (row : EventTuple) → j < handle → get_elem? t.event_vector j ≡ some row → row ≡ [])
    → unbind t (some handle) (some handler) type ≡ none
unfolding unbind
unbind_of_last t handle handler type e real top nil =
    let (got, gone) = unbound_row handler type real in
    let within = get_inside t.event_vector handle ((type, handler) ∷ []) e in
    let last : (suc handle == t.current_max) ≡ true = ground (arith, top) in
    let faults : search_max (set t.event_vector handle []) handle ≡ none =
      search_max_faults (set t.event_vector handle []) handle
        (omega (arith, length-set t.event_vector handle [], within))
        (λ j row less ej. elim (row-set t.event_vector handle j [] row within ej) [
          | inl (at, empty) ↦ empty
          | inr (differs, old) ↦ nil j row less old
        ]) in
    rw (le→leb (suc handle) t.current_max (omega (arith, top)))
      (rw (e, ◌>>=◌) (rw (got, ◌>>=◌) (rw (gone, last) (rw (faults, ◌>>=◌) refl))))
