-- ===== src/Reactor/Select/Unbind.antt =====
-- `unbind(handle, handler, type)` of src/reactor/select_reactor_impl.cpp where another handle has a handler: its loop ends.
use unp.Base.{
  ℕ, zero, suc, ◌≤◌, ◌<◌, ◌≡◌, ◌≢◌, inl, inr, refl, sym, subst, ap, ◌∙◌, false≢true, some-injective,
  true, false, ◌&&◌, Bool-cases, some, List, [], arith, length, get_elem?, get-set, get_below,
  get_inside, set, leb, ◌==◌, ==-eq, ==-ne, le→leb, lt→leb, leb→le, leb→lt, if◌then◌else◌,
}
use unp.Buffer.Chain.{◌>>=◌}
use unp.Reactor.Assoc.{is_nil}
use unp.Reactor.Select.{
  EventTuple, SelectTable, find, tuple_unbind, tuple_get_handler, search_max, unbind,
}
use unp.Reactor.Select.Top.{IsAbove, IsTop, IsAbove-set}
use unp.Reactor.Select.Lower.{IsAbove-inner, IsAboveTo, IsAboveTo-suc, IsAbove-lowered, nil_row}

-- The loop ends at the greatest handle below that has a handler.
search_max_lem :
    (rows : List EventTuple) (n j : ℕ) (r : EventTuple)
    → n ≤ length rows
    → j < n
    → get_elem? rows j ≡ some r
    → is_nil r ≡ false
    → (m : ℕ) × (search_max rows n ≡ some m) × IsAboveTo n m rows
unfolding search_max
search_max_lem rows zero j r h below e full = absurd (omega (arith, below))
search_max_lem rows (suc n) j r h below e full =
    let (row, e') = get_below rows n (omega (arith, h)) in
    elim (Bool-cases (is_nil row)) [
      | inl nil ↦
          let earlier : j < n = omega (arith, below, not_here row e' nil) in
          let (m, run, g) = search_max_lem rows n j r (omega (arith, h)) earlier e full in
          (m, rw (e', ◌>>=◌) (rw nil run), IsAboveTo-suc n m rows row e' (nil_row row nil) g)
      | inr there ↦ (
        suc n,
        rw (e', ◌>>=◌) (rw there refl),
        ((row, omega arith, e', there), λ i s more less ei. absurd (omega (arith, more, less))),
      )
    ]
  where
    not_here : (row : EventTuple) → get_elem? rows n ≡ some row → is_nil row ≡ true → j ≢ n
    not_here row e' nil same = false≢true (
        sym full
        ∙ ap is_nil (some-injective _ _ (sym e ∙ ap (λ k. get_elem? rows k) same ∙ e'))
        ∙ nil)

-- It does not read the row of the handle itself.
search_max-set :
    (rows : List EventTuple) (i n : ℕ) (row : EventTuple)
    → i < length rows
    → n ≤ i
    → search_max (set rows i row) n ≡ search_max rows n
unfolding search_max
search_max-set rows i zero row h below = refl
search_max-set rows i (suc n) row h below =
    let other : (n == i) ≡ false = ground arith in
    rw (get-set rows i row n h, other, search_max-set rows i n row h (omega arith)) refl

module _ (rows : List EventTuple) (handle j : ℕ) (row row' r : EventTuple)
    (e : get_elem? rows handle ≡ some row) (differs : j ≢ handle) (e' : get_elem? rows j ≡ some r)
    (full : is_nil r ≡ false) where
  unbound :
      (max : ℕ)
      → IsAbove max rows
      → handle < max
      → (m : ℕ) × ((if is_nil row' && (suc handle == max)
            then search_max (set rows handle row') handle
            else some max)
          ≡ some m)
        × IsAbove m (set rows handle row')
  unbound zero top inside = absurd (omega (arith, inside))
  unbound (suc k) top inside =
      let within = get_inside rows handle row e in
      elim (Bool-cases (is_nil row')) [
        | inr more ↦ (
          suc k,
          rw more refl,
          subst (λ t. IsAbove t (set rows handle row')) (sym (sym_test k inside))
              (IsAbove-set (suc k) rows handle row' within more top),
        )
        | inl none_left ↦
            let nil : row' ≡ [] = nil_row row' none_left in
            elim (Bool-cases (suc handle == suc k)) [
              | inl last ↦
                  let same : handle ≡ k = omega (arith, ==-eq (suc handle) (suc k) last) in
                  let (m, run, below) =
                    search_max_lem rows handle j r (omega (arith, within))
                      (omega (arith, differs, same, no_higher k top)) e' full in
                  (
                    m,
                    rw (none_left, last)
                        (search_max-set rows handle handle row' within (omega arith) ∙ run),
                    subst (λ s. IsAbove m (set rows handle s)) (sym nil)
                        (IsAbove-lowered m handle rows within below
                          (λ i s more ei. top.1 i s (omega (arith, more, same)) ei)),
                  )
              | inr inner ↦ (
                suc k,
                rw (none_left, inner) refl,
                subst (λ s. IsAbove (suc k) (set rows handle s)) (sym nil)
                    (IsAbove-inner k handle rows within
                      (λ same. ==-ne (suc handle) (suc k) inner (sym same)) top),
              )
            ]
      ]
    where
      no_higher : (k : ℕ) → IsAbove (suc k) rows → j ≤ k
      no_higher k top = elim (Bool-cases (leb j k)) [
        | inl less ↦ leb→le j k less
        | inr more ↦ absurd (false≢true (sym full ∙ ap is_nil (top.1 j r (leb→lt j k more) e')))
      ]

      sym_test :
          (k : ℕ) → handle < suc k → suc k ≡ (if leb (suc k) handle then suc handle else suc k)
      sym_test k h = rw (lt→leb (suc k) handle h) refl

-- Where current_max_handle_p_1_ is one more than the greatest handle with a handler, unbind at an event
-- that a handle in range has, while another handle has a handler, does not fault; it changes the row of
-- that handle and returns as its tuple's unbind does, and keeps current_max_handle_p_1_ so.
pub unbind-IsTop :
    (t : SelectTable) (handle handler type bound other : ℕ) (row r : EventTuple)
    → IsTop t
    → handle < t.current_max
    → get_elem? t.event_vector handle ≡ some row
    → find row type ≡ some bound
    → other ≢ handle
    → get_elem? t.event_vector other ≡ some r
    → is_nil r ≡ false
    → (t' : SelectTable) × (unbind t (some handle) (some handler) type
        ≡ some (t', (tuple_unbind row type (some handler)).1))
      × IsTop t'
      × (t'.event_vector ≡ set t.event_vector handle (tuple_unbind row type (some handler)).0)
unfolding unbind tuple_get_handler
unbind-IsTop t handle handler type bound other row r top inside e found differs e' full =
    let row' = (tuple_unbind row type (some handler)).0 in
    let (m, run, g) =
      unbound t.event_vector handle other row row' r e differs e' full t.current_max top inside in
    (
      record { event_vector = set t.event_vector handle row'; current_max = m },
      rw (le→leb (suc handle) t.current_max inside)
          (rw (e, ◌>>=◌) (rw (found, ◌>>=◌) (rw (run, ◌>>=◌) refl))),
      g,
      refl,
    )
