-- ===== src/Reactor/Table/Handles.antt =====
-- The set of handles of src/reactor/poll_demultiplex_table.cpp against the rows of the table.
use unp.Base.{
  ℕ, zero, suc, ◌<◌, ◌≡◌, refl, sym, ap, ◌∙◌, true, false, not, Option, none, some, List, [], ◌∷◌,
  inl, inr, Bool-cases, Option-cases, arith, length, get_or, ◌==◌, if◌then◌else◌, ==-eq, lt→leb,
  none-ne-some, false≢true,
}
use unp.Base.Int.{pos}
use unp.Reactor.Assoc.{
  lookup, erase, put, mem, discard, is_nil, mem-insert, mem-discard, get_or-set,
}
use unp.Reactor.Table.{
  Repo, row, handlers_at, bind_handle, bind_timeout, bind_new, bound_as, none_event, timeout_event,
  get_handler, unbind, unbind_handle, unbind_timeout, unbind_all, has_handle,
}
use unp.Reactor.Table.Lookup.{bind_handle-row, get_handler-row, without}

-- A handle is in the set when its row has an event.
abbrev pub Tracked : Repo → Type 0
Tracked r = (h : ℕ) → has_handle r h ≡ not (is_nil (row r h))

bind_handle-Tracked :
    (r : Repo) (h event handler : ℕ) → Tracked r → Tracked (bind_handle r (some h) event handler).0
unfolding bind_handle has_handle
bind_handle-Tracked r h event handler t j =
    mem-insert r.handle_set h j
    ∙ sym (ap (λ m. not (is_nil m)) (bind_handle-row r h event handler j) ∙ cases)
  where
    cases :
        not (is_nil (if j == h then put (row r h) event handler else row r j))
        ≡ (if j == h then true else mem r.handle_set j)
    cases = elim (Bool-cases (j == h)) [
      | inl same ↦ rw same refl
      | inr other ↦ rw other (sym (t j))
    ]

bind_timeout-Tracked :
    (r : Repo) (t : Option ℕ) (handler : ℕ) → Tracked r → Tracked (bind_timeout r t handler).0
unfolding bind_timeout has_handle
bind_timeout-Tracked r none handler tracked = tracked
bind_timeout-Tracked r (some t) handler tracked =
    elim (Bool-cases (mem (handlers_at r.timeout_handlers t) handler)) [
      | inl there ↦ rw (there, bind_timeout) tracked
      | inr free ↦ rw (free, bind_timeout) tracked
    ]

unbind_timeout-Tracked :
    (r : Repo) (t : Option ℕ) (handler : ℕ) → Tracked r → Tracked (unbind_timeout r t handler).0
unfolding unbind_timeout has_handle
unbind_timeout-Tracked r none handler tracked = tracked
unbind_timeout-Tracked r (some t) handler tracked =
    elim (Option-cases (lookup r.timeout_handlers t)) [
      | inl e ↦ rw (e, unbind_timeout) tracked
      | inr (hs, e) ↦ elim (Bool-cases (mem hs handler)) [
        | inl there ↦ rw (e, unbind_timeout) (rw (there, unbind_timeout) tracked)
        | inr free ↦ rw (e, unbind_timeout) (rw (free, unbind_timeout) tracked)
      ]
    ]

pub inside_lem :
    (t : List (List (ℕ × ℕ))) (h event handler : ℕ)
    → lookup (get_or t h []) event ≡ some handler
    → h < length t
inside_lem [] h event handler e = absurd (none-ne-some handler e)
inside_lem (x ∷ t) zero event handler e = omega arith
inside_lem (x ∷ t) (suc h) event handler e = omega (arith, inside_lem t h event handler e)

without-Tracked :
    (r : Repo) (h event handler : ℕ)
    → Tracked r
    → mem r.handle_set h ≡ true
    → lookup (row r h) event ≡ some handler
    → Tracked (without r h event)
unfolding has_handle
without-Tracked r h event handler t held bound j =
    cases (erase (row r h) event)
    ∙ sym (
        ap (λ m. not (is_nil m))
          (get_or-set r.events_table h (erase (row r h) event) j []
            (inside_lem r.events_table h event handler bound)))
  where
    cases :
        (left : List (ℕ × ℕ))
        → mem (if is_nil left then discard r.handle_set h else r.handle_set) j
          ≡ not (is_nil (if j == h then left else row r j))
    cases [] =
        mem-discard r.handle_set h j
        ∙ elim (Bool-cases (j == h)) [ inl same ↦ rw same refl | inr other ↦ rw other (t j) ]
    cases (x ∷ left) = elim (Bool-cases (j == h)) [
      | inl same ↦ rw same (ap (mem r.handle_set) (==-eq j h same) ∙ held)
      | inr other ↦ rw other (t j)
    ]

unbind_handle-Tracked :
    (r : Repo) (handle : Option ℕ) (event handler : ℕ)
    → Tracked r
    → Tracked (unbind_handle r handle event handler).0
unfolding unbind_handle
unbind_handle-Tracked r none event handler t = t
unbind_handle-Tracked r (some h) event handler t = elim (Bool-cases (mem r.handle_set h)) [
  | inr free ↦ rw (free, unbind_handle) t
  | inl held ↦ elim (Option-cases (lookup (row r h) event)) [
    | inl e ↦ rw (held, unbind_handle) (rw (e, unbind_handle) t)
    | inr (bound, e) ↦ elim (Bool-cases (bound == handler)) [
      | inl same ↦
          rw (held, unbind_handle)
            (rw (e, unbind_handle)
              (rw (same, unbind_handle) (without-Tracked r h event bound t held e)))
      | inr other ↦ rw (held, unbind_handle) (rw (e, unbind_handle) (rw (other, unbind_handle) t))
    ]
  ]
]

-- bindNew, on every branch, keeps the invariant that a handle is in the set exactly when an event of it
-- is bound.
pub bind_new-Tracked :
    (expiration : ℕ → Option ℕ) (r : Repo) (handle : Option ℕ) (event : ℕ) (handler : Option ℕ)
    → Tracked r
    → Tracked (bind_new expiration r handle event handler).0
unfolding bind_new
bind_new-Tracked expiration r handle event none t = t
bind_new-Tracked expiration r handle event (some handler) t =
    elim (Bool-cases (bound_as event == none_event)) [
      | inl nothing ↦ rw (nothing, bind_new) t
      | inr some_event ↦ elim (Bool-cases (bound_as event == timeout_event)) [
        | inl timeout ↦
            rw (some_event, bind_new)
              (rw (timeout, bind_new) (bind_timeout-Tracked r (expiration handler) handler t))
        | inr io ↦ rw (some_event, bind_new) (rw (io, bind_new) (on_handle handle))
      ]
    ]
  where
    on_handle : (handle : Option ℕ) → Tracked (bind_handle r handle (bound_as event) handler).0
    on_handle none = unfold bind_handle in t
    on_handle (some h) = bind_handle-Tracked r h (bound_as event) handler t

-- unbind of a handler, on every branch, keeps the invariant that a handle is in the set exactly when an
-- event of it is bound.
pub unbind-Tracked :
    (expiration : ℕ → Option ℕ) (r : Repo) (handle : Option ℕ) (event : ℕ) (handler : Option ℕ)
    → Tracked r
    → Tracked (unbind expiration r handle event handler).0
unfolding unbind
unbind-Tracked expiration r handle event none t = t
unbind-Tracked expiration r handle event (some handler) t =
    elim (Bool-cases (event == none_event)) [
      | inl nothing ↦ rw (nothing, unbind) t
      | inr some_event ↦ elim (Bool-cases (event == timeout_event)) [
        | inl timeout ↦
            rw (some_event, unbind)
              (rw (timeout, unbind) (unbind_timeout-Tracked r (expiration handler) handler t))
        | inr io ↦
            rw (some_event, unbind)
              (rw (io, unbind) (unbind_handle-Tracked r handle event handler t))
      ]
    ]

-- unbind(handle) of a handle with an event bound returns 0 and unbinds all its events and no other
-- handle's; but afterwards hasHandle is false of every handle.
pub unbind_all_forgets :
    (r : Repo) (h : ℕ)
    → is_nil (row r h) ≡ false
    → (j event : ℕ)
    → ((unbind_all r (some h)).1 ≡ pos 0)
      × (has_handle (unbind_all r (some h)).0 j ≡ false)
      × (get_handler (unbind_all r (some h)).0 (some j) event
          ≡ (if j == h then none else get_handler r (some j) event))
unfolding unbind_all has_handle
unbind_all_forgets r h events j event =
    rw (lt→leb _ _ (row_inside r.events_table h events), unbind_all)
      (rw (events, unbind_all)
        (
          refl,
          refl,
          get_handler-row _ j event
              ∙ rw
                  (
                    get_or-set r.events_table h [] j [] (row_inside r.events_table h events),
                    get_handler-row r j event,
                  )
                  cases,
        ))
  where
    row_inside : (t : List (List (ℕ × ℕ))) (h : ℕ) → is_nil (get_or t h []) ≡ false → h < length t
    row_inside [] h e = absurd (false≢true (sym e))
    row_inside (x ∷ t) zero e = omega arith
    row_inside (x ∷ t) (suc h) e = omega (arith, row_inside t h e)

    cases :
        (if event == none_event then none else lookup (if j == h then [] else row r j) event)
        ≡ (if j == h then none else (if event == none_event then none else lookup (row r j) event))
    cases = ground arith
