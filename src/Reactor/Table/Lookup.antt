-- ===== src/Reactor/Table/Lookup.antt =====
-- What `getHandler` of src/reactor/poll_demultiplex_table.cpp finds after handlers are bound and unbound.
use unp.Base.{
  ℕ, zero, suc, ◌-◌, ◌≤◌, ◌<◌, ◌≡◌, refl, sym, ap, ◌∙◌, true, false, ◌&&◌, Option, none, some, List,
  [], ◌∷◌, inl, inr, Bool-cases, arith, length, length-append, length-replicate, replicate, set,
  get_or, leb, leb→le, leb→lt, ◌==◌, if◌then◌else◌, ==-eq, ◌≢◌, none-ne-some, Option-cases,
}
use unp.Base.Int.{pos, negsuc}
use unp.Reactor.Assoc.{
  lookup, erase, put, mem, discard, is_nil, lookup-put, lookup-erase, get_or-resize, get_or-set,
}
use unp.Reactor.Table.{
  Repo, row, resized, bind_handle, bind_new, bound_as, none_event, timeout_event, get_handler,
  unbind, unbind_handle,
}

get_or_past : (t : List (List (ℕ × ℕ))) (h : ℕ) → length t ≤ h → get_or t h [] ≡ []
get_or_past [] h le = refl
get_or_past (x ∷ t) zero le = absurd (omega arith)
get_or_past (x ∷ t) (suc h) le = get_or_past t h (omega arith)

-- Past the end of the table there is an empty row.
pub get_handler-row :
    (r : Repo) (h event : ℕ)
    → get_handler r (some h) event ≡ (if event == none_event then none else lookup (row r h) event)
unfolding get_handler
get_handler-row r h event = elim (Bool-cases (leb (length r.events_table) h)) [
  | inl past ↦
      let empty : row r h ≡ [] =
        get_or_past r.events_table h (leb→le (length r.events_table) h past) in
      rw (past, empty) refl
  | inr inside ↦ rw inside refl
]

pub row-resized : (t : List (List (ℕ × ℕ))) (h j : ℕ) → get_or (resized t h) j [] ≡ get_or t j []
unfolding resized
row-resized t h j = elim (Bool-cases (leb (length t) h)) [
  | inl past ↦ rw past (get_or-resize t (suc h - length t) j [])
  | inr inside ↦ rw inside refl
]

pub resized_room : (t : List (List (ℕ × ℕ))) (h : ℕ) → h < length (resized t h)
unfolding resized
resized_room t h = elim (Bool-cases (leb (length t) h)) [
  | inl past ↦ rw past (
      omega (
        arith,
        leb→le (length t) h past,
        length-append t (replicate (suc h - length t) []),
        length-replicate {A = List (ℕ × ℕ)} (suc h - length t) [],
      ))
  | inr inside ↦ rw inside (leb→lt (length t) h inside)
]

pub bind_handle-row :
    (r : Repo) (h event handler j : ℕ)
    → row (bind_handle r (some h) event handler).0 j
      ≡ (if j == h then put (row r h) event handler else row r j)
unfolding bind_handle
bind_handle-row r h event handler j =
    get_or-set (resized r.events_table h) h
      (put (get_or (resized r.events_table h) h []) event handler) j []
      (resized_room r.events_table h)
    ∙ rw (row-resized r.events_table h h, row-resized r.events_table h j) refl

pub bind_new-handle :
    (expiration : ℕ → Option ℕ) (r : Repo) (h event handler : ℕ)
    → (bound_as event == none_event) ≡ false
    → (bound_as event == timeout_event) ≡ false
    → bind_new expiration r (some h) event (some handler)
      ≡ bind_handle r (some h) (bound_as event) handler
unfolding bind_new
bind_new-handle expiration r h event handler some_event io =
    rw (some_event, bind_new) (rw (io, bind_new) refl)

-- The rows of a table decide what is found.
found_lem :
    (r r' : Repo) (h event j e : ℕ) (answer : Option ℕ)
    → (event == none_event) ≡ false
    → lookup (row r' j) e ≡ (if j == h && e == event then answer else lookup (row r j) e)
    → get_handler r' (some j) e
      ≡ (if j == h && e == event then answer else get_handler r (some j) e)
found_lem r r' h event j e answer some_event rows =
    rw (get_handler-row r' j e, get_handler-row r j e, rows) (cases answer (lookup (row r j) e))
  where
    cases :
        (answer old : Option ℕ)
        → (if e == none_event then none else (if j == h && e == event then answer else old))
          ≡ (if j == h && e == event then answer else (if e == none_event then none else old))
    cases answer old = ground arith

-- Binding a handler to an event of a handle, not NONE and not a timeout, returns 0; afterwards
-- getHandler finds it there, as READ_EVENT for ACCEPT_EVENT, and finds for every other handle and event
-- what it found before.
pub get_handler-bind_new :
    (expiration : ℕ → Option ℕ) (r : Repo) (h event handler : ℕ)
    → (bound_as event == none_event) ≡ false
    → (bound_as event == timeout_event) ≡ false
    → (j e : ℕ)
    → ((bind_new expiration r (some h) event (some handler)).1 ≡ pos 0)
      × (get_handler (bind_new expiration r (some h) event (some handler)).0 (some j) e
          ≡ (if j == h && e == bound_as event then some handler else get_handler r (some j) e))
unfolding bind_handle
get_handler-bind_new expiration r h event handler some_event io j e =
    rw (bind_new-handle expiration r h event handler some_event io) (
      refl,
      found_lem r (bind_handle r (some h) (bound_as event) handler).0 h (bound_as event) j e
          (some handler) some_event rows,
    )
  where
    put_row :
        (m n : List (ℕ × ℕ)) (ev : ℕ)
        → lookup (if j == h then put m ev handler else n) e ≡ (
            if j == h && e == ev then some handler else (if j == h then lookup m e else lookup n e))
    put_row m n ev = elim (Bool-cases (j == h)) [
      | inl same ↦ rw same (lookup-put m ev handler e)
      | inr other ↦ rw other refl
    ]

    same_row : (if j == h then lookup (row r h) e else lookup (row r j) e) ≡ lookup (row r j) e
    same_row = elim (Bool-cases (j == h)) [
      | inl same ↦ rw same (ap (λ k. lookup (row r k) e) (sym (==-eq j h same)))
      | inr other ↦ rw other refl
    ]

    rows :
        lookup (row (bind_handle r (some h) (bound_as event) handler).0 j) e
        ≡ (if j == h && e == bound_as event then some handler else lookup (row r j) e)
    rows =
        ap (λ m. lookup m e) (bind_handle-row r h (bound_as event) handler j)
        ∙ put_row (row r h) (row r j) (bound_as event)
        ∙ ap (λ o. if j == h && e == bound_as event then some handler else o) same_row

-- What is found was bound, in a row of the table.
bound_lem :
    (r : Repo) (h event handler : ℕ)
    → get_handler r (some h) event ≡ some handler
    → ((event == none_event) ≡ false)
      × (h < length r.events_table)
      × (lookup (row r h) event ≡ some handler)
unfolding get_handler
bound_lem r h event handler found = elim (Bool-cases (event == none_event)) [
  | inl nothing ↦ absurd (none-ne-some handler (sym (rw (nothing, get_handler) refl) ∙ found))
  | inr some_event ↦ elim (Bool-cases (leb (length r.events_table) h)) [
    | inl past ↦ absurd (
        none-ne-some handler
          (sym (rw (some_event, get_handler) (rw (past, get_handler) refl)) ∙ found))
    | inr inside ↦ (
      some_event,
      leb→lt (length r.events_table) h inside,
      sym (rw (some_event, get_handler) (rw (inside, get_handler) refl)) ∙ found,
    )
  ]
]

-- The repository once the event of the handle is unbound.
abbrev pub without : Repo → ℕ → ℕ → Repo
without r h event = record r {
  handle_set = if is_nil (erase (row r h) event) then discard r.handle_set h else r.handle_set;
  events_table = set r.events_table h (erase (row r h) event);
}

pub unbind-handle :
    (expiration : ℕ → Option ℕ) (r : Repo) (h event handler : ℕ)
    → (event == timeout_event) ≡ false
    → mem r.handle_set h ≡ true
    → get_handler r (some h) event ≡ some handler
    → unbind expiration r (some h) event (some handler) ≡ (without r h event, pos 0)
unfolding unbind unbind_handle
unbind-handle expiration r h event handler io held found =
    let (some_event, inside, bound) = bound_lem r h event handler found in
    rw (some_event, unbind)
      (rw (io, unbind)
        (rw (held, unbind_handle)
          (rw (bound, unbind_handle) (rw (same handler, unbind_handle) refl))))
  where
    same : (n : ℕ) → (n == n) ≡ true
    same n = ground arith

-- Unbinding the handler that getHandler finds at an event of a handle, where the handle is in the set
-- and the event is not a timeout, returns 0; afterwards getHandler finds nothing there, and for every
-- other handle and event what it found before.
pub get_handler-unbind :
    (expiration : ℕ → Option ℕ) (r : Repo) (h event handler : ℕ)
    → (event == timeout_event) ≡ false
    → mem r.handle_set h ≡ true
    → get_handler r (some h) event ≡ some handler
    → (j e : ℕ)
    → ((unbind expiration r (some h) event (some handler)).1 ≡ pos 0)
      × (get_handler (unbind expiration r (some h) event (some handler)).0 (some j) e
          ≡ (if j == h && e == event then none else get_handler r (some j) e))
get_handler-unbind expiration r h event handler io held found j e =
    let (some_event, inside, bound) = bound_lem r h event handler found in
    rw (unbind-handle expiration r h event handler io held found)
      (refl, found_lem r (without r h event) h event j e none some_event (rows inside))
  where
    rows :
        h < length r.events_table
        → lookup (row (without r h event) j) e
          ≡ (if j == h && e == event then none else lookup (row r j) e)
    rows inside =
        ap (λ m. lookup m e) (get_or-set r.events_table h (erase (row r h) event) j [] inside)
        ∙ elim (Bool-cases (j == h)) [
          | inl same ↦ rw same (
              lookup-erase (row r h) event e
              ∙ ap (λ k. if e == event then none else lookup (row r k) e) (sym (==-eq j h same)))
          | inr other ↦ rw other refl
        ]

-- Unbinding a handler that getHandler does not find at the event, which is not a timeout, changes
-- nothing and returns -1.
pub unbind_refused :
    (expiration : ℕ → Option ℕ) (r : Repo) (h event handler : ℕ)
    → (event == timeout_event) ≡ false
    → get_handler r (some h) event ≢ some handler
    → unbind expiration r (some h) event (some handler) ≡ (r, negsuc 0)
unfolding unbind unbind_handle
unbind_refused expiration r h event handler io other = elim (Bool-cases (event == none_event)) [
  | inl nothing ↦ rw (nothing, unbind) refl
  | inr some_event ↦ elim (Bool-cases (mem r.handle_set h)) [
    | inr free ↦ rw (some_event, unbind) (rw (io, unbind) (rw (free, unbind_handle) refl))
    | inl held ↦ elim (Option-cases (lookup (row r h) event)) [
      | inl e ↦
          rw (some_event, unbind)
            (rw (io, unbind) (rw (held, unbind_handle) (rw (e, unbind_handle) refl)))
      | inr (bound, e) ↦
          rw (some_event, unbind)
            (rw (io, unbind)
              (rw (held, unbind_handle)
                (rw (e, unbind_handle) (rw (not_same bound some_event e, unbind_handle) refl))))
    ]
  ]
]
  where
    not_same :
        (bound : ℕ)
        → (event == none_event) ≡ false
        → lookup (row r h) event ≡ some bound
        → (bound == handler) ≡ false
    not_same bound some_event e = elim (Bool-cases (bound == handler)) [
      | inr no_match ↦ no_match
      | inl match_eq ↦ absurd (
          other (
            get_handler-row r h event
            ∙ rw (some_event, e) (ap some (==-eq bound handler match_eq))))
    ]
