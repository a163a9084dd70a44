-- ===== src/Reactor/Epoll/Counted.antt =====
-- `fd_count_` of src/reactor/epoll_reactor_impl.cpp.
use unp.Base.{
  ℕ, suc, ◌-◌, ◌≡◌, refl, sym, ap, ◌∙◌, ◌⊎◌, true, false, Option, none, some, List, [], inl, inr,
  Bool-cases, Option-cases, arith, length, get_or, leb, ◌==◌, ==-eq,
}
use unp.Base.Int.{pos, negsuc}
use unp.Reactor.Assoc.{lookup, erase, put, mem, get_or-set}
use unp.Reactor.Table.{
  Repo, row, resized, bind_handle, bound_as, none_event, read_event, accept_event, timeout_event,
  get_handler, unbind, unbind_handle,
}
use unp.Reactor.Table.Lookup.{
  get_handler-row, row-resized, resized_room, bind_handle-row, bind_new-handle, without,
}
use unp.Reactor.Table.Handles.{inside_lem}
use unp.Reactor.Epoller.{Kernel, is_negative, add, del}
use unp.Reactor.Epoll.{
  EpollReactor, register_handler, unregister_handler, bind_counted, unbind_counted,
  reactor_event_to_poll_event,
}
use unp.Reactor.Epoll.Rows.{
  Distinct, total, length-put, length-erase, put-Distinct, erase-Distinct, total-resize, total-set,
}

-- The count is that of the events in the table.
pub record IsCounted {K : Type 0} (r : EpollReactor K) : Type 0 where
  pub count : r.fd_count ≡ pos (total r.demux.events_table)
  pub distinct : (h : ℕ) → Distinct (row r.demux h)

resized-total : (t : List (List (ℕ × ℕ))) (h : ℕ) → total (resized t h) ≡ total t
unfolding resized
resized-total t h = elim (Bool-cases (leb (length t) h)) [
  | inl past ↦ rw past (total-resize t (suc h - length t))
  | inr inside ↦ rw inside refl
]

bind_handle-total :
    (r : Repo) (h event handler : ℕ)
    → lookup (row r h) event ≡ none
    → total (bind_handle r (some h) event handler).0.events_table ≡ suc (total r.events_table)
unfolding bind_handle
bind_handle-total r h event handler free = omega (
  arith,
  total-set (resized r.events_table h) h
      (put (get_or (resized r.events_table h) h []) event handler) (resized_room r.events_table h),
  ap length (row-resized r.events_table h h),
  ap (λ m. length (put m event handler)) (row-resized r.events_table h h),
  length-put (row r h) event handler free,
  resized-total r.events_table h,
)

bind_handle-Distinct :
    (r : Repo) (h event handler : ℕ)
    → ((j : ℕ) → Distinct (row r j))
    → (j : ℕ) → Distinct (row (bind_handle r (some h) event handler).0 j)
bind_handle-Distinct r h event handler d j =
    rw (bind_handle-row r h event handler j) (elim (Bool-cases (j == h)) [
      | inl same ↦ rw same (put-Distinct (row r h) event handler (d h))
      | inr other ↦ rw other (d j)
    ])

bound_as_some : (type : ℕ) → (type == none_event) ≡ false → (bound_as type == none_event) ≡ false
bound_as_some type some_event = ground arith

bound_as_io :
    (type : ℕ) → (type == timeout_event) ≡ false → (bound_as type == timeout_event) ≡ false
bound_as_io type io = ground arith

-- What `unbind` of a handler at a handle comes to, when the event is not a timeout.
pub unbind-cases :
    (expiration : ℕ → Option ℕ) (r : Repo) (h handler type : ℕ)
    → (type == timeout_event) ≡ false
    → (unbind expiration r (some h) type (some handler) ≡ (r, negsuc 0))
      ⊎ ((unbind expiration r (some h) type (some handler) ≡ (without r h type, pos 0))
          × (lookup (row r h) type ≡ some handler))
unfolding unbind unbind_handle
unbind-cases expiration r h handler type io = elim (Bool-cases (type == none_event)) [
  | inl nothing ↦ inl (rw (nothing, unbind) refl)
  | inr some_event ↦ elim (Bool-cases (mem r.handle_set h)) [
    | inr free ↦ inl (rw (some_event, unbind) (rw (io, unbind) (rw (free, unbind_handle) refl)))
    | inl held ↦ elim (Option-cases (lookup (row r h) type)) [
      | inl e ↦ inl (
          rw (some_event, unbind)
            (rw (io, unbind) (rw (held, unbind_handle) (rw (e, unbind_handle) refl))))
      | inr (bound, e) ↦ elim (Bool-cases (bound == handler)) [
        | inr other ↦ inl (
            rw (some_event, unbind)
              (rw (io, unbind)
                (rw (held, unbind_handle)
                  (rw (e, unbind_handle) (rw (other, unbind_handle) refl)))))
        | inl same ↦ inr (
          rw (some_event, unbind)
              (rw (io, unbind)
                (rw (held, unbind_handle) (rw (e, unbind_handle) (rw (same, unbind_handle) refl)))),
          e ∙ ap some (==-eq bound handler same),
        )
      ]
    ]
  ]
]

without-total :
    (r : Repo) (h event handler : ℕ)
    → Distinct (row r h)
    → lookup (row r h) event ≡ some handler
    → suc (total (without r h event).events_table) ≡ total r.events_table
without-total r h event handler d bound = omega (
  arith,
  total-set r.events_table h (erase (row r h) event)
      (inside_lem r.events_table h event handler bound),
  length-erase (row r h) event handler d bound,
)

without-Distinct :
    (r : Repo) (h event handler : ℕ)
    → ((j : ℕ) → Distinct (row r j))
    → lookup (row r h) event ≡ some handler
    → (j : ℕ) → Distinct (row (without r h event) j)
without-Distinct r h event handler d bound j =
    rw
      (get_or-set r.events_table h (erase (row r h) event) j []
        (inside_lem r.events_table h event handler bound))
      (elim (Bool-cases (j == h)) [
        | inl same ↦ rw same (erase-Distinct (row r h) event (d h))
        | inr other ↦ rw other (d j)
      ])

row_free :
    (r : Repo) (h type : ℕ)
    → (type == none_event) ≡ false
    → get_handler r (some h) type ≡ none
    → lookup (row r h) type ≡ none
row_free r h type some_event e = sym (get_handler-row r h type ∙ rw some_event refl) ∙ e

bound_row_free :
    (r : Repo) (h type : ℕ)
    → (type == none_event) ≡ false
    → get_handler r (some h) type ≡ none
    → ((type == accept_event) ≡ true → get_handler r (some h) read_event ≡ none)
    → lookup (row r h) (bound_as type) ≡ none
bound_row_free r h type some_event e free = elim (Bool-cases (type == accept_event)) [
  | inl accept ↦ rw accept (row_free r h read_event refl (free accept))
  | inr other ↦ rw other (row_free r h type some_event e)
]

module _ {K : Type 0} (os : Kernel K) (expiration : ℕ → Option ℕ) where
  bind_counted-IsCounted :
      (r : EpollReactor K) (h handler type : ℕ)
      → (type == none_event) ≡ false
      → (type == timeout_event) ≡ false
      → lookup (row r.demux h) (bound_as type) ≡ none
      → IsCounted r
      → IsCounted (bind_counted os expiration r h handler type).0
  unfolding bind_counted bind_handle
  bind_counted-IsCounted r h handler type some_event io free c =
      rw
        (
          bind_new-handle expiration r.demux h type handler (bound_as_some type some_event)
              (bound_as_io type io),
          bind_counted,
        )
        (record {
          count =
              rw c.count (ap pos (sym (bind_handle-total r.demux h (bound_as type) handler free)));
          distinct = bind_handle-Distinct r.demux h (bound_as type) handler c.distinct;
        })

  unbind_counted-IsCounted :
      (r : EpollReactor K) (h handler type : ℕ)
      → (type == timeout_event) ≡ false
      → IsCounted r
      → IsCounted (unbind_counted os expiration r h handler type).0
  unfolding unbind_counted
  unbind_counted-IsCounted r h handler type io c =
      elim (unbind-cases expiration r.demux h handler type io) [
        | inl e ↦ rw (e, unbind_counted) (record { count = c.count; distinct = c.distinct })
        | inr (e, bound) ↦
            rw (e, unbind_counted)
              (record {
                count =
                    rw (c.count, sym (without-total r.demux h type handler (c.distinct h) bound))
                      refl;
                distinct = without-Distinct r.demux h type handler c.distinct bound;
              })
      ]

  -- register_handler of any handle and handler keeps, on every branch, the invariant that fd_count_ is
  -- the number of events in the table, no event twice for a handle; this is for events other than
  -- TIMEOUT_EVENT, and for ACCEPT_EVENT where nothing is bound to READ_EVENT of the handle.
  pub register_handler-IsCounted :
      (r : EpollReactor K) (h handler : Option ℕ) (type : ℕ)
      → (type == timeout_event) ≡ false
      → ((type == accept_event) ≡ true → get_handler r.demux h read_event ≡ none)
      → IsCounted r
      → IsCounted (register_handler os expiration r h handler type).0
  unfolding register_handler
  register_handler-IsCounted r none handler type io free c = c
  register_handler-IsCounted r (some h) none type io free c = c
  register_handler-IsCounted r (some h) (some handler) type io free c =
      elim (Bool-cases (type == none_event)) [
        | inl nothing ↦ rw (nothing, register_handler) c
        | inr some_event ↦ elim (Option-cases (get_handler r.demux (some h) type)) [
          | inr (other, e) ↦ rw (some_event, register_handler) (rw (e, register_handler) c)
          | inl e ↦
              let p = add os r.epoller h (reactor_event_to_poll_event type) in
              elim (Bool-cases (is_negative p.1)) [
                | inl failed ↦
                    rw (some_event, register_handler)
                      (rw (e, register_handler)
                        (rw (failed, register_handler)
                          (record { count = c.count; distinct = c.distinct })))
                | inr done ↦
                    rw (some_event, register_handler)
                      (rw (e, register_handler)
                        (rw (done, register_handler)
                          (bind_counted-IsCounted (record r { epoller = p.0 }) h handler type
                            some_event io (bound_row_free r.demux h type some_event e free)
                            (record { count = c.count; distinct = c.distinct }))))
              ]
        ]
      ]

  -- unregister_handler of any handle and handler, of an event other than TIMEOUT_EVENT, keeps on every
  -- branch the invariant that fd_count_ is the number of events in the table, no event twice for a
  -- handle.
  pub unregister_handler-IsCounted :
      (r : EpollReactor K) (h handler : Option ℕ) (type : ℕ)
      → (type == timeout_event) ≡ false
      → IsCounted r
      → IsCounted (unregister_handler os expiration r h handler type).0
  unfolding unregister_handler
  unregister_handler-IsCounted r none handler type io c = c
  unregister_handler-IsCounted r (some h) none type io c = c
  unregister_handler-IsCounted r (some h) (some handler) type io c =
      elim (Bool-cases (type == none_event)) [
        | inl nothing ↦ rw (nothing, unregister_handler) c
        | inr some_event ↦ elim (Option-cases (get_handler r.demux (some h) type)) [
          | inl e ↦ rw (some_event, unregister_handler) (rw (e, unregister_handler) c)
          | inr (other, e) ↦
              let p = del os r.epoller h (reactor_event_to_poll_event type) in
              elim (Bool-cases (is_negative p.1)) [
                | inl failed ↦
                    rw (some_event, unregister_handler)
                      (rw (e, unregister_handler)
                        (rw (failed, unregister_handler)
                          (record { count = c.count; distinct = c.distinct })))
                | inr done ↦
                    rw (some_event, unregister_handler)
                      (rw (e, unregister_handler)
                        (rw (done, unregister_handler)
                          (unbind_counted-IsCounted (record r { epoller = p.0 }) h handler type io
                            (record { count = c.count; distinct = c.distinct }))))
              ]
        ]
      ]
