-- ===== src/Reactor/Epoller/Synced.antt =====
-- The map of src/reactor/epoller.cpp and the kernel's interest list.
use unp.Base.{
  ℕ, ◌<◌, ◌^◌, ◌≡◌, refl, sym, ap, ◌∙◌, Bool, true, false, not, none, some, inl, inr, Bool-cases,
  Option-cases, arith, ◌==◌, if◌then◌else◌, bit_and, bit_or, clear_bits, bit_and-bit_or,
  bit_and_same, bit_and-clear_bits, false≢true,
}
use unp.Base.Int.{ℤ, pos, negsuc}
use unp.Reactor.Assoc.{lookup, put, lookup-put, lookup-erase}
use unp.Reactor.Epoller.{
  Ctl, ctl_add, ctl_mod, ctl_del, Kernel, Epoller, IsEpoll, tell, add, drop_handle, keep_events,
  del, has,
}

abbrev is_done : ℤ → Bool
is_done (pos n) = true
is_done (negsuc n) = false

not_done : (r : ℤ) → r ≡ negsuc 0 → r ≡ pos 0 → ⊥
not_done r e f = false≢true (ap is_done (sym e ∙ f))

done_true : (b : Bool) → (if b then pos 0 else negsuc 0) ≡ pos 0 → b ≡ true
done_true true e = refl
done_true false e = absurd (false≢true (ap is_done e))

same : (n : ℕ) → (n == n) ≡ true
same n = ground arith

module _ {K : Type 0} (os : Kernel K) (law : IsEpoll os) where
  -- The kernel waits for just the events of the map.
  abbrev pub Synced : Epoller K → Type 0
  Synced p = (h : ℕ) → law.interest p.kernel p.epoll_fd h ≡ lookup p.events h

  drop_handle-Synced : (p : Epoller K) (h left : ℕ) → Synced p → Synced (drop_handle os p h left).0
  unfolding drop_handle
  drop_handle-Synced p h left s =
      elim (Bool-cases (os.epoll_ctl p.kernel p.epoll_fd ctl_del h left).1) [
        | inl done ↦
            rw (done, drop_handle)
              (λ j.
                law.deleted p.kernel p.epoll_fd h left done j
                ∙ rw (s j) (sym (lookup-erase p.events h j)))
        | inr no_way ↦
            rw (no_way, drop_handle)
              (λ j. law.refused p.kernel p.epoll_fd ctl_del h left no_way j ∙ s j)
      ]

  put-Synced :
      (p : Epoller K) (k : K) (h e : ℕ)
      → Synced p
      → ((j : ℕ)
          → law.interest k p.epoll_fd j
            ≡ (if j == h then some e else law.interest p.kernel p.epoll_fd j))
      → Synced (record p { events = put p.events h e; kernel = k })
  put-Synced p k h e s told j = told j ∙ rw (s j) (sym (lookup-put p.events h e j))

  keep_events-Synced : (p : Epoller K) (h left : ℕ) → Synced p → Synced (keep_events os p h left).0
  unfolding keep_events
  keep_events-Synced p h left s =
      elim (Bool-cases (os.epoll_ctl p.kernel p.epoll_fd ctl_mod h left).1) [
        | inr no_way ↦
            rw (no_way, keep_events)
              (λ j. law.refused p.kernel p.epoll_fd ctl_mod h left no_way j ∙ s j)
        | inl done ↦
            let told =
              put-Synced p (os.epoll_ctl p.kernel p.epoll_fd ctl_mod h left).0 h left s
                (law.modified p.kernel p.epoll_fd h left done) in
            elim (Bool-cases (left == 0)) [
              | inl nothing ↦
                  rw (done, keep_events)
                    (rw (nothing, keep_events) (drop_handle-Synced _ h left told))
              | inr events ↦ rw (done, keep_events) (rw (events, keep_events) told)
            ]
      ]

  -- Where the kernel's interest list is the map of the epoller, del keeps it so on every branch, also
  -- where the kernel refuses.
  pub del-Synced : (p : Epoller K) (h event : ℕ) → Synced p → Synced (del os p h event).0
  unfolding del
  del-Synced p h event s = elim (Option-cases (lookup p.events h)) [
    | inl e ↦ rw (e, del) s
    | inr (old, e) ↦ elim (Bool-cases (bit_and old event == 0)) [
      | inl nothing ↦ rw (e, del) (rw (nothing, del) s)
      | inr events ↦
          rw (e, del) (rw (events, del) (keep_events-Synced p h (clear_bits 32 old event) s))
    ]
  ]

  -- A successful call is one that the kernel has accepted.
  tell_done :
      (p : Epoller K) (op : Ctl) (h e : ℕ)
      → (tell os p op h e).1 ≡ pos 0
      → (os.epoll_ctl p.kernel p.epoll_fd op h e).1 ≡ true
  unfolding tell
  tell_done p op h e told = done_true _ told

  has-tell :
      (p : Epoller K) (op : Ctl) (h e event : ℕ)
      → has os (tell os p op h e).0 h event ≡ not (bit_and e event == 0)
  unfolding tell has
  has-tell p op h e event = rw (lookup-put p.events h e h, same h, has) refl

  -- The three ways of `add`.
  add-new :
      (p : Epoller K) (h event : ℕ)
      → lookup p.events h ≡ none
      → add os p h event ≡ tell os p ctl_add h event
  unfolding add
  add-new p h event e = rw (e, add) refl

  add-more :
      (p : Epoller K) (h event old : ℕ)
      → lookup p.events h ≡ some old
      → (bit_and old event == 0) ≡ true
      → add os p h event ≡ tell os p ctl_mod h (bit_or old event)
  unfolding add
  add-more p h event old e free = rw (e, add) (rw (free, add) refl)

  add-taken :
      (p : Epoller K) (h event : ℕ) → has os p h event ≡ true → add os p h event ≡ (p, negsuc 0)
  unfolding add has
  add-taken p h event there = elim (Option-cases (lookup p.events h)) [
    | inl e ↦ absurd (false≢true (sym (rw (e, has) refl) ∙ there))
    | inr (old, e) ↦ elim (Bool-cases (bit_and old event == 0)) [
      | inl free ↦ absurd (false≢true (sym (rw (e, has) (rw (free, has) refl)) ∙ there))
      | inr taken ↦ rw (e, add) (rw (taken, add) refl)
    ]
  ]

  -- What an accepted call comes to.
  abbrev Told : Epoller K → ℕ → ℕ → Type 0
  Told p h event = Synced p × (has os p h event ≡ true)

  tell-Told :
      (p : Epoller K) (op : Ctl) (h e event : ℕ)
      → Synced p
      → bit_and e event ≡ event
      → (event == 0) ≡ false
      → ((j : ℕ)
          → law.interest (os.epoll_ctl p.kernel p.epoll_fd op h e).0 p.epoll_fd j
            ≡ (if j == h then some e else law.interest p.kernel p.epoll_fd j))
      → Told (tell os p op h e).0 h event
  unfolding tell
  tell-Told p op h e event s bits some_event told =
      (put-Synced p _ h e s told, has-tell p op h e event ∙ rw (bits, some_event) refl)

  -- Where the kernel's interest list is the map of the epoller, an add of a mask that is not zero and
  -- that returns 0 keeps it so, and has() is true of the mask afterwards.
  pub add-Synced :
      (p : Epoller K) (h event : ℕ)
      → Synced p
      → (event == 0) ≡ false
      → (add os p h event).1 ≡ pos 0
      → Synced (add os p h event).0 × (has os (add os p h event).0 h event ≡ true)
  unfolding has
  add-Synced p h event s some_event told = elim (Option-cases (lookup p.events h)) [
    | inl e ↦
        let eq = add-new p h event e in
        rw eq (
          tell-Told p ctl_add h event event s (bit_and_same event) some_event
            (law.added p.kernel p.epoll_fd h event (tell_done p ctl_add h event (rw eq at told))))
    | inr (old, e) ↦ elim (Bool-cases (bit_and old event == 0)) [
      | inr taken ↦ absurd (
          false≢true (
            ap is_done (
              sym (ap (λ r. r.1) (add-taken p h event (rw (e, has) (rw (taken, has) refl))))
              ∙ told)))
      | inl free ↦
          let eq = add-more p h event old e free in
          rw eq (
            tell-Told p ctl_mod h (bit_or old event) event s (bit_and-bit_or old event) some_event (
              law.modified p.kernel p.epoll_fd h (bit_or old event)
                (tell_done p ctl_mod h (bit_or old event) (rw eq at told))))
    ]
  ]

  -- Where the kernel's interest list is the map of the epoller and refuses a handle that is new, an add
  -- of a mask that is not zero returns -1; the kernel does not watch the handle, but has() is true of
  -- it, and another add changes nothing and returns -1.
  pub add_stuck :
      (p : Epoller K) (h event : ℕ)
      → Synced p
      → (event == 0) ≡ false
      → lookup p.events h ≡ none
      → (os.epoll_ctl p.kernel p.epoll_fd ctl_add h event).1 ≡ false
      → ((add os p h event).1 ≡ negsuc 0)
        × (law.interest (add os p h event).0.kernel p.epoll_fd h ≡ none)
        × (has os (add os p h event).0 h event ≡ true)
        × (add os (add os p h event).0 h event ≡ ((add os p h event).0, negsuc 0))
  unfolding tell
  add_stuck p h event s some_event free no_way = rw (add-new p h event free) (
    rw (no_way, tell) refl,
    law.refused p.kernel p.epoll_fd ctl_add h event no_way h ∙ s h ∙ free,
    on,
    add-taken (tell os p ctl_add h event).0 h event on,
  )
    where
      on : has os (tell os p ctl_add h event).0 h event ≡ true
      on = has-tell p ctl_add h event event ∙ rw (bit_and_same event, some_event) refl

module _ {K : Type 0} (os : Kernel K) where
  has-drop_handle :
      (p : Epoller K) (h left : ℕ)
      → (drop_handle os p h left).1 ≡ pos 0
      → (e : ℕ) → has os (drop_handle os p h left).0 h e ≡ false
  unfolding drop_handle has
  has-drop_handle p h left told e =
      elim (Bool-cases (os.epoll_ctl p.kernel p.epoll_fd ctl_del h left).1) [
        | inl done ↦ rw (done, drop_handle) (rw (lookup-erase p.events h h, same h, has) refl)
        | inr no_way ↦
            absurd (not_done (drop_handle os p h left).1 (rw (no_way, drop_handle) refl) told)
      ]

  has-keep_events :
      (p : Epoller K) (h left event : ℕ)
      → bit_and left event ≡ 0
      → (keep_events os p h left).1 ≡ pos 0
      → has os (keep_events os p h left).0 h event ≡ false
  unfolding keep_events has
  has-keep_events p h left event off told =
      elim (Bool-cases (os.epoll_ctl p.kernel p.epoll_fd ctl_mod h left).1) [
        | inr no_way ↦
            absurd (not_done (keep_events os p h left).1 (rw (no_way, keep_events) refl) told)
        | inl done ↦ elim (Bool-cases (left == 0)) [
          | inl nothing ↦
              rw (done, keep_events)
                (rw (nothing, keep_events)
                  (has-drop_handle _ h left (rw nothing at (rw done at told)) event))
          | inr events ↦
              rw (done, keep_events)
                (rw (events, keep_events)
                  (rw (lookup-put p.events h left h, same h, has) (rw off refl)))
        ]
      ]

  -- After a del that returns 0, of a mask of 32 bits, has() is false of the mask.
  pub has-del :
      (p : Epoller K) (h event : ℕ)
      → event < 2 ^ 32
      → (del os p h event).1 ≡ pos 0
      → has os (del os p h event).0 h event ≡ false
  unfolding del
  has-del p h event small told = elim (Option-cases (lookup p.events h)) [
    | inl e ↦ absurd (not_done (del os p h event).1 (rw (e, del) refl) told)
    | inr (old, e) ↦ elim (Bool-cases (bit_and old event == 0)) [
      | inl nothing ↦
          absurd (not_done (del os p h event).1 (rw (e, del) (rw (nothing, del) refl)) told)
      | inr events ↦
          rw (e, del)
            (rw (events, del)
              (has-keep_events p h (clear_bits 32 old event) event
                (bit_and-clear_bits 32 old event small)
                (rw (events, del) at (rw (e, del) at told))))
    ]
  ]
