-- ===== src/Reactor/Dispatch/Served.antt =====
-- Which events the dispatch of src/reactor/epoll_reactor_impl.cpp serves.
use unp.Base.{
  ℕ, zero, suc, ◌-◌, ◌≤◌, ◌≡◌, refl, sym, ap, ◌∙◌, ◌⊎◌, List, [], ◌∷◌, inl, inr, Bool-cases, arith,
  length, take, ◌==◌, leb, leb→le, leb→lt, if◌then◌else◌, bit_and,
}
use unp.Base.Int.{ℤ, pos}
use unp.Reactor.Epoll.{EpollReactor, in_mask, out_mask}
use unp.Reactor.Dispatch.{Handlers, serve, dispatch_io_epoll_sets, dispatch_io_handlers, dispatch}

-- The handles of the events with the type, in order.
abbrev pub of_type : ℕ → List (ℕ × ℕ) → List ℕ
of_type type [] = []
of_type type ((fd, mask) ∷ events) =
    let rest = of_type type events in if bit_and mask type == 0 then rest else fd ∷ rest

module _ {K W : Type 0} (f : Handlers (EpollReactor K × W)) where
  abbrev with_count : EpollReactor K × W → ℕ → (EpollReactor K × W) × ℕ
  with_count s n = (s, n)

  -- One handle after the other is served.
  abbrev pub serve_all :
      ℕ
      → (ℕ → ℕ → EpollReactor K × W → (EpollReactor K × W) × ℤ)
      → List ℕ
      → EpollReactor K × W
      → EpollReactor K × W
  serve_all type callback [] s = s
  serve_all type callback (fd ∷ fds) s = serve_all type callback fds (serve f type callback fd s)

  -- The state and what is left of `active_handles`, once the handles are served.
  abbrev answer :
      ℕ
      → (ℕ → ℕ → EpollReactor K × W → (EpollReactor K × W) × ℤ)
      → ℕ
      → List ℕ
      → EpollReactor K × W
      → (EpollReactor K × W) × ℕ
  answer type callback n fds s = (serve_all type callback (take n fds) s, n - length fds)

  answer-zero :
      (type : ℕ) (callback : ℕ → ℕ → EpollReactor K × W → (EpollReactor K × W) × ℤ) (n : ℕ)
      (fds : List ℕ) (s : EpollReactor K × W)
      → (n ≡ 0) ⊎ (fds ≡ [])
      → answer type callback n fds s ≡ (s, n)
  answer-zero type callback n fds s (inl e) = rw e (ap (with_count s) (omega arith))
  answer-zero type callback zero fds s (inr e) = rw e refl
  answer-zero type callback (suc n) fds s (inr e) = rw e (ap (with_count s) (omega arith))

  answer-suc :
      (type : ℕ) (callback : ℕ → ℕ → EpollReactor K × W → (EpollReactor K × W) × ℤ) (n m fd : ℕ)
      (fds : List ℕ) (s : EpollReactor K × W)
      → n ≡ suc m
      → answer type callback n (fd ∷ fds) s
        ≡ answer type callback m fds (serve f type callback fd s)
  answer-suc type callback n m fd fds s e = rw e (ap (with_count _) (omega arith))

  -- What the loop comes to from any event on.
  sets_lem :
      (events : List (ℕ × ℕ)) (active dispatched type : ℕ)
      (callback : ℕ → ℕ → EpollReactor K × W → (EpollReactor K × W) × ℤ) (s : EpollReactor K × W)
      → dispatch_io_epoll_sets f events active dispatched type callback s
        ≡ answer type callback (active - dispatched) (of_type type events) s
  unfolding dispatch_io_epoll_sets
  sets_lem [] active dispatched type callback s =
      sym (answer-zero type callback (active - dispatched) [] s (inr refl))
  sets_lem ((fd, mask) ∷ events) active dispatched type callback s =
      elim (Bool-cases (leb active dispatched)) [
        | inl enough ↦
            rw (enough, dispatch_io_epoll_sets)
              (sym (
                answer-zero type callback (active - dispatched) (of_type type ((fd, mask) ∷ events))
                  s (inl (omega (arith, leb→le active dispatched enough)))))
        | inr more ↦ elim (Bool-cases (bit_and mask type == 0)) [
          | inl other ↦
              rw (more, dispatch_io_epoll_sets)
                (rw (other, dispatch_io_epoll_sets)
                  (sets_lem events active dispatched type callback s))
          | inr has_type ↦
              rw (more, dispatch_io_epoll_sets)
                (rw (has_type, dispatch_io_epoll_sets)
                  (sets_lem events active (suc dispatched) type callback
                      (serve f type callback fd s)
                    ∙ sym (
                        answer-suc type callback (active - dispatched) (active - suc dispatched) fd
                          (of_type type events) s (omega (arith, leb→lt active dispatched more)))))
        ]
      ]

  -- dispatch_io_epoll_sets serves the first events of the type, as many as there are active handles,
  -- one after the other, and returns the number of active handles less that of all events of the type,
  -- or 0 if that is negative.
  pub dispatch_io_epoll_sets_lem :
      (events : List (ℕ × ℕ)) (active type : ℕ)
      (callback : ℕ → ℕ → EpollReactor K × W → (EpollReactor K × W) × ℤ) (s : EpollReactor K × W)
      → dispatch_io_epoll_sets f events active 0 type callback s ≡ (
        serve_all type callback (take active (of_type type events)) s,
        active - length (of_type type events),
      )
  dispatch_io_epoll_sets_lem events active type callback s =
      sets_lem events active 0 type callback s
      ∙ ap (λ n. answer type callback n (of_type type events) s) (omega arith)

  none_left :
      (events : List (ℕ × ℕ)) (n type : ℕ)
      (callback : ℕ → ℕ → EpollReactor K × W → (EpollReactor K × W) × ℤ) (s : EpollReactor K × W)
      → n ≡ 0
      → dispatch_io_epoll_sets f events n 0 type callback s ≡ (s, 0)
  none_left events n type callback s e =
      sets_lem events n 0 type callback s
      ∙ answer-zero type callback (n - 0) (of_type type events) s (inl (omega arith))
      ∙ ap (with_count s) (omega arith)

  -- Where at least as many events have EPOLLOUT as there are active handles, dispatch serves just the
  -- first of these for output, as many as there are active handles, and returns 0: no event is served
  -- for input.
  pub output_starves_input :
      (events : List (ℕ × ℕ)) (active : ℕ) (s : EpollReactor K × W)
      → active ≤ length (of_type out_mask events)
      → dispatch f events active s
        ≡ (serve_all out_mask f.handle_output (take active (of_type out_mask events)) s, pos 0)
  unfolding dispatch dispatch_io_handlers
  output_starves_input events active s all_out =
      rw (first, dispatch_io_handlers)
        (rw
          (
            none_left events (active - length (of_type out_mask events)) in_mask f.handle_input _
                (omega arith),
            dispatch_io_handlers,
          )
          refl)
    where
      first : dispatch_io_epoll_sets f events active 0 out_mask f.handle_output s ≡ (
        serve_all out_mask f.handle_output (take active (of_type out_mask events)) s,
        active - length (of_type out_mask events),
      )
      first = dispatch_io_epoll_sets_lem events active out_mask f.handle_output s
