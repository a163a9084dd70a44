-- ===== src/Reactor/Dispatch/Rounds.antt =====
-- One round of `handle_events` of src/reactor/epoll_reactor_impl.cpp.
use unp.Base.{
  ℕ, ◌/◌, ◌≤◌, ◌<◌, ◌≡◌, refl, ap, Bool, Option, some, List, inl, inr, Bool-cases, Option-cases,
  arith, length, ◌==◌, ltb, lt→ltb,
}
use unp.Base.Int.{ℤ, pos, negsuc}
use unp.Reactor.Epoller.{Kernel}
use unp.Reactor.Epoll.{EpollReactor}
use unp.Reactor.Dispatch.{
  Handlers, repo_of, is_one, epoll_wait, next_timeout, dispatch_timeout_events, after_wait,
  wait_and_dispatch, as_int, handle_events,
}
use unp.Reactor.Dispatch.Timeouts.{Quiet, dispatch_timeout_events-Done}

module _ {K W : Type 0} (os : Kernel K) (interrupted : K → Bool)
    (f : Handlers (EpollReactor K × W)) where
  -- The wait leaves the table alone.
  epoll_wait-demux :
      (r : EpollReactor K) (ms : ℤ) → (epoll_wait os interrupted r ms).0.demux ≡ r.demux
  unfolding epoll_wait
  epoll_wait-demux r ms = elim (Bool-cases (is_one r.fd_count)) [
    | inl one ↦ rw (one, epoll_wait) refl
    | inr other ↦ rw (other, epoll_wait) refl
  ]

  abbrev pub Returns : Option ((EpollReactor K × W) × ℤ) → Type 0
  Returns answer = (result : (EpollReactor K × W) × ℤ) × (answer ≡ some result)

  timeouts-Returns :
      (fuel now : ℕ) (s : EpollReactor K × W)
      → Quiet f now
      → length (repo_of f s).timeout_handlers < fuel
      → Returns (dispatch_timeout_events f fuel now s)
  timeouts-Returns fuel now s q lt =
      let (s', e, _) = dispatch_timeout_events-Done f fuel now s q lt in ((s', pos 1), e)

  after_wait-Returns :
      (fuel now : ℕ) (s : EpollReactor K × W) (events : List (ℕ × ℕ)) (n : ℤ)
      → Quiet f now
      → length (repo_of f s).timeout_handlers < fuel
      → Returns (after_wait os interrupted f fuel now s events n)
  unfolding after_wait
  after_wait-Returns fuel now s events (pos n) q lt = elim (Bool-cases (n == 0)) [
    | inl none_ready ↦ rw (none_ready, after_wait) (timeouts-Returns fuel now s q lt)
    | inr ready ↦ rw (ready, after_wait) (_, refl)
  ]
  after_wait-Returns fuel now s events (negsuc n) q lt = (_, refl)

  wait_and_dispatch-Returns :
      (fuel now : ℕ) (s : EpollReactor K × W) (ms : ℤ)
      → Quiet f now
      → length (repo_of f s).timeout_handlers < fuel
      → Returns (wait_and_dispatch os interrupted f fuel now s ms)
  unfolding wait_and_dispatch
  wait_and_dispatch-Returns fuel now (r, w) ms q lt =
      let answer = epoll_wait os interrupted r ms in
      after_wait-Returns fuel now (answer.0, w) answer.1.0 answer.1.1 q
        (omega (arith, ap (λ d. length d.timeout_handlers) (epoll_wait-demux r ms)))

  -- If no handle_timeout binds a handler to a time point before now, handle_events returns on every
  -- branch, when its loop has more rounds of fuel than there are time points bound at the start.
  pub handle_events-Returns :
      (fuel now : ℕ) (timeout : Option ℕ) (s : EpollReactor K × W)
      → Quiet f now
      → length (repo_of f s).timeout_handlers < fuel
      → Returns (handle_events os interrupted f fuel now timeout s)
  unfolding handle_events
  handle_events-Returns fuel now timeout s q lt =
      elim (Option-cases (next_timeout (repo_of f s) now timeout)) [
        | inl e ↦ rw (e, handle_events) (wait_and_dispatch-Returns fuel now s (negsuc 0) q lt)
        | inr (left, e) ↦ elim (Bool-cases (ltb 0 (left / 1000000))) [
          | inl long ↦
              rw (e, handle_events)
                (rw (long, handle_events)
                  (wait_and_dispatch-Returns fuel now s (as_int (left / 1000000)) q lt))
          | inr short ↦
              rw (e, handle_events) (rw (short, handle_events) (timeouts-Returns fuel now s q lt))
        ]
      ]

  -- When fd_count_ is 1 and at least a millisecond is left to the timeout or to the next time point,
  -- handle_events changes nothing and returns -2 at once.
  pub handle_events_quits :
      (fuel now left : ℕ) (timeout : Option ℕ) (r : EpollReactor K) (w : W)
      → r.fd_count ≡ pos 1
      → next_timeout r.demux now timeout ≡ some left
      → 1000000 ≤ left
      → handle_events os interrupted f fuel now timeout (r, w) ≡ some ((r, w), negsuc 1)
  unfolding handle_events wait_and_dispatch epoll_wait after_wait
  handle_events_quits fuel now left timeout r w one e long =
      rw (e, handle_events)
        (rw (lt→ltb 0 (left / 1000000) (omega arith), handle_events) (rw one refl))
