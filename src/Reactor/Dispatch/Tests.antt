-- ===== src/Reactor/Dispatch/Tests.antt =====
-- Runs of the event loop of src/reactor/epoll_reactor_impl.cpp; the handlers note what is called.
use unp.Base.{ℕ, ◌-◌, ◌≡◌, refl, false, Bool, some, List, [], ◌∷◌, arith, length, take}
use unp.Base.Int.{ℤ, pos}
use unp.Reactor.Table.{
  latest_timeout_point, latest_timeout_handlers, unbind_timeout_handlers, least,
}
use unp.Reactor.Epoller.Tests.{Kept}
use unp.Reactor.Epoll.{EpollReactor}
use unp.Reactor.Epoll.Tests.{reading}
use unp.Reactor.Dispatch.{
  Handlers, dispatch_io_epoll_sets, dispatch_timeout_events, timeout_loop, fire,
}
use unp.Reactor.Dispatch.Served.{of_type, serve_all, dispatch_io_epoll_sets_lem}
use unp.Reactor.Dispatch.Timeouts.{Quiet, Done, dispatch_timeout_events-Done}

abbrev State : Type 0
State = EpollReactor Kept × List ℕ

abbrev note : ℕ → ℕ → State → State × ℤ
note what h (r, log) = ((r, what ∷ h ∷ log), pos 0)

abbrev noting : Handlers State
noting = record {
  handle_input = λ handler fd s. note 1 handler s;
  handle_output = λ handler fd s. note 4 handler s;
  close_read = λ handler fd s. note 10 handler s;
  close_write = λ handler fd s. note 40 handler s;
  handle_close = λ handler fd s. note 100 handler s;
  handle_timeout = λ handler s. note 16 handler s;
}

abbrev never : Kept → Bool
never k = false

-- Handle 2 is read by handler 3, and two time points are bound.
abbrev timed : State
timed = (
  record reading {
    demux = record reading.demux { timeout_handlers = (90, 8 ∷ []) ∷ (20, 7 ∷ []) ∷ [] };
  },
  [],
)

noting-Quiet : Quiet noting 50
noting-Quiet h s t lt absent = absent

-- Both directions of handle 2 are ready, and one event is dispatched: the output, that nobody handles.
dispatch_io_epoll_sets_lem_example :
    dispatch_io_epoll_sets noting ((2, 5) ∷ (9, 1) ∷ []) 2 0 1 noting.handle_input (reading, []) ≡ (
      serve_all noting 1 noting.handle_input
          (take 2 (of_type 1 ((2, 5) ∷ (9, 1) ∷ [])))
          (reading, []),
      2 - length (of_type 1 ((2, 5) ∷ (9, 1) ∷ [])),
    )
dispatch_io_epoll_sets_lem_example =
    dispatch_io_epoll_sets_lem noting ((2, 5) ∷ (9, 1) ∷ []) 2 1 noting.handle_input (reading, [])

-- Handler 7 is called.
timed_once :
    dispatch_timeout_events noting 3 50 timed
    ≡ some (
      (
        record reading { demux = record reading.demux { timeout_handlers = (90, 8 ∷ []) ∷ [] } },
        16 ∷ 7 ∷ [],
      ),
      pos 1,
    )
unfolding dispatch_timeout_events timeout_loop fire latest_timeout_point least
    latest_timeout_handlers unbind_timeout_handlers
timed_once = refl

dispatch_timeout_events-Done_example : Done noting 50 (dispatch_timeout_events noting 3 50 timed)
dispatch_timeout_events-Done_example =
    dispatch_timeout_events-Done noting 3 50 timed noting-Quiet (omega arith)

-- Five milliseconds before the time point of a handler.
abbrev pending : EpollReactor Kept
pending = record reading {
  demux = record reading.demux { timeout_handlers = (5000000, 7 ∷ []) ∷ [] };
}
