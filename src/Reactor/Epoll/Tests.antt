-- ===== src/Reactor/Epoll/Tests.antt =====
-- Runs of src/reactor/epoll_reactor_impl.cpp: handler 3 reads from handle 7.
use unp.Base.{ℕ, zero, suc, ◌≡◌, refl, false≢true, false, Option, none, some, [], ◌∷◌}
use unp.Base.Int.{pos}
use unp.Reactor.Table.{row, get_handler, bind_new, bind_handle, resized, unbind, unbind_handle}
use unp.Reactor.Epoller.{add, tell, del, keep_events, drop_handle}
use unp.Reactor.Epoller.Tests.{Kept, kept, fresh_epoller}
use unp.Reactor.Epoll.{
  EpollReactor, write_event, register_handler, unregister_handler, bind_counted, unbind_counted,
  reactor_event_to_poll_event,
}
use unp.Reactor.Epoll.Counted.{IsCounted, register_handler-IsCounted, unregister_handler-IsCounted}
use unp.Reactor.Epoll.Rows.{Distinct}

abbrev no_timeout : ℕ → Option ℕ
no_timeout h = none

abbrev empty_reactor : EpollReactor Kept
empty_reactor = record {
  fd_count = pos 0;
  demux = record { handle_set = []; events_table = []; timeout_handlers = [] };
  epoller = fresh_epoller;
}

abbrev pub reading : EpollReactor Kept
reading = record {
  fd_count = pos 1;
  demux = record {
    handle_set = 2 ∷ [];
    events_table = [] ∷ [] ∷ ((1, 3) ∷ []) ∷ [];
    timeout_handlers = [];
  };
  epoller = record {
    epoll_fd = pos 5;
    events = (2, 1) ∷ [];
    kernel = record { list = (2, 1) ∷ []; full = false };
  };
}

reading_registered :
    register_handler kept no_timeout empty_reactor (some 2) (some 3) 1 ≡ (reading, pos 0)
unfolding register_handler reactor_event_to_poll_event bind_counted add tell bind_new bind_handle
    resized get_handler
reading_registered = refl

reading_undone : (unregister_handler kept no_timeout reading (some 2) (some 3) 1).0.fd_count ≡ pos 0
unfolding unregister_handler reactor_event_to_poll_event unbind_counted del keep_events drop_handle
    unbind unbind_handle get_handler
reading_undone = refl

reading-IsCounted : IsCounted reading
reading-IsCounted = record { count = refl; distinct = rows }
  where
    rows : (h : ℕ) → Distinct (row reading.demux h)
    rows zero = _
    rows (suc zero) = _
    rows (suc (suc zero)) = (refl, _)
    rows (suc (suc (suc h))) = _

register_handler-IsCounted_example :
    IsCounted (register_handler kept no_timeout reading (some 2) (some 4) write_event).0
register_handler-IsCounted_example =
    register_handler-IsCounted kept no_timeout reading (some 2) (some 4) write_event refl
      (λ accept. absurd (false≢true accept)) reading-IsCounted

unregister_handler-IsCounted_example :
    IsCounted (unregister_handler kept no_timeout reading (some 2) (some 3) 1).0
unregister_handler-IsCounted_example =
    unregister_handler-IsCounted kept no_timeout reading (some 2) (some 3) 1 refl reading-IsCounted
