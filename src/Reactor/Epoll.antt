-- ===== src/Reactor/Epoll.antt =====
-- `epoll_reactor_impl` of src/reactor/epoll_reactor_impl.h and src/reactor/epoll_reactor_impl.cpp: registration. The mutex is
-- held through each call. `reactor_event_to_poll_event` stands in src/reactor/reactor_implementation.cpp.
pub mod Rows
pub mod Counted
pub mod Others
pub mod Tests
use unp.Base.{
  ℕ, zero, suc, Bool, true, false, ◌&&◌, ◌||◌, Option, none, some, List, [], ◌∷◌, ◌==◌,
  if◌then◌else◌, bit_or,
}
use unp.Base.Int.{ℤ, pos, negsuc}
use unp.Reactor.Table.{
  Repo, none_event, read_event, accept_event, timeout_event, bind_new, unbind, get_handler,
}
use unp.Reactor.Epoller.{Kernel, Epoller, is_negative, open_epoll, add, del}

abbrev pub write_event : ℕ
write_event = 4

abbrev pub connect_event : ℕ
connect_event = 128

-- POLLIN is EPOLLIN, and POLLOUT is EPOLLOUT.
abbrev pub in_mask : ℕ
in_mask = 1

abbrev pub out_mask : ℕ
out_mask = 4

abbrev pub err_mask : ℕ
err_mask = 8

unfoldable pub reactor_event_to_poll_event : ℕ → ℕ
reactor_event_to_poll_event type =
    let events =
      if (type == read_event) || (type == accept_event) || (type == connect_event)
      then in_mask
      else 0 in
    if (type == write_event) || (type == connect_event) then bit_or events out_mask else events

-- `ret_events_` is filled anew by each wait and is no part of the state, nor are `epoll_fd_` and
-- `cur_event_`, which are not used.
pub record EpollReactor (K : Type 0) : Type 0 where
  pub fd_count : ℤ
  pub demux : Repo
  pub epoller : Epoller K

abbrev pub increment : ℤ → ℤ
increment (pos n) = pos (suc n)
increment (negsuc n) = elim n [ zero ↦ pos 0 | suc m ↦ negsuc m ]

abbrev pub decrement : ℤ → ℤ
decrement (pos n) = elim n [ zero ↦ negsuc 0 | suc m ↦ pos m ]
decrement (negsuc n) = negsuc (suc n)

abbrev pub is_zero : ℤ → Bool
is_zero (pos n) = n == 0
is_zero (negsuc n) = false

module _ {K : Type 0} (os : Kernel K) (expiration : ℕ → Option ℕ) where
  unfoldable pub open_reactor : K → EpollReactor K × ℤ
  open_reactor k =
      let (p, ret) = open_epoll os (record { epoll_fd = pos 0; events = []; kernel = k }) in
      (
        record {
          fd_count = pos 0;
          demux = record { handle_set = []; events_table = []; timeout_handlers = [] };
          epoller = p;
        },
        ret,
      )

  -- `register_handler(handler, type)`: what `bindNew` returns is not looked at.
  unfoldable pub register_timeout : EpollReactor K → Option ℕ → ℕ → EpollReactor K × ℤ
  register_timeout r none type = (r, negsuc 0)
  register_timeout r (some handler) type =
      if type == timeout_event
      then (record r { demux = (bind_new expiration r.demux none type (some handler)).0 }, pos 0)
      else (r, negsuc 0)

  unfoldable pub unregister_timeout : EpollReactor K → Option ℕ → ℕ → EpollReactor K × ℤ
  unregister_timeout r none type = (r, negsuc 0)
  unregister_timeout r (some handler) type =
      if type == timeout_event
      then (record r { demux = (unbind expiration r.demux none type (some handler)).0 }, pos 0)
      else (r, negsuc 0)

  -- What follows `epoller_.add`.
  unfoldable pub bind_counted : EpollReactor K → ℕ → ℕ → ℕ → EpollReactor K × ℤ
  bind_counted r handle handler type =
      let (demux, ret) = bind_new expiration r.demux (some handle) type (some handler) in
      (
        record r {
          demux = demux;
          fd_count = if is_zero ret then increment r.fd_count else r.fd_count;
        },
        ret,
      )

  unfoldable pub unbind_counted : EpollReactor K → ℕ → ℕ → ℕ → EpollReactor K × ℤ
  unbind_counted r handle handler type =
      let (demux, ret) = unbind expiration r.demux (some handle) type (some handler) in
      (
        record r {
          demux = demux;
          fd_count = if is_zero ret then decrement r.fd_count else r.fd_count;
        },
        ret,
      )

  -- `register_handler(handle, handler, type)`
  unfoldable pub register_handler : EpollReactor K → Option ℕ → Option ℕ → ℕ → EpollReactor K × ℤ
  register_handler r none handler type = (r, negsuc 0)
  register_handler r (some handle) none type = (r, negsuc 0)
  register_handler r (some handle) (some handler) type =
      if type == none_event then (r, negsuc 0) else (elim (get_handler r.demux (some handle) type) [
        | some other ↦ (r, negsuc 0)
        | none ↦
            let (p, ret) = add os r.epoller handle (reactor_event_to_poll_event type) in
            let r' = record r { epoller = p } in
            if is_negative ret then (r', negsuc 0) else bind_counted r' handle handler type
      ])

  -- `unregister_handler(handle, handler, type)`
  unfoldable pub unregister_handler : EpollReactor K → Option ℕ → Option ℕ → ℕ → EpollReactor K × ℤ
  unregister_handler r none handler type = (r, negsuc 0)
  unregister_handler r (some handle) none type = (r, negsuc 0)
  unregister_handler r (some handle) (some handler) type =
      if type == none_event then (r, negsuc 0) else (elim (get_handler r.demux (some handle) type) [
        | none ↦ (r, negsuc 0)
        | some bound ↦
            let (p, ret) = del os r.epoller handle (reactor_event_to_poll_event type) in
            let r' = record r { epoller = p } in
            if is_negative ret then (r', negsuc 0) else unbind_counted r' handle handler type
      ])
