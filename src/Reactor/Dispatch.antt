-- ===== src/Reactor/Dispatch.antt =====
-- The event loop of src/reactor/epoll_reactor_impl.cpp: `epoll_wait`, the dispatch of what it returns, and the timeouts.
-- The handlers' functions are parameters that change the reactor and the rest of the program; they do
-- not run the loop again.
pub mod Served
pub mod Timeouts
pub mod Rounds
mod Tests
use unp.Base.{
  ℕ, zero, suc, ◌+◌, ◌-◌, ◌*◌, ◌/◌, ◌%◌, ◌^◌, min, Bool, true, false, ◌&&◌, not, Option, none, some,
  List, [], ◌∷◌, ◌++◌, length, replicate, ◌==◌, leb, ltb, if◌then◌else◌, bit_and, u64_mod,
}
use unp.Base.Int.{ℤ, pos, negsuc}
use unp.Reactor.Table.{
  Repo, get_handler, has_handle, has_timeout_handler, latest_timeout_point, latest_timeout_handlers,
  unbind_timeout_handlers, read_event,
}
use unp.Reactor.Epoller.{Kernel, Epoller, is_negative, wait_events}
use unp.Reactor.Epoll.{EpollReactor, is_zero, in_mask, out_mask, err_mask, write_event}

-- The virtual functions of `EventHandler`, of a handler and a handle.
pub record Handlers (S : Type 0) : Type 0 where
  pub handle_input : ℕ → ℕ → S → S × ℤ
  pub handle_output : ℕ → ℕ → S → S × ℤ
  pub close_read : ℕ → ℕ → S → S × ℤ
  pub close_write : ℕ → ℕ → S → S × ℤ
  pub handle_close : ℕ → ℕ → S → S × ℤ
  pub handle_timeout : ℕ → S → S × ℤ

-- `resize(fd_count_)`, which throws for a negative count.
abbrev pub size_of : ℤ → ℕ
size_of (pos n) = n
size_of (negsuc n) = u64_mod - suc n

-- The conversion of a count of milliseconds to int.
abbrev pub as_int : ℕ → ℤ
as_int n = if ltb (n % 2 ^ 32) (2 ^ 31) then pos (n % 2 ^ 32) else negsuc (2 ^ 32 - 1 - n % 2 ^ 32)

abbrev pub is_one : ℤ → Bool
is_one (pos n) = n == 1
is_one (negsuc n) = false

-- `x || y` of two ints.
abbrev pub or_int : ℤ → ℤ → ℤ
or_int x y = if is_zero x && is_zero y then pos 0 else pos 1

module _ {K : Type 0} (os : Kernel K) (interrupted : K → Bool) where
  -- What is returned of the kernel's answer; `interrupted` says that errno is ERESTART or EINTR.
  unfoldable pub wait_result : K → ℤ → ℤ → ℤ
  wait_result k milliseconds ret =
      if is_negative ret
      then (if interrupted k then pos 0 else negsuc 0)
      else if is_zero ret && not (is_zero milliseconds)
      then pos 0
      else ret

  -- `epoll_wait(milliseconds)` gives `ret_events_` and what it returns.
  unfoldable pub epoll_wait : EpollReactor K → ℤ → EpollReactor K × (List (ℕ × ℕ) × ℤ)
  epoll_wait r milliseconds =
      let size = size_of r.fd_count in
      if is_one r.fd_count
      then (r, (replicate size (0, 0), negsuc 1))
      else (let (p, (written, ret)) =
            wait_events os r.epoller r.fd_count
              (if is_zero milliseconds then negsuc 0 else milliseconds) in
          (
            record r { epoller = p },
            (
              written ++ replicate (size - length written) (0, 0),
              wait_result p.kernel milliseconds ret,
            ),
          ))

module _ {K W : Type 0} (f : Handlers (EpollReactor K × W)) where
  abbrev pub repo_of : EpollReactor K × W → Repo
  repo_of s = s.0.demux

  -- What follows a callback that returned `ret`.
  unfoldable pub after_callback : ℕ → ℕ → ℕ → EpollReactor K × W → ℤ → EpollReactor K × W
  after_callback type handler fd s ret =
      let closed =
        if is_negative ret
        then (if type == read_event
            then (f.close_read handler fd s).0
            else if type == write_event
            then (f.close_write handler fd s).0
            else s)
        else s in
      if has_handle (repo_of closed) fd then closed else (f.handle_close handler fd closed).0

  -- One event whose mask has the type.
  unfoldable pub serve :
      ℕ
      → (ℕ → ℕ → EpollReactor K × W → (EpollReactor K × W) × ℤ)
      → ℕ
      → EpollReactor K × W
      → EpollReactor K × W
  serve type callback fd s = elim (get_handler (repo_of s) (some fd) type) [
    | none ↦ s
    | some handler ↦ let (s', ret) = callback handler fd s in after_callback type handler fd s' ret
  ]

  -- `dispatch_io_epoll_sets` from the event on that it has come to.
  unfoldable pub dispatch_io_epoll_sets :
      List (ℕ × ℕ)
      → ℕ
      → ℕ
      → ℕ
      → (ℕ → ℕ → EpollReactor K × W → (EpollReactor K × W) × ℤ)
      → EpollReactor K × W
      → (EpollReactor K × W) × ℕ
  dispatch_io_epoll_sets [] active dispatched type callback s = (s, active - dispatched)
  dispatch_io_epoll_sets ((fd, mask) ∷ events) active dispatched type callback s =
      let skipped = dispatch_io_epoll_sets events active dispatched type callback s in
      let served =
        dispatch_io_epoll_sets events active (suc dispatched) type callback
          (serve type callback fd s) in
      if leb active dispatched
      then (s, active - dispatched)
      else if bit_and mask type == 0
      then skipped
      else served

  unfoldable pub dispatch_io_handlers :
      List (ℕ × ℕ) → ℕ → EpollReactor K × W → (EpollReactor K × W) × ℕ
  dispatch_io_handlers events active s =
      let (s1, remain1) = dispatch_io_epoll_sets events active 0 out_mask f.handle_output s in
      let (s2, remain2) = dispatch_io_epoll_sets events remain1 0 in_mask f.handle_input s1 in
      if ltb 0 remain2
      then dispatch_io_epoll_sets events remain2 0 err_mask f.handle_output s2
      else (s2, remain2)

  unfoldable pub dispatch : List (ℕ × ℕ) → ℕ → EpollReactor K × W → (EpollReactor K × W) × ℤ
  dispatch events active s =
      let (s', ret) = dispatch_io_handlers events active s in
      (s', if ret == 0 then pos 0 else negsuc 0)

  -- The handlers of one time point, in turn.
  unfoldable pub fire : List ℕ → EpollReactor K × W → ℤ → (EpollReactor K × W) × ℤ
  fire [] s ret = (s, ret)
  fire (h ∷ hs) s ret = let (s', answer) = f.handle_timeout h s in fire hs s' (or_int answer ret)

  abbrev pub unbind_point : EpollReactor K × W → ℕ → EpollReactor K × W
  unbind_point (r, w) t = (record r { demux = (unbind_timeout_handlers r.demux t).0 }, w)

  -- The loop over the time points before `now`; `none` when the fuel is used up.
  unfoldable pub timeout_loop : ℕ → ℕ → EpollReactor K × W → ℤ → Option ((EpollReactor K × W) × ℤ)
  timeout_loop zero now s ret = none
  timeout_loop (suc fuel) now s ret = elim (latest_timeout_point (repo_of s)) [
    | none ↦ some (s, ret)
    | some t ↦
        let (s', ret') = fire (latest_timeout_handlers (repo_of s)) s ret in
        let rest = timeout_loop fuel now (unbind_point s' t) ret' in
        if ltb t now then rest else some (s, ret)
  ]

  unfoldable pub dispatch_timeout_events :
      ℕ → ℕ → EpollReactor K × W → Option ((EpollReactor K × W) × ℤ)
  dispatch_timeout_events fuel now s = timeout_loop fuel now s (pos 1)

-- The time to the next timeout in nanoseconds, where nothing is left of a point that has passed.
unfoldable pub next_timeout : Repo → ℕ → Option ℕ → Option ℕ
next_timeout repo now timeout = elim (latest_timeout_point repo) [
  | none ↦ elim timeout [ none ↦ none | some t ↦ some (t * 1000) ]
  | some point ↦ elim timeout [
    | none ↦ some (point - now)
    | some t ↦ some (min (t * 1000) (point - now))
  ]
]

module _ {K W : Type 0} (os : Kernel K) (interrupted : K → Bool)
    (f : Handlers (EpollReactor K × W)) where
  -- What follows the wait.
  unfoldable pub after_wait :
      ℕ → ℕ → EpollReactor K × W → List (ℕ × ℕ) → ℤ → Option ((EpollReactor K × W) × ℤ)
  after_wait fuel now s events (pos n) =
      if n == 0
      then dispatch_timeout_events f fuel now s
      else some ((dispatch f events n s).0, pos 0)
  after_wait fuel now s events (negsuc n) = some (s, if n == 1 then negsuc 1 else negsuc 0)

  unfoldable pub wait_and_dispatch :
      ℕ → ℕ → EpollReactor K × W → ℤ → Option ((EpollReactor K × W) × ℤ)
  wait_and_dispatch fuel now (r, w) milliseconds =
      let (r', (events, n)) = epoll_wait os interrupted r milliseconds in
      after_wait fuel now (r', w) events n

  -- `handle_events(timeout)` in microseconds, when the clock stands at `now`.
  unfoldable pub handle_events :
      ℕ → ℕ → Option ℕ → EpollReactor K × W → Option ((EpollReactor K × W) × ℤ)
  handle_events fuel now timeout s = elim (next_timeout (repo_of f s) now timeout) [
    | none ↦ wait_and_dispatch fuel now s (negsuc 0)
    | some left ↦
        if ltb 0 (left / 1000000)
        then wait_and_dispatch fuel now s (as_int (left / 1000000))
        else dispatch_timeout_events f fuel now s
  ]
