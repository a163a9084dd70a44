-- ===== src/Reactor/Epoll/Others.antt =====
-- Another handler than the one that is bound is given to `unregister_handler` of
-- src/reactor/epoll_reactor_impl.cpp.
use unp.Base.{
  ℕ, ◌^◌, ◌<◌, ◌≡◌, ◌≢◌, refl, sym, ◌∙◌, Bool, true, false, ◌||◌, if◌then◌else◌, bit_or,
  some-injective, Option, some, arith, ◌==◌,
}
use unp.Base.Int.{pos, negsuc}
use unp.Reactor.Table.{none_event, read_event, accept_event, timeout_event, get_handler}
use unp.Reactor.Table.Lookup.{unbind_refused}
use unp.Reactor.Epoller.{Kernel, del, has}
use unp.Reactor.Epoller.Synced.{has-del}
use unp.Reactor.Epoll.{
  EpollReactor, write_event, connect_event, unregister_handler, unbind_counted,
  reactor_event_to_poll_event,
}

-- The masks are small.
mask_small :
    (read write : Bool)
    → (if write then bit_or (if read then 1 else 0) 4 else (if read then 1 else 0)) < 2 ^ 32
mask_small true true = omega arith
mask_small true false = omega arith
mask_small false true = omega arith
mask_small false false = omega arith

poll_event_small : (type : ℕ) → reactor_event_to_poll_event type < 2 ^ 32
unfolding reactor_event_to_poll_event
poll_event_small type =
    mask_small ((type == read_event) || (type == accept_event) || (type == connect_event))
      ((type == write_event) || (type == connect_event))

module _ {K : Type 0} (os : Kernel K) (expiration : ℕ → Option ℕ) where
  -- Where a handler is bound to an event of a handle, not NONE and not a timeout, and epoll accepts the
  -- deletion, unregister_handler with another handler returns -1: the first handler stays bound, but
  -- the event is gone from the epoller.
  pub unregister_other :
      (r : EpollReactor K) (h handler bound type : ℕ)
      → (type == none_event) ≡ false
      → (type == timeout_event) ≡ false
      → get_handler r.demux (some h) type ≡ some bound
      → bound ≢ handler
      → (del os r.epoller h (reactor_event_to_poll_event type)).1 ≡ pos 0
      → (let r' = unregister_handler os expiration r (some h) (some handler) type in
          (r'.1 ≡ negsuc 0)
          × (get_handler r'.0.demux (some h) type ≡ some bound)
          × (has os r'.0.epoller h (reactor_event_to_poll_event type) ≡ false))
  unfolding unregister_handler unbind_counted
  unregister_other r h handler bound type some_event io found other deleted =
      rw (some_event, unregister_handler)
        (rw (found, unregister_handler)
          (rw (deleted, unregister_handler)
            (rw (unbind_refused expiration r.demux h type handler io not_bound) (
              refl,
              found,
              has-del os r.epoller h (reactor_event_to_poll_event type) (poll_event_small type)
                  deleted,
            ))))
    where
      not_bound : get_handler r.demux (some h) type ≢ some handler
      not_bound e = other (some-injective _ _ (sym found ∙ e))
