-- ===== src/Reactor/Table.antt =====
-- `PollEventRepo` of src/reactor/poll_demultiplex_table.h and src/reactor/poll_demultiplex_table.cpp: which
-- handler is bound to which event of which handle, and the timeout handlers by their time point. A
-- handler is named by a number, the null pointer is `none`, and so is INVALID_HANDLE among handles.
-- `expiration` says of a handler that is a TimeoutHandler when it expires, and is `none` on the others.
pub mod Lookup
pub mod Handles
pub mod Timeouts
mod Tests
use unp.Base.{
  ℕ, suc, ◌-◌, Bool, true, false, Option, none, some, List, [], ◌∷◌, ◌++◌, length, replicate, set,
  get_or, leb, ◌==◌, if◌then◌else◌,
}
use unp.Base.Int.{ℤ, pos, negsuc}
use unp.Reactor.Assoc.{lookup, erase, put, mem, insert, discard, is_nil}

-- The events of `EventHandler`.
abbrev pub none_event : ℕ
none_event = 0

abbrev pub read_event : ℕ
read_event = 1

abbrev pub accept_event : ℕ
accept_event = 8

abbrev pub timeout_event : ℕ
timeout_event = 16

pub record Repo : Type 0 where
  pub handle_set : List ℕ
  pub events_table : List (List (ℕ × ℕ))
  pub timeout_handlers : List (ℕ × List ℕ)

abbrev pub row : Repo → ℕ → List (ℕ × ℕ)
row r h = get_or r.events_table h []

-- `operator[]` of `timeoutHandlers_`, which makes an empty set.
abbrev pub handlers_at : List (ℕ × List ℕ) → ℕ → List ℕ
handlers_at m t = elim (lookup m t) [ none ↦ [] | some hs ↦ hs ]

-- `if (eventsTable_.size() <= h) eventsTable_.resize(h + 1);`
unfoldable pub resized : List (List (ℕ × ℕ)) → ℕ → List (List (ℕ × ℕ))
resized table h =
    if leb (length table) h then table ++ replicate (suc h - length table) [] else table

unfoldable pub bind_timeout : Repo → Option ℕ → ℕ → Repo × ℤ
bind_timeout r none handler = (r, negsuc 0)
bind_timeout r (some t) handler =
    let hs = handlers_at r.timeout_handlers t in
    if mem hs handler
    then (r, negsuc 0)
    else (record r { timeout_handlers = put r.timeout_handlers t (insert hs handler) }, pos 0)

unfoldable pub bind_handle : Repo → Option ℕ → ℕ → ℕ → Repo × ℤ
bind_handle r none event handler = (r, negsuc 0)
bind_handle r (some h) event handler =
    let table = resized r.events_table h in
    (
      record r {
        handle_set = insert r.handle_set h;
        events_table = set table h (put (get_or table h []) event handler);
      },
      pos 0,
    )

-- ACCEPT_EVENT is bound as READ_EVENT.
abbrev pub bound_as : ℕ → ℕ
bound_as event = if event == accept_event then read_event else event

unfoldable pub unbind_timeout : Repo → Option ℕ → ℕ → Repo × ℤ
unbind_timeout r none handler = (r, negsuc 0)
unbind_timeout r (some t) handler = elim (lookup r.timeout_handlers t) [
  | none ↦ (r, negsuc 0)
  | some hs ↦
      if mem hs handler
      then (record r { timeout_handlers = put r.timeout_handlers t (discard hs handler) }, pos 0)
      else (r, negsuc 0)
]

-- What is bound is compared with the handler, and the handle goes with its last event.
unfoldable pub unbind_handle : Repo → Option ℕ → ℕ → ℕ → Repo × ℤ
unbind_handle r none event handler = (r, negsuc 0)
unbind_handle r (some h) event handler =
    if mem r.handle_set h
    then (elim (lookup (row r h) event) [
      | none ↦ (r, negsuc 0)
      | some bound ↦
          if bound == handler
          then (let left = erase (row r h) event in
              (
                record r {
                  handle_set = if is_nil left then discard r.handle_set h else r.handle_set;
                  events_table = set r.events_table h left;
                },
                pos 0,
              ))
          else (r, negsuc 0)
    ])
    else (r, negsuc 0)

module _ (expiration : ℕ → Option ℕ) where
  unfoldable pub bind_new : Repo → Option ℕ → ℕ → Option ℕ → Repo × ℤ
  bind_new r handle event none = (r, negsuc 0)
  bind_new r handle event (some handler) =
      if bound_as event == none_event
      then (r, negsuc 0)
      else if bound_as event == timeout_event
      then bind_timeout r (expiration handler) handler
      else bind_handle r handle (bound_as event) handler

  -- `unbind(handle, event, handler)`
  unfoldable pub unbind : Repo → Option ℕ → ℕ → Option ℕ → Repo × ℤ
  unbind r handle event none = (r, negsuc 0)
  unbind r handle event (some handler) =
      if event == none_event
      then (r, negsuc 0)
      else if event == timeout_event
      then unbind_timeout r (expiration handler) handler
      else unbind_handle r handle event handler

-- `unbind(handle)`: the set of handles is cleared with the row of this one.
unfoldable pub unbind_all : Repo → Option ℕ → Repo × ℤ
unbind_all r none = (r, negsuc 0)
unbind_all r (some h) =
    if leb (length r.events_table) h
    then (r, negsuc 0)
    else if is_nil (row r h)
    then (r, negsuc 0)
    else (record r { handle_set = []; events_table = set r.events_table h [] }, pos 0)

unfoldable pub get_handler : Repo → Option ℕ → ℕ → Option ℕ
get_handler r none event = none
get_handler r (some h) event =
    if event == none_event
    then none
    else if leb (length r.events_table) h
    then none
    else lookup (row r h) event

unfoldable pub has_handle : Repo → ℕ → Bool
has_handle r h = mem r.handle_set h

unfoldable pub has_timeout_handler : Repo → Bool
has_timeout_handler r = if is_nil r.timeout_handlers then false else true

-- `unbindTimeoutHandlers(tp)`
unfoldable pub unbind_timeout_handlers : Repo → ℕ → Repo × ℤ
unbind_timeout_handlers r t = elim (lookup r.timeout_handlers t) [
  | none ↦ (r, negsuc 0)
  | some hs ↦ (record r { timeout_handlers = erase r.timeout_handlers t }, pos 0)
]

-- The first key of the map.
unfoldable pub least : List (ℕ × List ℕ) → Option ℕ
least [] = none
least ((t, hs) ∷ m) = elim (least m) [ none ↦ some t | some s ↦ some (if leb t s then t else s) ]

-- `getLastestTimeoutPoint()`, `none` for `TimePoint_T::max()`.
unfoldable pub latest_timeout_point : Repo → Option ℕ
latest_timeout_point r = least r.timeout_handlers

unfoldable pub latest_timeout_handlers : Repo → List ℕ
latest_timeout_handlers r = elim (least r.timeout_handlers) [
  | none ↦ []
  | some t ↦ handlers_at r.timeout_handlers t
]

unfoldable pub clear : Repo → Repo
clear r = record r { handle_set = []; events_table = [] }
