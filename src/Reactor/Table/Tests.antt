-- ===== src/Reactor/Table/Tests.antt =====
-- The table of handlers at concrete bindings.
use unp.Base.{
  ℕ, zero, suc, ◌≡◌, ◌≢◌, refl, ◌&&◌, arith, Option, none, some, [], ◌∷◌, none-ne-some, ◌==◌,
  if◌then◌else◌,
}
use unp.Base.Int.{pos}
use unp.Reactor.Table.{
  Repo, bind_new, bound_as, unbind, get_handler, has_handle, accept_event, least,
  latest_timeout_point,
}
use unp.Reactor.Table.Lookup.{get_handler-bind_new, get_handler-unbind}
use unp.Reactor.Table.Handles.{Tracked, unbind-Tracked}

-- Handler 40 reads on handle 1, handler 41 writes on handle 3.
abbrev repo : Repo
repo = record {
  handle_set = 1 ∷ 3 ∷ [];
  events_table = [] ∷ ((1, 40) ∷ []) ∷ [] ∷ ((4, 41) ∷ []) ∷ [];
  timeout_handlers = [];
}

abbrev no_timeouts : ℕ → Option ℕ
no_timeouts _ = none

repo-Tracked : Tracked repo
unfolding has_handle
repo-Tracked zero = refl
repo-Tracked (suc zero) = refl
repo-Tracked (suc (suc zero)) = refl
repo-Tracked (suc (suc (suc zero))) = refl
repo-Tracked (suc (suc (suc (suc h)))) = ground arith

get_handler-bind_new_example :
    ((bind_new no_timeouts repo (some 5) 1 (some 42)).1 ≡ pos 0)
    × (get_handler (bind_new no_timeouts repo (some 5) 1 (some 42)).0 (some 5) 1
        ≡ (if 5 == 5 && 1 == bound_as 1 then some 42 else get_handler repo (some 5) 1))
get_handler-bind_new_example = get_handler-bind_new no_timeouts repo 5 1 42 refl refl 5 1

reads : get_handler repo (some 1) 1 ≡ some 40
unfolding get_handler
reads = refl

get_handler-unbind_example :
    ((unbind no_timeouts repo (some 1) 1 (some 40)).1 ≡ pos 0)
    × (get_handler (unbind no_timeouts repo (some 1) 1 (some 40)).0 (some 3) 4
        ≡ (if 3 == 1 && 4 == 1 then none else get_handler repo (some 3) 4))
get_handler-unbind_example = get_handler-unbind no_timeouts repo 1 1 40 refl refl reads 3 4

no_writer : get_handler repo (some 1) 4 ≢ some 40
unfolding get_handler
no_writer e = none-ne-some 40 e

unbind-Tracked_example : Tracked (unbind no_timeouts repo (some 1) 1 (some 40)).0
unbind-Tracked_example = unbind-Tracked no_timeouts repo (some 1) 1 (some 40) repo-Tracked

no_acceptor : get_handler repo (some 6) accept_event ≢ some 43
unfolding get_handler
no_acceptor e = none-ne-some 43 e

abbrev timed : Repo
timed = record {
  handle_set = [];
  events_table = [];
  timeout_handlers = (70, 5 ∷ []) ∷ (30, 6 ∷ 7 ∷ []) ∷ [];
}

latest_is_30 : latest_timeout_point timed ≡ some 30
unfolding latest_timeout_point least
latest_is_30 = refl
