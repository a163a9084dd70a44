-- ===== src/Reactor/Select/Tests.antt =====
-- The table of the select reactor with a few handlers.
use unp.Base.{◌≡◌, inl, inr, refl, true, none, some, [], ◌∷◌, arith, get_inside, get_or, set}
use unp.Base.Int.{pos}
use unp.Reactor.Table.{read_event}
use unp.Reactor.Epoll.{write_event}
use unp.Reactor.Select.{
  SelectTable, find, new_table, get_handler, resized, bind, unbind, tuple_unbind, tuple_get_handler,
  search_max,
}
use unp.Reactor.Select.Top.{IsTop, or_else, bind-IsTop}
use unp.Reactor.Select.Unbind.{unbind-IsTop}
use unp.Reactor.Select.Register.{SelectReactor, register_handler}
use unp.Reactor.Select.Register.Kept.{IsReady, set_for, register_handler-IsReady}
use unp.Net.HandleSet.{reset, is_set}
use unp.Net.HandleSet.Members.{reset-IsHandles}

-- The handle 1 is read by the handler 40, and the handle 3 written by 41.
abbrev pair : SelectTable
pair = record {
  event_vector = [] ∷ ((read_event, 40) ∷ []) ∷ [] ∷ ((write_event, 41) ∷ []) ∷ [];
  current_max = 4;
}

pair-IsTop : IsTop pair
pair-IsTop = (
  ((write_event, 41) ∷ [], refl, refl),
  λ j row more e. absurd (omega (arith, more, get_inside pair.event_vector j row e)),
)

-- An empty table has no place for the handle 1 after its resize.
bind_one : bind (new_table 0) (some 1) (some 40) read_event ≡ none
unfolding bind new_table resized
bind_one = refl

-- What is behind the last pair is read.
get_unbound : get_handler pair (some 2) write_event ≡ none
unfolding get_handler tuple_get_handler
get_unbound = refl

unbind_alone :
    unbind
      (record { event_vector = [] ∷ ((read_event, 40) ∷ []) ∷ []; current_max = 2 })
      (some 1)
      (some 40)
      read_event
    ≡ none
unfolding unbind tuple_get_handler tuple_unbind search_max
unbind_alone = refl

bind-IsTop_example :
    (t : SelectTable) × (bind pair (some 6) (some 42) read_event ≡ some (t, pos 0))
    × IsTop t
    × (get_handler t (some 6) read_event
        ≡ some (some (or_else (find (get_or pair.event_vector 6 []) read_event) 42)))
bind-IsTop_example =
    bind-IsTop pair 6 42 read_event pair-IsTop (omega arith) (inr (omega arith))
      (λ e. omega (arith, e))

unbind-IsTop_example :
    (t : SelectTable) × (unbind pair (some 3) (some 41) write_event
      ≡ some (t, (tuple_unbind ((write_event, 41) ∷ []) write_event (some 41)).1))
    × IsTop t
    × (t.event_vector
        ≡ set pair.event_vector 3 (tuple_unbind ((write_event, 41) ∷ []) write_event (some 41)).0)
unbind-IsTop_example =
    unbind-IsTop pair 3 41 write_event 41 1 ((write_event, 41) ∷ []) ((read_event, 40) ∷ [])
      pair-IsTop (omega arith) refl refl (λ e. omega (arith, e)) refl refl

abbrev watching : SelectReactor
watching = record {
  wait_sets = record { read_set = reset; write_set = reset; exception_set = reset };
  demux_table = pair;
}

watching-IsReady : IsReady watching
watching-IsReady = record {
  sets = record { reads = reset-IsHandles; writes = reset-IsHandles; exceptions = reset-IsHandles };
  top = pair-IsTop;
}

register_handler-IsReady_example :
    (r : SelectReactor) × (register_handler watching (some 6) (some 42) write_event
      ≡ some (r, pos 0))
    × IsReady r
    × (is_set (set_for r.wait_sets write_event) 6 ≡ some true)
    × (get_handler r.demux_table (some 6) write_event
        ≡ some (some (or_else (find (get_or pair.event_vector 6 []) write_event) 42)))
register_handler-IsReady_example =
    register_handler-IsReady watching 6 42 write_event watching-IsReady (omega arith)
      (inr (omega arith)) (inr (inl refl))
