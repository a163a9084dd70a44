-- ===== src/Reactor/Select/Register.antt =====
-- `select_reactor_impl` of src/reactor/select_reactor_impl.cpp: registration of the handlers of handles. `dispatch_sets_` is
-- filled anew by each wait, and `ready_sets_` is not used here.
pub mod Kept
use unp.Base.{ℕ, Bool, true, false, ◌||◌, Option, none, some, List, [], ◌∷◌, ◌==◌, if◌then◌else◌}
use unp.Base.Int.{ℤ, pos, negsuc}
use unp.Buffer.Chain.{◌>>=◌}
use unp.Net.HandleSet.{HandleSet, set_bit, unset_bit}
use unp.Reactor.Table.{none_event, read_event, accept_event}
use unp.Reactor.Epoll.{write_event}
use unp.Reactor.Select.{SelectTable, bind, unbind}

abbrev pub except_event : ℕ
except_event = 2

pub record HandleSets : Type 0 where
  pub read_set : HandleSet
  pub write_set : HandleSet
  pub exception_set : HandleSet

pub record SelectReactor : Type 0 where
  pub wait_sets : HandleSets
  pub demux_table : SelectTable

-- The switch over the type; `some none` is its default.
unfoldable pub change_set :
    (HandleSet → Option ℕ → Option HandleSet) → HandleSets → ℕ → ℕ → Option (Option HandleSets)
change_set change sets handle type =
    if (type == read_event) || (type == accept_event)
    then (do s ← change sets.read_set (some handle); some (some (record sets { read_set = s })))
    else if type == write_event
    then (do s ← change sets.write_set (some handle); some (some (record sets { write_set = s })))
    else if type == except_event
    then (do
      s ← change sets.exception_set (some handle)
      some (some (record sets { exception_set = s })))
    else some none

-- `register_handler(handle, handler, type)`
unfoldable pub register_handler :
    SelectReactor → Option ℕ → Option ℕ → ℕ → Option (SelectReactor × ℤ)
register_handler r none handler type = some (r, negsuc 0)
register_handler r (some handle) none type = some (r, negsuc 0)
register_handler r (some handle) (some handler) type =
    if type == none_event then some (r, negsuc 0) else (do
      changed ← change_set set_bit r.wait_sets handle type
      (elim changed [
        | none ↦ some (r, negsuc 0)
        | some sets ↦ do
          (table, ret) ← bind r.demux_table (some handle) (some handler) type
          some (record { wait_sets = sets; demux_table = table }, ret)
      ]))

-- `unregister_handler(handle, handler, type)`
unfoldable pub unregister_handler :
    SelectReactor → Option ℕ → Option ℕ → ℕ → Option (SelectReactor × ℤ)
unregister_handler r none handler type = some (r, negsuc 0)
unregister_handler r (some handle) none type = some (r, negsuc 0)
unregister_handler r (some handle) (some handler) type =
    if type == none_event then some (r, negsuc 0) else (do
      changed ← change_set unset_bit r.wait_sets handle type
      (elim changed [
        | none ↦ some (r, negsuc 0)
        | some sets ↦ do
          (table, ret) ← unbind r.demux_table (some handle) (some handler) type
          some (record { wait_sets = sets; demux_table = table }, ret)
      ]))
