-- ===== src/Reactor/Select.antt =====
-- `select_demultiplex_table` of src/reactor/select_reactor_impl.h and src/reactor/select_reactor_impl.cpp: the handlers
-- of the handles, without the timeouts. A handler is named by a number, the null pointer is `none`, and so is
-- INVALID_HANDLE among handles. `none` as a result outside is a fault: the end of a vector is read.
pub mod Top
pub mod Lower
pub mod Unbind
pub mod Register
mod Tests
use unp.Base.{
  ℕ, zero, suc, ◌+◌, ◌-◌, ◌/◌, Bool, true, false, ◌&&◌, ◌||◌, not, Option, none, some, List, [],
  ◌∷◌, ◌++◌, get_elem?, set, length, replicate, ltb, leb, ◌==◌, if◌then◌else◌,
}
use unp.Base.Int.{ℤ, pos, negsuc}
use unp.Buffer.Chain.{◌>>=◌}
use unp.Reactor.Assoc.{is_nil}
use unp.Reactor.Table.{none_event, read_event, accept_event}

-- `select_event_tuple`, whose vector has the pairs in the order in which they were bound.
abbrev pub EventTuple : Type 0
EventTuple = List (ℕ × ℕ)

abbrev pub find : EventTuple → ℕ → Option ℕ
find [] type = none
find ((t, handler) ∷ row) type = if t == type then some handler else find row type

abbrev pub erase_first : EventTuple → ℕ → EventTuple
erase_first [] type = []
erase_first ((t, handler) ∷ row) type =
    let rest = erase_first row type in if t == type then row else (t, handler) ∷ rest

unfoldable pub tuple_bind_new : EventTuple → ℕ → Option ℕ → EventTuple × ℤ
tuple_bind_new row type none = (row, negsuc 0)
tuple_bind_new row type (some handler) =
    if type == none_event then (row, negsuc 0) else (row ++ (type, handler) ∷ [], pos 0)

unfoldable pub tuple_unbind : EventTuple → ℕ → Option ℕ → EventTuple × ℤ
tuple_unbind row type none = (row, negsuc 0)
tuple_unbind row type (some handler) =
    if type == none_event then (row, negsuc 0) else (elim (find row type) [
      | none ↦ (row, negsuc 0)
      | some bound ↦ if bound == handler then (erase_first row type, pos 0) else (row, negsuc 0)
    ])

-- Where nothing is found, what is behind the vector's last pair is read.
unfoldable pub tuple_get_handler : EventTuple → ℕ → Option ℕ
tuple_get_handler row type = elim (find row type) [
  | some handler ↦ some handler
  | none ↦ if type == read_event then find row accept_event else none
]

-- `current_max_handle_p_1_` is not negative.
pub record SelectTable : Type 0 where
  pub event_vector : List EventTuple
  pub current_max : ℕ

abbrev pub max_number_of_handle : ℕ
max_number_of_handle = 1024

unfoldable pub new_table : ℕ → SelectTable
new_table size = record {
  event_vector =
      replicate (if ltb max_number_of_handle size then max_number_of_handle else size) [];
  current_max = 0;
}

abbrev pub is_handle_in_range : SelectTable → Option ℕ → Bool
is_handle_in_range t none = false
is_handle_in_range t (some handle) = leb (suc handle) t.current_max

abbrev pub is_valid_handle : Option ℕ → Bool
is_valid_handle none = false
is_valid_handle (some handle) = leb handle max_number_of_handle

-- The null pointer is `some none`.
unfoldable pub get_handler : SelectTable → Option ℕ → ℕ → Option (Option ℕ)
get_handler t none type = some none
get_handler t (some handle) type =
    if not (is_handle_in_range t (some handle)) then some none else (do
      row ← get_elem? t.event_vector handle
      handler ← tuple_get_handler row type
      some (some handler))

-- `if(event_vector_.size() <= handle) event_vector_.resize(handle + handle/2);`
unfoldable pub resized : List EventTuple → ℕ → List EventTuple
resized rows handle =
    if leb (length rows) handle
    then rows ++ replicate (handle + handle / 2 - length rows) []
    else rows

-- `bind(handle, handler, type)`; what `bind_new` returns is not looked at.
unfoldable pub bind : SelectTable → Option ℕ → Option ℕ → ℕ → Option (SelectTable × ℤ)
bind t none handler type = some (t, negsuc 0)
bind t (some handle) none type = some (t, negsuc 0)
bind t (some handle) (some handler) type =
    if not (is_valid_handle (some handle)) then some (t, negsuc 0) else (do
      let rows = resized t.event_vector handle
      row ← get_elem? rows handle
      some (
        record {
          event_vector = set rows handle (tuple_bind_new row type (some handler)).0;
          current_max = if leb t.current_max handle then suc handle else t.current_max;
        },
        pos 0,
      ))

-- `while(--tmp != INVALID_HANDLE && event_vector_[tmp].handler_count() == 0);`, and `tmp + 1`.
unfoldable pub lower_max : List EventTuple → ℕ → Option ℕ
lower_max rows zero = some 0
lower_max rows (suc tmp) =
    let rest = lower_max rows tmp in
    do row ← get_elem? rows tmp; (if is_nil row then rest else some (suc tmp))

-- `unbind(handle)`
unfoldable pub unbind_all : SelectTable → Option ℕ → Option (SelectTable × ℤ)
unbind_all t none = some (t, negsuc 0)
unbind_all t (some handle) =
    if not (is_handle_in_range t (some handle)) then some (t, negsuc 0) else (do
      row ← get_elem? t.event_vector handle
      (if is_nil row then some (t, negsuc 0) else (do
        current_max ←
            (if t.current_max == suc handle
              then lower_max t.event_vector handle
              else some t.current_max)
        some (
          record { event_vector = set t.event_vector handle []; current_max = current_max },
          pos 0,
        ))))

-- `while(tmp-- != INVALID_HANDLE && event_vector_[tmp].handler_count() == 0);`, and `tmp + 1`: the test comes before
-- the step, so that the place -1 is read.
unfoldable pub search_max : List EventTuple → ℕ → Option ℕ
search_max rows zero = none
search_max rows (suc tmp) =
    let rest = search_max rows tmp in
    do row ← get_elem? rows tmp; (if is_nil row then rest else some (suc tmp))

-- `unbind(handle, handler, type)`; get_handler is never null in a handle's row.
unfoldable pub unbind : SelectTable → Option ℕ → Option ℕ → ℕ → Option (SelectTable × ℤ)
unbind t none handler type = some (t, negsuc 0)
unbind t (some handle) handler type =
    if not (is_handle_in_range t (some handle)) then some (t, negsuc 0) else (do
      row ← get_elem? t.event_vector handle
      bound ← tuple_get_handler row type
      let (row', ret) = tuple_unbind row type handler
      let rows = set t.event_vector handle row'
      current_max ←
          (if is_nil row' && (suc handle == t.current_max)
            then search_max rows handle
            else some t.current_max)
      some (record { event_vector = rows; current_max = current_max }, ret))
