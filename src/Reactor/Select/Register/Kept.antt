-- ===== src/Reactor/Select/Register/Kept.antt =====
-- What a registration with the select reactor (src/reactor/select_reactor_impl.cpp) keeps of its sets and its table.
use unp.Base.{
  ℕ, ◌≤◌, ◌<◌, ◌≡◌, ◌≢◌, ◌⊎◌, inl, inr, refl, sym, subst, ◌∙◌, true, false, some, [], arith, length,
  get_or, ◌==◌, ◌||◌, if◌then◌else◌,
}
use unp.Base.Int.{pos}
use unp.Buffer.Chain.{◌>>=◌}
use unp.Net.HandleSet.{HandleSet, fd_setsize, is_set, set_bit}
use unp.Net.HandleSet.Members.{IsHandles, Changed, set_bit-IsHandles}
use unp.Reactor.Table.{none_event, read_event, accept_event}
use unp.Reactor.Epoll.{write_event}
use unp.Reactor.Select.{find, get_handler}
use unp.Reactor.Select.Top.{IsTop, or_else, bind-IsTop}
use unp.Reactor.Select.Register.{
  except_event, HandleSets, SelectReactor, change_set, register_handler,
}

-- The sets count their handles, and the table knows its greatest handle.
pub record AllCounted (sets : HandleSets) : Type 0 where
  pub reads : IsHandles sets.read_set
  pub writes : IsHandles sets.write_set
  pub exceptions : IsHandles sets.exception_set

pub record IsReady (r : SelectReactor) : Type 0 where
  pub sets : AllCounted r.wait_sets
  pub top : IsTop r.demux_table

-- The events that a handle can wait for.
abbrev pub IsIo : ℕ → Type 0
IsIo type =
    ((type ≡ read_event) ⊎ (type ≡ accept_event)) ⊎ ((type ≡ write_event) ⊎ (type ≡ except_event))

-- The set that select is given for the event.
abbrev pub set_for : HandleSets → ℕ → HandleSet
set_for sets type =
    if (type == read_event) || (type == accept_event)
    then sets.read_set
    else if type == write_event
    then sets.write_set
    else sets.exception_set

-- The handle has been entered into the set for the event.
abbrev Entered : HandleSets → ℕ → ℕ → Type 0
Entered sets handle type =
    (sets' : HandleSets) × (change_set set_bit sets handle type ≡ some (some sets'))
    × AllCounted sets'
    × (is_set (set_for sets' type) handle ≡ some true)

here : (s s' : HandleSet) (handle : ℕ) → Changed s s' handle true → is_set s' handle ≡ some true
here s s' handle c = let same : (handle == handle) ≡ true = ground arith in c handle ∙ rw same refl

change_set_lem :
    (sets : HandleSets) (handle type : ℕ)
    → AllCounted sets
    → handle < fd_setsize
    → IsIo type
    → Entered sets handle type
unfolding change_set
change_set_lem sets handle type v inside (inl (inl e)) =
    let (s, run, w, c) = set_bit-IsHandles sets.read_set handle v.reads inside in
    subst (Entered sets handle) (sym e) (
      record sets { read_set = s },
      rw (run, ◌>>=◌) refl,
      record { reads = w; writes = v.writes; exceptions = v.exceptions },
      here sets.read_set s handle c,
    )
change_set_lem sets handle type v inside (inl (inr e)) =
    let (s, run, w, c) = set_bit-IsHandles sets.read_set handle v.reads inside in
    subst (Entered sets handle) (sym e) (
      record sets { read_set = s },
      rw (run, ◌>>=◌) refl,
      record { reads = w; writes = v.writes; exceptions = v.exceptions },
      here sets.read_set s handle c,
    )
change_set_lem sets handle type v inside (inr (inl e)) =
    let (s, run, w, c) = set_bit-IsHandles sets.write_set handle v.writes inside in
    subst (Entered sets handle) (sym e) (
      record sets { write_set = s },
      rw (run, ◌>>=◌) refl,
      record { reads = v.reads; writes = w; exceptions = v.exceptions },
      here sets.write_set s handle c,
    )
change_set_lem sets handle type v inside (inr (inr e)) =
    let (s, run, w, c) = set_bit-IsHandles sets.exception_set handle v.exceptions inside in
    subst (Entered sets handle) (sym e) (
      record sets { exception_set = s },
      rw (run, ◌>>=◌) refl,
      record { reads = v.reads; writes = v.writes; exceptions = w },
      here sets.exception_set s handle c,
    )

-- In a select reactor whose sets count their handles and know the greatest one, and whose table knows
-- its greatest handle with a handler, register_handler of a handler for reading, accepting, writing or
-- exceptions, of a handle below FD_SETSIZE that the table has room for or that is from 2 on, does not
-- fault, returns 0 and keeps all this; the handle is then in the set for the event, and get_handler
-- finds the first handler that was bound to it.
pub register_handler-IsReady :
    (r : SelectReactor) (handle handler type : ℕ)
    → IsReady r
    → handle < fd_setsize
    → (handle < length r.demux_table.event_vector) ⊎ (2 ≤ handle)
    → IsIo type
    → (r' : SelectReactor) × (register_handler r (some handle) (some handler) type
        ≡ some (r', pos 0))
      × IsReady r'
      × (is_set (set_for r'.wait_sets type) handle ≡ some true)
      × (get_handler r'.demux_table (some handle) type
          ≡ some (some (or_else (find (get_or r.demux_table.event_vector handle []) type) handler)))
unfolding register_handler
register_handler-IsReady r handle handler type v inside fits io =
    let (sets, run, w, there) = change_set_lem r.wait_sets handle type v.sets inside io in
    let real : type ≢ none_event = not_none type io in
    let (table, run', top, found) =
      bind-IsTop r.demux_table handle handler type v.top (omega (arith, inside)) fits real in
    let real_test : (type == none_event) ≡ false = ground (arith, real) in
    (
      record { wait_sets = sets; demux_table = table },
      rw (real_test, run) (rw (run', ◌>>=◌) refl),
      record { sets = w; top = top },
      there,
      found,
    )
  where
    not_none : (t : ℕ) → IsIo t → t ≢ none_event
    not_none t (inl (inl e)) z = omega (arith, e, z)
    not_none t (inl (inr e)) z = omega (arith, e, z)
    not_none t (inr (inl e)) z = omega (arith, e, z)
    not_none t (inr (inr e)) z = omega (arith, e, z)
