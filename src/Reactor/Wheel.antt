-- ===== src/Reactor/Wheel.antt =====
-- `HHWheelTimer` of src/reactor/HHWheelTimer.h and src/reactor/HHWheelTimer.cpp: where a timeout is put, how the buckets
-- cascade, and what has expired. A handler is a number; the clock's readings and the ticks are numbers,
-- which the int64_t of the source holds below 2 ^ 63. An interval of zero is not used.
pub mod Due
pub mod Marked
pub mod Kept
pub mod Expired
pub mod Next
mod Tests
use unp.Base.{
  ℕ, zero, suc, ◌+◌, ◌-◌, ◌*◌, ◌/◌, ◌%◌, ◌^◌, Bool, true, false, ◌||◌, Option, none, some, List, [],
  ◌∷◌, ◌++◌, ◌==◌, leb, ltb, if◌then◌else◌, add64, sub64,
}
use unp.Reactor.Assoc.{mem}

abbrev pub wheel_size : ℕ
wheel_size = 256

abbrev pub largest_slot : ℕ
largest_slot = 4294967295

-- `slot_in_bucket` and `expiration` are members of the handlers; the list of a bucket's slot is `handlers`.
pub record Wheel : Type 0 where
  pub timer_count : ℕ
  pub start_time : ℕ
  pub interval : ℕ
  pub expire_tick : ℕ
  pub expiration : ℕ → ℕ
  pub slot_in_bucket : ℕ → Option ℕ
  pub handlers : ℕ → ℕ → List ℕ
  pub first_bucket_bit_set : ℕ → Bool

-- A function changed at one place, and at one slot of a bucket.
abbrev pub update {ℓ} : {A : Type ℓ} → (ℕ → A) → ℕ → A → ℕ → A
update f k a j = if j == k then a else f j

abbrev pub update_slot : (ℕ → ℕ → List ℕ) → ℕ → ℕ → List ℕ → ℕ → ℕ → List ℕ
update_slot lists bucket slot l b = if b == bucket then update (lists b) slot l else lists b

unfoldable pub tick_of : Wheel → ℕ → ℕ
tick_of w time = (time - w.start_time) / w.interval

-- The bucket and its slot.
unfoldable pub place : ℕ → ℕ → ℕ × ℕ
place base_tick expire_tick =
    if ltb expire_tick base_tick
    then (0, base_tick % wheel_size)
    else if ltb (expire_tick - base_tick) wheel_size
    then (0, expire_tick % wheel_size)
    else if ltb (expire_tick - base_tick) (2 ^ 16)
    then (1, expire_tick / 2 ^ 8 % wheel_size)
    else if ltb (expire_tick - base_tick) (2 ^ 24)
    then (2, expire_tick / 2 ^ 16 % wheel_size)
    else (let tick =
          if ltb largest_slot (expire_tick - base_tick)
          then largest_slot + base_tick
          else expire_tick in
        (3, tick / 2 ^ 24 % wheel_size))

-- `push_back`, with the bit and the handler's slot in the first bucket.
unfoldable pub put_in : Wheel → ℕ → ℕ → ℕ → Wheel
put_in w handler bucket slot = record w {
  timer_count = add64 w.timer_count 1;
  handlers = update_slot w.handlers bucket slot (w.handlers bucket slot ++ handler ∷ []);
  first_bucket_bit_set =
      if bucket == 0 then update w.first_bucket_bit_set slot true else w.first_bucket_bit_set;
  slot_in_bucket =
      if bucket == 0 then update w.slot_in_bucket handler (some slot) else w.slot_in_bucket;
}

unfoldable pub schedule_timeout_impl : Wheel → ℕ → ℕ → ℕ → Wheel
schedule_timeout_impl w handler base_tick expire_tick =
    let (bucket, slot) = place base_tick expire_tick in put_in w handler bucket slot

-- The handlers of a list that was swapped out.
unfoldable pub reschedule : Wheel → List ℕ → ℕ → Wheel
reschedule w [] cur_tick = w
reschedule w (h ∷ hs) cur_tick =
    let w' = record w { timer_count = sub64 w.timer_count 1 } in
    reschedule (schedule_timeout_impl w' h cur_tick (tick_of w (w.expiration h))) hs cur_tick

abbrev pub emptied : Wheel → ℕ → ℕ → Wheel
emptied w bucket tick = record w { handlers = update_slot w.handlers bucket tick [] }

unfoldable pub cascade_timers : Wheel → ℕ → ℕ → ℕ → Wheel × Bool
cascade_timers w bucket tick cur_tick =
    (reschedule (emptied w bucket tick) (w.handlers bucket tick) cur_tick, tick == 0)

-- The cascade of a round that has come to slot 0.
unfoldable pub cascade_all : Wheel → ℕ → Wheel
cascade_all w cur_tick =
    let tick = w.expire_tick in
    let (w1, more1) = cascade_timers w 1 (tick / 2 ^ 8 % wheel_size) cur_tick in
    let (w2, more2) = cascade_timers w1 2 (tick / 2 ^ 16 % wheel_size) cur_tick in
    let (w3, more3) = cascade_timers w2 3 (tick / 2 ^ 24 % wheel_size) cur_tick in
    if more1 then (if more2 then w3 else w2) else w1

-- Without the handler that the reactor has called; `registered` says that it is registered again.
unfoldable pub expired_of : List ℕ → ℕ → Bool → List ℕ
expired_of [] handler registered = []
expired_of (h ∷ hs) handler registered =
    let rest = expired_of hs handler registered in
    if h == handler then rest else if registered then rest else h ∷ rest

-- One round of the loop of `timeoutExpired`, at the slot of `expire_tick`.
unfoldable pub expire_round : Wheel → ℕ → Bool → ℕ → Wheel × List ℕ
expire_round w handler registered cur_tick =
    let index = w.expire_tick % wheel_size in
    let w' = if index == 0 then cascade_all w cur_tick else w in
    let next = record w' { expire_tick = suc w'.expire_tick } in
    if w'.first_bucket_bit_set index
    then (
      record next {
        handlers = update_slot w'.handlers 0 index [];
        first_bucket_bit_set = update w'.first_bucket_bit_set index false;
      },
      expired_of (w'.handlers 0 index) handler registered,
    )
    else (next, [])

-- The loop up to the tick of now; `none` when the fuel is used up.
unfoldable pub expire_loop : ℕ → Wheel → ℕ → Bool → ℕ → Option (Wheel × List ℕ)
expire_loop zero w handler registered cur_tick = none
expire_loop (suc fuel) w handler registered cur_tick =
    let (w', expired) = expire_round w handler registered cur_tick in
    let rest = expire_loop fuel w' handler registered cur_tick in
    if leb w.expire_tick cur_tick
    then (elim rest [ none ↦ none | some (w2, later) ↦ some (w2, expired ++ later) ])
    else some (w, [])

-- `_Find_first()`, of `n` bits from the bit `i` on.
unfoldable pub find_first : ℕ → ℕ → (ℕ → Bool) → Option ℕ
find_first zero i bits = none
find_first (suc n) i bits = let rest = find_first n (suc i) bits in if bits i then some i else rest

-- `scheduleNextTimeoutInReactor_(nullptr, base_tick, -1)`, the only call of it, up to the handler that the
-- reactor is given if it is not registered: one of the wheel, or the new one, `fresh`. `front()` of an empty
-- list is a fault.
unfoldable pub schedule_next_timeout_in_reactor : Wheel → ℕ → ℕ → Option (Wheel × ℕ)
schedule_next_timeout_in_reactor w base_tick fresh =
    elim (find_first wheel_size 0 w.first_bucket_bit_set) [
      | none ↦
          let tick = base_tick + (wheel_size - base_tick % wheel_size) in
          some (
            record w {
              expiration = update w.expiration fresh (w.start_time + tick * w.interval);
              expire_tick = tick;
            },
            fresh,
          )
      | some slot ↦ elim (w.handlers 0 slot) [
        | [] ↦ none
        | h ∷ hs ↦ some (record w { expire_tick = tick_of w (w.expiration h) }, h)
      ]
    ]

-- Whether a list of the slots below `n` of a bucket has the handler.
unfoldable pub any_slot : ℕ → (ℕ → List ℕ) → ℕ → Bool
any_slot zero lists handler = false
any_slot (suc n) lists handler = mem (lists n) handler || any_slot n lists handler

-- `is_linked()` of the handler's hook.
abbrev pub is_linked : Wheel → ℕ → Bool
is_linked w handler =
    any_slot wheel_size (w.handlers 0) handler
    || any_slot wheel_size (w.handlers 1) handler
    || any_slot wheel_size (w.handlers 2) handler
    || any_slot wheel_size (w.handlers 3) handler

-- `scheduleTimeout(handler, timeout)` at the time `now`; a negative timeout counts as zero. For a handler
-- that is linked the assertion of `push_back` fails, which is a fault.
unfoldable pub schedule_timeout : Wheel → ℕ → ℕ → ℕ → ℕ → Option (Wheel × ℕ)
schedule_timeout w now handler timeout fresh =
    let current_tick = tick_of w now in
    let w' = record w { expiration = update w.expiration handler (now + timeout) } in
    if is_linked w handler
    then none
    else schedule_next_timeout_in_reactor
        (schedule_timeout_impl w' handler current_tick (timeout / w.interval + current_tick))
        current_tick fresh
