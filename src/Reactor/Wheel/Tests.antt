-- ===== src/Reactor/Wheel/Tests.antt =====
-- Runs of src/reactor/HHWheelTimer.cpp: handler 7 expires at tick 300, which is put in the second bucket.
use unp.Base.{
  ℕ, ◌≡◌, refl, false, ◌&&◌, Option, none, some, List, [], ◌∷◌, arith, ◌==◌, if◌then◌else◌,
}
use unp.Reactor.Wheel.{
  Wheel, place, put_in, schedule_timeout_impl, reschedule, cascade_timers, cascade_all, expired_of,
  expire_round, expire_loop, tick_of, find_first, schedule_next_timeout_in_reactor,
  schedule_timeout, any_slot, is_linked,
}
use unp.Reactor.Wheel.Next.{IsNext, HasPut, scheduled, schedule_timeout-IsNext}
use unp.Reactor.Wheel.Expired.{Safe, expire_loop-Safe}

abbrev waiting : Wheel
waiting = record {
  timer_count = 1;
  start_time = 0;
  interval = 10;
  expire_tick = 250;
  expiration = λ h. if h == 7 then 3000 else 0;
  slot_in_bucket = λ h. none;
  handlers = λ b s. if (b == 1) && (s == 1) then 7 ∷ [] else [];
  first_bucket_bit_set = λ s. false;
}

put_there : place 10 300 ≡ (1, 1)
unfolding place
put_there = refl

-- The slot cascades at tick 256, and handler 7 has expired at tick 300.
expired_at_300 :
    (elim (expire_loop 60 waiting 9 false 300) [ none ↦ [] | some (w, expired) ↦ expired ]) ≡ 7 ∷ []
unfolding expire_loop expire_round cascade_all cascade_timers reschedule schedule_timeout_impl place
    put_in expired_of tick_of
expired_at_300 = refl

expire_loop-Safe_example : Safe 7 (expire_loop 60 waiting 9 false 300)
expire_loop-Safe_example =
    expire_loop-Safe 60 waiting 9 300 7 (λ s. refl) (omega arith) refl (1, 1, refl)

abbrev nothing_yet : Wheel
nothing_yet = record waiting { timer_count = 0; handlers = λ b s. [] }

nothing_yet_linked : is_linked nothing_yet 7 ≡ false
unfolding any_slot
nothing_yet_linked = refl

schedule_timeout-IsNext_example :
    IsNext
      (scheduled nothing_yet 2500 7 80)
      (tick_of nothing_yet 2500)
      99
      (schedule_timeout nothing_yet 2500 7 80 99)
    × HasPut nothing_yet 7 (schedule_timeout nothing_yet 2500 7 80 99)
schedule_timeout-IsNext_example =
    schedule_timeout-IsNext nothing_yet 2500 7 80 99 (λ s. refl) nothing_yet_linked

-- At tick 250 handler 5 expires at tick 255, and handler 7 is then put at tick 258: the reactor is given
-- handler 7, whose slot has the lower index.
abbrev two_timers : Wheel
two_timers = record nothing_yet {
  expiration = λ h. if h == 5 then 2550 else 0;
  handlers = λ b s. if (b == 0) && (s == 255) then 5 ∷ [] else [];
  first_bucket_bit_set = λ s. s == 255;
}

abbrev given : Option (Wheel × ℕ) → ℕ
given none = 0
given (some (w, h)) = h

later_first : given (schedule_timeout two_timers 2500 7 80 99) ≡ 7
unfolding schedule_timeout schedule_timeout_impl place put_in schedule_next_timeout_in_reactor
    find_first tick_of any_slot
later_first = refl

abbrev expired_by : Option (Wheel × ℕ) → List ℕ
expired_by none = 99 ∷ []
expired_by (some (w, h)) = elim (expire_loop 60 w h false 300) [
  | none ↦ 99 ∷ []
  | some (w', expired) ↦ expired
]

-- At tick 250 handler 5 is put at tick 258, to which the wheel's next tick goes: slot 1 of the second bucket
-- does not cascade at tick 256, and handler 7 has not expired at tick 300.
cascade_left_out : expired_by (schedule_timeout waiting 2500 5 80 99) ≡ []
unfolding schedule_timeout schedule_timeout_impl place put_in schedule_next_timeout_in_reactor
    find_first tick_of any_slot expire_loop expire_round expired_of cascade_all cascade_timers
    reschedule
cascade_left_out = refl
