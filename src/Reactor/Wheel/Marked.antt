-- ===== src/Reactor/Wheel/Marked.antt =====
-- The bits of the first bucket in src/reactor/HHWheelTimer.cpp, and the loop of `timeoutExpired`.
use unp.Base.{
  ℕ, zero, suc, ◌-◌, ◌/◌, ◌%◌, ◌^◌, ◌<◌, ◌≡◌, refl, sym, ap, ◌∙◌, Bool, true, false, not, Option,
  some, List, [], ◌∷◌, ◌++◌, inl, inr, Bool-cases, arith, ◌==◌, leb, leb→le, leb→lt, if◌then◌else◌,
  sub64,
}
use unp.Reactor.Assoc.{is_nil}
use unp.Reactor.Wheel.{
  Wheel, wheel_size, update, place, put_in, schedule_timeout_impl, reschedule, emptied,
  cascade_timers, cascade_all, expire_round, expire_loop, tick_of,
}

-- A slot of the first bucket has its bit set just when its list is not empty.
abbrev pub IsMarked : Wheel → Type 0
IsMarked w = (slot : ℕ) → w.first_bucket_bit_set slot ≡ not (is_nil (w.handlers 0 slot))

suc_zero : (n : ℕ) → (suc n == 0) ≡ false
suc_zero n = ground arith

zero_suc : (n : ℕ) → (0 == suc n) ≡ false
zero_suc n = ground arith

not_nil : (hs : List ℕ) (h : ℕ) → is_nil (hs ++ h ∷ []) ≡ false
not_nil [] h = refl
not_nil (x ∷ hs) h = refl

put_in-IsMarked : (w : Wheel) (h bucket slot : ℕ) → IsMarked w → IsMarked (put_in w h bucket slot)
unfolding put_in
put_in-IsMarked w h zero slot m j = elim (Bool-cases (j == slot)) [
  | inl same ↦ rw same (sym (ap not (not_nil (w.handlers 0 slot) h)))
  | inr other ↦ rw other (m j)
]
put_in-IsMarked w h (suc bucket) slot m j = rw (suc_zero bucket, zero_suc bucket, put_in) (m j)

pub schedule-IsMarked :
    (w : Wheel) (h base expire : ℕ) → IsMarked w → IsMarked (schedule_timeout_impl w h base expire)
unfolding schedule_timeout_impl
schedule-IsMarked w h base expire m =
    put_in-IsMarked w h (place base expire).0 (place base expire).1 m

reschedule-IsMarked :
    (w : Wheel) (hs : List ℕ) (cur : ℕ) → IsMarked w → IsMarked (reschedule w hs cur)
unfolding reschedule
reschedule-IsMarked w [] cur m = m
reschedule-IsMarked w (h ∷ hs) cur m =
    let less = record w { timer_count = sub64 w.timer_count 1 } in
    reschedule-IsMarked (schedule_timeout_impl less h cur (tick_of w (w.expiration h))) hs cur
      (schedule-IsMarked less h cur (tick_of w (w.expiration h)) m)

-- Scheduling leaves the tick that is looked at alone.
reschedule-tick :
    (w : Wheel) (hs : List ℕ) (cur : ℕ) → (reschedule w hs cur).expire_tick ≡ w.expire_tick
unfolding reschedule schedule_timeout_impl put_in
reschedule-tick w [] cur = refl
reschedule-tick w (h ∷ hs) cur =
    let less = record w { timer_count = sub64 w.timer_count 1 } in
    reschedule-tick (schedule_timeout_impl less h cur (tick_of w (w.expiration h))) hs cur

-- Marked, and looked at at the tick.
abbrev pub IsAt : ℕ → Wheel → Type 0
IsAt tick w = IsMarked w × (w.expire_tick ≡ tick)

cascade_timers-IsAt :
    (w : Wheel) (t bucket tick cur : ℕ)
    → (0 == bucket) ≡ false
    → IsAt t w
    → IsAt t (cascade_timers w bucket tick cur).0
unfolding cascade_timers
cascade_timers-IsAt w t bucket tick cur above (m, e) = (
  reschedule-IsMarked (emptied w bucket tick) (w.handlers bucket tick) cur rest,
  reschedule-tick (emptied w bucket tick) (w.handlers bucket tick) cur ∙ e,
)
  where
    rest : IsMarked (emptied w bucket tick)
    rest j = rw above (m j)

either-IsAt : (b : Bool) (t : ℕ) (x y : Wheel) → IsAt t x → IsAt t y → IsAt t (if b then x else y)
either-IsAt true t x y mx my = mx
either-IsAt false t x y mx my = my

cascade_all-IsAt : (w : Wheel) (t cur : ℕ) → IsAt t w → IsAt t (cascade_all w cur)
unfolding cascade_all
cascade_all-IsAt w t cur m =
    let s1 = w.expire_tick / 2 ^ 8 % wheel_size in
    let s2 = w.expire_tick / 2 ^ 16 % wheel_size in
    let s3 = w.expire_tick / 2 ^ 24 % wheel_size in
    let w1 = (cascade_timers w 1 s1 cur).0 in
    let w2 = (cascade_timers w1 2 s2 cur).0 in
    let w3 = (cascade_timers w2 3 s3 cur).0 in
    let m1 = cascade_timers-IsAt w t 1 s1 cur refl m in
    let m2 = cascade_timers-IsAt w1 t 2 s2 cur refl m1 in
    let m3 = cascade_timers-IsAt w2 t 3 s3 cur refl m2 in
    either-IsAt (cascade_timers w 1 s1 cur).1 t (if (cascade_timers w1 2 s2 cur).1 then w3 else w2)
      w1 (either-IsAt (cascade_timers w1 2 s2 cur).1 t w3 w2 m3 m2) m1

-- The bit goes with the list.
swapped :
    (w : Wheel) (index : ℕ)
    → IsMarked w
    → (j : ℕ)
    → update w.first_bucket_bit_set index false j ≡ not (is_nil (update (w.handlers 0) index [] j))
swapped w index m j = elim (Bool-cases (j == index)) [
  | inl same ↦ rw same refl
  | inr other ↦ rw other (m j)
]

-- A round looks at one slot and goes on to the next tick.
pub expire_round-IsAt :
    (w : Wheel) (t h cur : ℕ) (registered : Bool)
    → IsAt t w
    → IsAt (suc t) (expire_round w h registered cur).0
unfolding expire_round
expire_round-IsAt w t h cur registered m =
    let index = w.expire_tick % wheel_size in
    let w' = if index == 0 then cascade_all w cur else w in
    let (mark, at) =
      either-IsAt (index == 0) t (cascade_all w cur) w (cascade_all-IsAt w t cur m) m in
    elim (Bool-cases (w'.first_bucket_bit_set index)) [
      | inl full ↦ rw (full, expire_round) (swapped w' index mark, ap suc at)
      | inr bare ↦ rw (bare, expire_round) (mark, ap suc at)
    ]

-- What the loop comes to: the rounds have gone past `cur`.
abbrev pub Past : ℕ → Option (Wheel × List ℕ) → Type 0
Past cur answer =
    (w : Wheel) × (expired : List ℕ) × (answer ≡ some (w, expired))
    × IsMarked w
    × (cur < w.expire_tick)

-- In a wheel in which a bit is set exactly when the list of its slot in the first bucket is not empty,
-- the loop of timeoutExpired ends, with fuel for one round more than there are ticks from the one it
-- starts at to that of now; the bits are right at the end, and the next tick to look at is after that
-- of now.
pub expire_loop-Past :
    (fuel : ℕ) (w : Wheel) (h cur : ℕ) (registered : Bool)
    → IsMarked w
    → suc cur - w.expire_tick < fuel
    → Past cur (expire_loop fuel w h registered cur)
unfolding expire_loop
expire_loop-Past zero w h cur registered m lt = absurd (omega arith)
expire_loop-Past (suc fuel) w h cur registered m lt = elim (Bool-cases (leb w.expire_tick cur)) [
  | inr late ↦ rw (late, expire_loop) (w, [], refl, m, leb→lt w.expire_tick cur late)
  | inl early ↦
      let round = expire_round w h registered cur in
      let (mark, at) = expire_round-IsAt w w.expire_tick h cur registered (m, refl) in
      let (w2, later, e, m2, past) =
        expire_loop-Past fuel round.0 h cur registered mark
          (omega (arith, at, leb→le w.expire_tick cur early)) in
      rw (early, expire_loop) (rw (e, expire_loop) (w2, round.1 ++ later, refl, m2, past))
]
