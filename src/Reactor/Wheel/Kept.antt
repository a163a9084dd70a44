-- ===== src/Reactor/Wheel/Kept.antt =====
-- Handlers stay in the wheel of src/reactor/HHWheelTimer.cpp when a slot cascades.
use unp.Base.{
  ℕ, ◌≡◌, refl, ◌⊎◌, true, false≢true, List, [], ◌∷◌, ◌++◌, inl, inr, Bool-cases, arith, ◌==◌,
  ==-eq, sub64,
}
use unp.Reactor.Assoc.{mem}
use unp.Reactor.Wheel.{
  Wheel, update_slot, place, put_in, schedule_timeout_impl, reschedule, emptied, cascade_timers,
  tick_of,
}

-- A handler is in a list of the wheel.
abbrev pub Holds : Wheel → ℕ → Type 0
Holds w h = (bucket : ℕ) × (slot : ℕ) × (mem (w.handlers bucket slot) h ≡ true)

pub mem-append-left : (xs ys : List ℕ) (h : ℕ) → mem xs h ≡ true → mem (xs ++ ys) h ≡ true
mem-append-left [] ys h e = absurd (false≢true e)
mem-append-left (x ∷ xs) ys h e = elim (Bool-cases (h == x)) [
  | inl same ↦ rw same refl
  | inr other ↦ rw other (mem-append-left xs ys h (rw other at e))
]

pub same_number : (n : ℕ) → (n == n) ≡ true
same_number n = ground arith

mem-append-last : (xs : List ℕ) (h : ℕ) → mem (xs ++ h ∷ []) h ≡ true
mem-append-last [] h = rw (same_number h) refl
mem-append-last (x ∷ xs) h = elim (Bool-cases (h == x)) [
  | inl same ↦ rw same refl
  | inr other ↦ rw other (mem-append-last xs h)
]

pub put_in-Holds : (w : Wheel) (h bucket slot : ℕ) → Holds (put_in w h bucket slot) h
unfolding put_in
put_in-Holds w h bucket slot = (
  bucket,
  slot,
  rw (same_number bucket) (rw (same_number slot) (mem-append-last (w.handlers bucket slot) h)),
)

pub put_in_keeps : (w : Wheel) (h bucket slot k : ℕ) → Holds w k → Holds (put_in w h bucket slot) k
unfolding put_in
put_in_keeps w h bucket slot k (b, s, e) = (b, s, there)
  where
    there : mem (update_slot w.handlers bucket slot (w.handlers bucket slot ++ h ∷ []) b s) k ≡ true
    there = elim (Bool-cases (b == bucket)) [
      | inr other ↦ rw other e
      | inl same_bucket ↦ elim (Bool-cases (s == slot)) [
        | inr other ↦ rw same_bucket (rw other e)
        | inl same_slot ↦ rw same_bucket (
            rw same_slot (
              mem-append-left (w.handlers bucket slot) (h ∷ []) k
                (rw (==-eq b bucket same_bucket, ==-eq s slot same_slot) at e)))
      ]
    ]

reschedule_keeps :
    (w : Wheel) (hs : List ℕ) (cur k : ℕ)
    → Holds w k ⊎ (mem hs k ≡ true)
    → Holds (reschedule w hs cur) k
unfolding reschedule schedule_timeout_impl
reschedule_keeps w [] cur k (inl held) = held
reschedule_keeps w [] cur k (inr e) = absurd (false≢true e)
reschedule_keeps w (h ∷ hs) cur k held =
    let less = record w { timer_count = sub64 w.timer_count 1 } in
    let (bucket, slot) = place cur (tick_of w (w.expiration h)) in
    reschedule_keeps (put_in less h bucket slot) hs cur k (elim held [
      | inl there ↦ inl (put_in_keeps less h bucket slot k there)
      | inr e ↦ elim (Bool-cases (k == h)) [
        | inl same ↦ inl (rw (==-eq k h same) (put_in-Holds less h bucket slot))
        | inr other ↦ inr (rw other at e)
      ]
    ])

-- A handler that is in the wheel is still in it after a cascade.
pub cascade_timers_keeps :
    (w : Wheel) (bucket tick cur k : ℕ) → Holds w k → Holds (cascade_timers w bucket tick cur).0 k
unfolding cascade_timers
cascade_timers_keeps w bucket tick cur k (b, s, e) =
    reschedule_keeps (emptied w bucket tick) (w.handlers bucket tick) cur k where_now
  where
    where_now : Holds (emptied w bucket tick) k ⊎ (mem (w.handlers bucket tick) k ≡ true)
    where_now = elim (Bool-cases (b == bucket)) [
      | inr other ↦ inl (b, s, rw other e)
      | inl same_bucket ↦ elim (Bool-cases (s == tick)) [
        | inr other ↦ inl (b, s, rw same_bucket (rw other e))
        | inl same_slot ↦ inr (rw (==-eq b bucket same_bucket, ==-eq s tick same_slot) at e)
      ]
    ]
