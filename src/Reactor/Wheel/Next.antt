-- ===== src/Reactor/Wheel/Next.antt =====
-- What `scheduleTimeout` of src/reactor/HHWheelTimer.cpp gives the reactor to wait for.
use unp.Base.{
  ℕ, zero, suc, ◌+◌, ◌/◌, ◌%◌, ◌≤◌, ◌<◌, ◌≡◌, refl, sym, ap, ◌∙◌, ◌⊎◌, Bool, true, false, not,
  false≢true, Option, none, some, List, [], ◌∷◌, inl, inr, Bool-cases, Option-cases, arith, ◌==◌,
  none-ne-some, some-injective, ==-eq,
}
use unp.Reactor.Assoc.{mem, is_nil}
use unp.Reactor.Wheel.{
  Wheel, wheel_size, update, place, schedule_timeout_impl, find_first,
  schedule_next_timeout_in_reactor, schedule_timeout, tick_of, is_linked,
}
use unp.Reactor.Wheel.Marked.{IsMarked, schedule-IsMarked}
use unp.Reactor.Wheel.Kept.{Holds, put_in-Holds, put_in_keeps, same_number}

-- A bit that is found is set, and without one none of them is.
find_first_set : (n i : ℕ) (bits : ℕ → Bool) (k : ℕ) → find_first n i bits ≡ some k → bits k ≡ true
unfolding find_first
find_first_set zero i bits k e = absurd (none-ne-some k e)
find_first_set (suc n) i bits k e = elim (Bool-cases (bits i)) [
  | inl full ↦ sym (ap bits (some-injective _ _ (rw full at e))) ∙ full
  | inr bare ↦ find_first_set n (suc i) bits k (rw bare at e)
]

later : (i k : ℕ) → i ≤ k → (k == i) ≡ false → suc i ≤ k
later i k le other = ground arith

find_first-none :
    (n i : ℕ) (bits : ℕ → Bool)
    → find_first n i bits ≡ none
    → (k : ℕ) → i ≤ k
    → k < i + n
    → bits k ≡ false
unfolding find_first
find_first-none zero i bits e k le lt = absurd (omega arith)
find_first-none (suc n) i bits e k le lt = elim (Bool-cases (bits i)) [
  | inl full ↦ absurd (none-ne-some i (sym (rw full at e)))
  | inr bare ↦ elim (Bool-cases (k == i)) [
    | inl same ↦ ap bits (==-eq k i same) ∙ bare
    | inr other ↦ find_first-none n (suc i) bits (rw bare at e) k (later i k le other) (omega arith)
  ]
]

flip_not : (b : Bool) → not b ≡ false → b ≡ true
flip_not true e = refl
flip_not false e = absurd (false≢true (sym e))

first_mem : (h : ℕ) (hs : List ℕ) → mem (h ∷ hs) h ≡ true
first_mem h hs = rw (same_number h) refl

-- No list of the wheel changes. The handler that the reactor is given stands in the first bucket, and the
-- next tick is its own; or the first bucket is empty, and the next tick is that at which slots cascade.
abbrev pub IsNext : Wheel → ℕ → ℕ → Option (Wheel × ℕ) → Type 0
IsNext w base fresh answer =
    (w' : Wheel) × (h : ℕ) × (answer ≡ some (w', h))
    × IsMarked w'
    × (w'.handlers ≡ w.handlers)
    × (((slot : ℕ) × (mem (w.handlers 0 slot) h ≡ true)
          × (w'.expire_tick ≡ tick_of w (w.expiration h)))
        ⊎ ((h ≡ fresh)
            × ((slot : ℕ) → slot < wheel_size → is_nil (w.handlers 0 slot) ≡ true)
            × (base < w'.expire_tick)
            × (w'.expire_tick ≤ base + wheel_size)
            × (w'.expire_tick % wheel_size ≡ 0)))

schedule_next_timeout_in_reactor-IsNext :
    (w : Wheel) (base fresh : ℕ)
    → IsMarked w
    → IsNext w base fresh (schedule_next_timeout_in_reactor w base fresh)
unfolding schedule_next_timeout_in_reactor
schedule_next_timeout_in_reactor-IsNext w base fresh m =
    elim (Option-cases (find_first wheel_size 0 w.first_bucket_bit_set)) [
      | inl nothing ↦
          rw (nothing, schedule_next_timeout_in_reactor)
            (
              _,
              fresh,
              refl,
              m,
              refl,
              inr (
                refl,
                λ slot lt. empty slot (
                    find_first-none wheel_size 0 w.first_bucket_bit_set nothing slot (omega arith)
                      (omega arith)),
                omega arith,
                omega arith,
                omega arith,
              ),
            )
      | inr (slot, found) ↦ go slot found (w.handlers 0 slot) refl
    ]
  where
    empty : (slot : ℕ) → w.first_bucket_bit_set slot ≡ false → is_nil (w.handlers 0 slot) ≡ true
    empty slot bare = flip_not (is_nil (w.handlers 0 slot)) (sym (m slot) ∙ bare)

    go :
        (slot : ℕ)
        → find_first wheel_size 0 w.first_bucket_bit_set ≡ some slot
        → (hs : List ℕ) → w.handlers 0 slot ≡ hs
        → IsNext w base fresh (schedule_next_timeout_in_reactor w base fresh)
    go slot found [] e = absurd (
        false≢true (
          ap (λ hs. not (is_nil hs)) (sym e)
          ∙ sym (m slot)
          ∙ find_first_set wheel_size 0 w.first_bucket_bit_set slot found))
    go slot found (h ∷ hs) e =
        rw (found, schedule_next_timeout_in_reactor)
          (rw (e, schedule_next_timeout_in_reactor)
            (_, h, refl, m, refl, inl (slot, rw e (first_mem h hs), refl)))

-- The wheel in which the handler was put.
abbrev pub scheduled : Wheel → ℕ → ℕ → ℕ → Wheel
scheduled w now handler timeout =
    schedule_timeout_impl (record w { expiration = update w.expiration handler (now + timeout) })
      handler (tick_of w now) (timeout / w.interval + tick_of w now)

-- The first wheel's handlers are in the second.
abbrev pub Keeps : Wheel → Wheel → Type 0
Keeps w w' = (k : ℕ) → Holds w k → Holds w' k

same_lists : (w w' : Wheel) (k : ℕ) → w'.handlers ≡ w.handlers → Holds w k → Holds w' k
same_lists w w' k e (bucket, slot, there) =
    (bucket, slot, ap (λ lists. mem (lists bucket slot) k) e ∙ there)

-- What becomes of the lists of the wheel.
abbrev pub HasPut : Wheel → ℕ → Option (Wheel × ℕ) → Type 0
HasPut w handler answer =
    (w' : Wheel) × (h : ℕ) × (answer ≡ some (w', h)) × Holds w' handler × Keeps w w'

IsNext-HasPut :
    (w s : Wheel) (base handler fresh : ℕ) (answer : Option (Wheel × ℕ))
    → Holds s handler
    → Keeps w s
    → IsNext s base fresh answer
    → HasPut w handler answer
IsNext-HasPut w s base handler fresh answer held keeps (w', h, e, m, lists, given) = (
  w',
  h,
  e,
  same_lists s w' handler lists held,
  λ k there. same_lists s w' k lists (keeps k there),
)

-- In a wheel in which a bit is set exactly when the list of its slot in the first bucket is not empty,
-- scheduleTimeout of a handler that is in none of its lists does not fault. In the wheel that it leaves
-- the bits are so again, the handler is in a list, and so is each handler that was in one. It gives the
-- reactor a handler of the first bucket, whose tick is then the wheel's next; or, where the first
-- bucket is empty, the new handler, and the wheel's next tick is the next multiple of 256 after that of
-- now.
pub schedule_timeout-IsNext :
    (w : Wheel) (now handler timeout fresh : ℕ)
    → IsMarked w
    → is_linked w handler ≡ false
    → IsNext
        (scheduled w now handler timeout)
        (tick_of w now)
        fresh
        (schedule_timeout w now handler timeout fresh)
      × HasPut w handler (schedule_timeout w now handler timeout fresh)
unfolding schedule_timeout schedule_timeout_impl
schedule_timeout-IsNext w now handler timeout fresh m unlinked =
    let w' = record w { expiration = update w.expiration handler (now + timeout) } in
    let expire = timeout / w.interval + tick_of w now in
    let (bucket, slot) = place (tick_of w now) expire in
    let given =
      schedule_next_timeout_in_reactor-IsNext (scheduled w now handler timeout) (tick_of w now)
        fresh (schedule-IsMarked w' handler (tick_of w now) expire m) in
    rw (unlinked, schedule_timeout)
      (
        given,
        IsNext-HasPut w (scheduled w now handler timeout) (tick_of w now) handler fresh _
            (put_in-Holds w' handler bucket slot) (put_in_keeps w' handler bucket slot) given,
      )
