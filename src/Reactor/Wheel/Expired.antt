-- ===== src/Reactor/Wheel/Expired.antt =====
-- No handler is lost by the loop of `timeoutExpired` in src/reactor/HHWheelTimer.cpp.
use unp.Base.{
  ℕ, zero, suc, ◌-◌, ◌/◌, ◌%◌, ◌^◌, ◌<◌, ◌≡◌, refl, ◌⊎◌, Bool, true, false, false≢true, Option,
  some, List, [], ◌∷◌, ◌++◌, inl, inr, Bool-cases, arith, ◌==◌, ==-eq, leb, leb→le, if◌then◌else◌,
}
use unp.Reactor.Assoc.{mem}
use unp.Reactor.Wheel.{
  Wheel, wheel_size, update_slot, cascade_timers, cascade_all, expired_of, expire_round,
  expire_loop,
}
use unp.Reactor.Wheel.Marked.{IsMarked, expire_round-IsAt, expire_loop-Past}
use unp.Reactor.Wheel.Kept.{Holds, mem-append-left, cascade_timers_keeps}

mem-append-right : (xs ys : List ℕ) (h : ℕ) → mem ys h ≡ true → mem (xs ++ ys) h ≡ true
mem-append-right [] ys h e = e
mem-append-right (x ∷ xs) ys h e = elim (Bool-cases (h == x)) [
  | inl same ↦ rw same refl
  | inr other ↦ rw other (mem-append-right xs ys h e)
]

expired_of_lem :
    (hs : List ℕ) (h k : ℕ)
    → (k == h) ≡ false
    → mem hs k ≡ true
    → mem (expired_of hs h false) k ≡ true
unfolding expired_of
expired_of_lem [] h k other e = absurd (false≢true e)
expired_of_lem (x ∷ hs) h k other e = elim (Bool-cases (k == x)) [
  | inl same ↦
      let stays : (x == h) ≡ false = rw (==-eq k x same) at other in
      rw (stays, expired_of) (rw same refl)
  | inr not_here ↦ elim (Bool-cases (x == h)) [
    | inl gone ↦ rw (gone, expired_of) (expired_of_lem hs h k other (rw not_here at e))
    | inr stays ↦
        rw (stays, expired_of) (rw not_here (expired_of_lem hs h k other (rw not_here at e)))
  ]
]

either_keeps :
    (b : Bool) (x y : Wheel) (k : ℕ) → Holds x k → Holds y k → Holds (if b then x else y) k
either_keeps true x y k hx hy = hx
either_keeps false x y k hx hy = hy

cascade_all_keeps : (w : Wheel) (cur k : ℕ) → Holds w k → Holds (cascade_all w cur) k
unfolding cascade_all
cascade_all_keeps w cur k held =
    let s1 = w.expire_tick / 2 ^ 8 % wheel_size in
    let s2 = w.expire_tick / 2 ^ 16 % wheel_size in
    let s3 = w.expire_tick / 2 ^ 24 % wheel_size in
    let w1 = (cascade_timers w 1 s1 cur).0 in
    let w2 = (cascade_timers w1 2 s2 cur).0 in
    let w3 = (cascade_timers w2 3 s3 cur).0 in
    let h1 = cascade_timers_keeps w 1 s1 cur k held in
    let h2 = cascade_timers_keeps w1 2 s2 cur k h1 in
    let h3 = cascade_timers_keeps w2 3 s3 cur k h2 in
    either_keeps (cascade_timers w 1 s1 cur).1 (if (cascade_timers w1 2 s2 cur).1 then w3 else w2)
      w1 k (either_keeps (cascade_timers w1 2 s2 cur).1 w3 w2 k h3 h2) h1

-- After a round a handler is in the wheel, or has expired.
expire_round_keeps :
    (w : Wheel) (h cur k : ℕ)
    → (k == h) ≡ false
    → Holds w k
    → Holds (expire_round w h false cur).0 k ⊎ (mem (expire_round w h false cur).1 k ≡ true)
unfolding expire_round
expire_round_keeps w h cur k other held =
    let index = w.expire_tick % wheel_size in
    let w' = if index == 0 then cascade_all w cur else w in
    elim (Bool-cases (w'.first_bucket_bit_set index)) [
      | inr bare ↦ rw (bare, expire_round) (inl (kept index))
      | inl full ↦ rw (full, expire_round) (swapped_out w' index (kept index))
    ]
  where
    kept : (index : ℕ) → Holds (if index == 0 then cascade_all w cur else w) k
    kept index =
        either_keeps (index == 0) (cascade_all w cur) w k (cascade_all_keeps w cur k held) held

    swapped_out :
        (w' : Wheel) (index : ℕ)
        → Holds w' k
        → ((b : ℕ) × (s : ℕ) × (mem (update_slot w'.handlers 0 index [] b s) k ≡ true))
          ⊎ (mem (expired_of (w'.handlers 0 index) h false) k ≡ true)
    swapped_out w' index (b, s, e) = elim (Bool-cases (b == 0)) [
      | inr above ↦ inl (b, s, rw above e)
      | inl first ↦ elim (Bool-cases (s == index)) [
        | inr aside ↦ inl (b, s, rw first (rw aside e))
        | inl here ↦ inr (
            expired_of_lem (w'.handlers 0 index) h k other
              (rw (==-eq b 0 first, ==-eq s index here) at e))
      ]
    ]

-- The loop ends, with the handler in the wheel or expired.
abbrev pub Safe : ℕ → Option (Wheel × List ℕ) → Type 0
Safe k answer =
    (w : Wheel) × (expired : List ℕ) × (answer ≡ some (w, expired))
    × (Holds w k ⊎ (mem expired k ≡ true))

-- No handler is lost: in a wheel in which a bit is set exactly when the list of its slot in the first
-- bucket is not empty, the loop of timeoutExpired ends, with fuel for one round more than there are
-- ticks to look at, and a handler that was in the wheel, other than the one that the reactor called and
-- that is not registered again, is still in the wheel or has expired.
pub expire_loop-Safe :
    (fuel : ℕ) (w : Wheel) (h cur k : ℕ)
    → IsMarked w
    → suc cur - w.expire_tick < fuel
    → (k == h) ≡ false
    → Holds w k
    → Safe k (expire_loop fuel w h false cur)
unfolding expire_loop
expire_loop-Safe zero w h cur k m lt other held = absurd (omega arith)
expire_loop-Safe (suc fuel) w h cur k m lt other held = elim (Bool-cases (leb w.expire_tick cur)) [
  | inr late ↦ rw (late, expire_loop) (w, [], refl, inl held)
  | inl early ↦
      let round = expire_round w h false cur in
      let (mark, at) = expire_round-IsAt w w.expire_tick h cur false (m, refl) in
      let fewer : suc cur - round.0.expire_tick < fuel =
        omega (arith, at, leb→le w.expire_tick cur early) in
      elim (expire_round_keeps w h cur k other held) [
        | inl there ↦
            let (w2, later, e, where_now) =
              expire_loop-Safe fuel round.0 h cur k mark fewer other there in
            rw (early, expire_loop)
              (rw (e, expire_loop)
                (
                  w2,
                  round.1 ++ later,
                  refl,
                  elim where_now [
                    | inl inside ↦ inl inside
                    | inr found ↦ inr (mem-append-right round.1 later k found)
                  ],
                ))
        | inr found ↦
            let (w2, later, e, _, _) = expire_loop-Past fuel round.0 h cur false mark fewer in
            rw (early, expire_loop)
              (rw (e, expire_loop)
                (w2, round.1 ++ later, refl, inr (mem-append-left round.1 later k found)))
      ]
]
