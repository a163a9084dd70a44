-- ===== src/Reactor/Wheel/Due.antt =====
-- The arithmetic of the slots in which `scheduleTimeoutImpl_` of src/reactor/HHWheelTimer.cpp puts a timeout. A slot
-- of bucket `b` stands for 256 ^ b ticks, at the first of which it is due; that the wheel comes to this tick
-- is not said.
use unp.Base.{
  ℕ, zero, suc, lt→ltb, ◌+◌, ◌-◌, ◌*◌, ◌/◌, ◌%◌, ◌^◌, ◌≤◌, ◌<◌, ◌≡◌, refl, inl, inr, Bool-cases,
  arith, ltb, ltb→lt, ltb→le, le→ltb,
}
use unp.Reactor.Wheel.{wheel_size, largest_slot, place}

-- The ticks of a slot of a bucket.
abbrev pub span : ℕ → ℕ
span bucket = 256 ^ bucket

-- Its slot is due first at a tick from `base` on that is not after `expire`, and with less than one span
-- between them.
pub record IsDue (base expire : ℕ) (p : ℕ × ℕ) : Type 0 where
  pub bucket_in : p.0 < 4
  pub slot_in : p.1 < wheel_size
  pub from_base : base ≤ expire / span p.0 * span p.0
  pub near : expire < expire / span p.0 * span p.0 + span p.0
  pub at_slot : expire / span p.0 % wheel_size ≡ p.1
  pub first_due :
      (tick : ℕ)
      → base ≤ tick
      → tick % span p.0 ≡ 0
      → tick / span p.0 % wheel_size ≡ p.1
      → expire / span p.0 * span p.0 ≤ tick

bucket_0-IsDue :
    (base expire : ℕ) → base ≤ expire → expire - base < 256 → IsDue base expire (0, expire % 256)
bucket_0-IsDue base expire le near = record {
  bucket_in = omega arith;
  slot_in = omega arith;
  from_base = omega arith;
  near = omega arith;
  at_slot = omega arith;
  first_due = λ tick later whole slot. omega arith;
}

bucket_1-IsDue :
    (base expire : ℕ)
    → base + 256 ≤ expire
    → expire - base < 2 ^ 16
    → IsDue base expire (1, expire / 2 ^ 8 % 256)
bucket_1-IsDue base expire le near = record {
  bucket_in = omega arith;
  slot_in = omega arith;
  from_base = omega arith;
  near = omega arith;
  at_slot = omega arith;
  first_due = λ tick later whole slot. omega arith;
}

bucket_2-IsDue :
    (base expire : ℕ)
    → base + 2 ^ 16 ≤ expire
    → expire - base < 2 ^ 24
    → IsDue base expire (2, expire / 2 ^ 16 % 256)
bucket_2-IsDue base expire le near = record {
  bucket_in = omega arith;
  slot_in = omega arith;
  from_base = omega arith;
  near = omega arith;
  at_slot = omega arith;
  first_due = λ tick later whole slot. omega arith;
}

bucket_3-IsDue :
    (base expire : ℕ)
    → base + 2 ^ 24 ≤ expire
    → expire - base < 2 ^ 32
    → IsDue base expire (3, expire / 2 ^ 24 % 256)
bucket_3-IsDue base expire le near = record {
  bucket_in = omega arith;
  slot_in = omega arith;
  from_base = omega arith;
  near = omega arith;
  at_slot = omega arith;
  first_due = λ tick later whole slot. omega arith;
}

-- A timeout that expires from 0 to 2 ^ 32 - 1 ticks after the base tick is put in a bucket b below 4
-- and a slot below 256 of it, and the first multiple of 256 ^ b from the base tick on to which this
-- slot belongs is the last one that is not after the expiry.
pub place-IsDue :
    (base expire : ℕ)
    → base ≤ expire
    → expire - base ≤ largest_slot
    → IsDue base expire (place base expire)
unfolding place
place-IsDue base expire le near =
    rw (le→ltb expire base le, place)
      (elim (Bool-cases (ltb (expire - base) wheel_size)) [
        | inl b0 ↦ rw b0 (bucket_0-IsDue base expire le (ltb→lt _ _ b0))
        | inr n0 ↦ rw n0 (elim (Bool-cases (ltb (expire - base) (2 ^ 16))) [
          | inl b1 ↦
              rw b1 (bucket_1-IsDue base expire (omega (arith, ltb→le _ _ n0)) (ltb→lt _ _ b1))
          | inr n1 ↦ rw n1 (elim (Bool-cases (ltb (expire - base) (2 ^ 24))) [
            | inl b2 ↦
                rw b2 (bucket_2-IsDue base expire (omega (arith, ltb→le _ _ n1)) (ltb→lt _ _ b2))
            | inr n2 ↦ rw n2 (
                rw (le→ltb largest_slot (expire - base) near)
                  (bucket_3-IsDue base expire (omega (arith, ltb→le _ _ n2)) (omega arith)))
          ])
        ])
      ])

-- How near a tick is bounds the bucket.
place-near_0 : (base expire : ℕ) → base ≤ expire → expire - base < 2 ^ 8 → (place base expire).0 ≡ 0
unfolding place
place-near_0 base expire le near =
    rw (le→ltb expire base le, place) (rw (lt→ltb (expire - base) wheel_size near) refl)

place-near_1 :
    (base expire : ℕ) → base ≤ expire → expire - base < 2 ^ 16 → (place base expire).0 ≤ 1
unfolding place
place-near_1 base expire le near =
    rw (le→ltb expire base le, place)
      (elim (Bool-cases (ltb (expire - base) wheel_size)) [
        | inl b0 ↦ rw b0 (omega arith)
        | inr n0 ↦ rw n0 (rw (lt→ltb (expire - base) (2 ^ 16) near) (omega arith))
      ])

place-near_2 :
    (base expire : ℕ) → base ≤ expire → expire - base < 2 ^ 24 → (place base expire).0 ≤ 2
unfolding place
place-near_2 base expire le near =
    rw (le→ltb expire base le, place)
      (elim (Bool-cases (ltb (expire - base) wheel_size)) [
        | inl b0 ↦ rw b0 (omega arith)
        | inr n0 ↦ rw n0 (elim (Bool-cases (ltb (expire - base) (2 ^ 16))) [
          | inl b1 ↦ rw b1 (omega arith)
          | inr n1 ↦ rw n1 (rw (lt→ltb (expire - base) (2 ^ 24) near) (omega arith))
        ])
      ])

lower :
    (bucket expire : ℕ)
    → 1 ≤ bucket
    → bucket < 4
    → (place (expire / span bucket * span bucket) expire).0 < bucket
lower zero expire some_bucket lt = absurd (omega arith)
lower (suc zero) expire some_bucket lt =
    omega (arith, place-near_0 (expire / 2 ^ 8 * 2 ^ 8) expire (omega arith) (omega arith))
lower (suc (suc zero)) expire some_bucket lt =
    omega (arith, place-near_1 (expire / 2 ^ 16 * 2 ^ 16) expire (omega arith) (omega arith))
lower (suc (suc (suc zero))) expire some_bucket lt =
    omega (arith, place-near_2 (expire / 2 ^ 24 * 2 ^ 24) expire (omega arith) (omega arith))
lower (suc (suc (suc (suc bucket)))) expire some_bucket lt = absurd (omega arith)

-- A timeout that expires from 0 to 2 ^ 32 - 1 ticks after the base tick and is not put in the first
-- bucket is put in a lower bucket from the tick on at which its slot is due.
pub place_descends :
    (base expire : ℕ)
    → base ≤ expire
    → expire - base ≤ largest_slot
    → 1 ≤ (place base expire).0
    → (let g = span (place base expire).0 in
        (place (expire / g * g) expire).0 < (place base expire).0)
place_descends base expire le near above =
    lower (place base expire).0 expire above (place-IsDue base expire le near).bucket_in
