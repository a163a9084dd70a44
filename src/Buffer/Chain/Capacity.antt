-- ===== src/Buffer/Chain/Capacity.antt =====
-- How much memory a chain gets: the doubling loop of `calculate_actual_capacity`.
use unp.Base.{
  ℕ, zero, suc, ◌*◌, ◌/◌, ◌%◌, ◌^◌, ◌≤◌, ◌<◌, ◌≡◌, ap, arith, u32_mod, ltb, Bool-cases, inl, inr,
  ltb→le, ltb→lt, lt→ltb, refl,
}
use native.Mathlib.Nat.{pow-suc}
use unp.Buffer.Chain.{
  grow_capacity, calculate_actual_capacity, maximum_chain_size, default_chain_size,
}

pow_pos : (fuel : ℕ) → 1 ≤ 2 ^ fuel
pow_pos zero = omega arith
pow_pos (suc fuel) = omega (arith, pow-suc 2 fuel, pow_pos fuel)

-- A doubling that stays within `2 ^ 31` does not wrap.
double_once : (fuel a : ℕ) → a * 2 ^ suc fuel ≡ 2 ^ 31 → (a * 2) % u32_mod ≡ a * 2
double_once fuel a e =
    grind (arith, pow_pos fuel, pow-suc 2 fuel, ap (λ (t : ℕ). a * t) (pow-suc 2 fuel))

double_step : (fuel a : ℕ) → a * 2 ^ suc fuel ≡ 2 ^ 31 → (a * 2) * 2 ^ fuel ≡ 2 ^ 31
double_step fuel a e = omega (arith, ap (λ (t : ℕ). a * t) (pow-suc 2 fuel))

start_le : (fuel a : ℕ) → a * 2 ^ fuel ≡ 2 ^ 31 → a ≤ 2 ^ 31
start_le fuel a e = grind (arith, pow_pos fuel)

grow_capacity_bounds :
    (fuel to_alloc given : ℕ)
    → to_alloc * 2 ^ fuel ≡ 2 ^ 31
    → given < 2 ^ 31
    → (given ≤ grow_capacity fuel to_alloc given)
      × (grow_capacity fuel to_alloc given ≤ 2 ^ 31)
      × (to_alloc ≤ grow_capacity fuel to_alloc given)
unfolding grow_capacity
grow_capacity_bounds zero to_alloc given e h = omega arith
grow_capacity_bounds (suc fuel) to_alloc given e h = elim (Bool-cases (ltb to_alloc given)) [
  | inl more ↦
      let r = grow_capacity_bounds fuel (to_alloc * 2) given (double_step fuel to_alloc e) h in
      rw (more, double_once fuel to_alloc e) (r.0, r.1, omega (arith, r.2))
  | inr done ↦ rw done (ltb→le to_alloc given done, start_le (suc fuel) to_alloc e, omega arith)
]

-- A requested size below 2 ^ 32 gets at least that much, still below 2 ^ 32.
pub calculate_fits :
    (given : ℕ)
    → given < 2 ^ 32
    → (given ≤ calculate_actual_capacity given) × (calculate_actual_capacity given < 2 ^ 32)
unfolding calculate_actual_capacity
calculate_fits given h = elim (Bool-cases (ltb given (maximum_chain_size / 2))) [
  | inl small ↦
      let g : given < 2 ^ 31 = ground arith in
      let r = grow_capacity_bounds 21 default_chain_size given refl g in
      rw small (r.0, omega (arith, r.1))
  | inr large ↦ rw large (omega arith, h)
]

-- The first of `a`, `2 a`, `4 a`, ... that is not below `given`.
pub record FirstDoubling (a given r : ℕ) : Type 0 where
  pub exponent : ℕ
  pub is_doubling : r ≡ a * 2 ^ exponent
  pub enough : given ≤ r
  pub least : (j : ℕ) → j < exponent → a * 2 ^ j < given

grow_capacity_first :
    (fuel a given : ℕ)
    → a * 2 ^ fuel ≡ 2 ^ 31
    → given < 2 ^ 31
    → FirstDoubling a given (grow_capacity fuel a given)
unfolding grow_capacity
grow_capacity_first zero a given e h = record {
  exponent = 0;
  is_doubling = omega arith;
  enough = omega arith;
  least = λ j l. absurd (omega arith);
}
grow_capacity_first (suc fuel) a given e h = elim (Bool-cases (ltb a given)) [
  | inl more ↦
      let r = grow_capacity_first fuel (a * 2) given (double_step fuel a e) h in
      rw (more, double_once fuel a e)
        (record {
          exponent = suc r.exponent;
          is_doubling = omega (arith, r.is_doubling, ap (λ (t : ℕ). a * t) (pow-suc 2 r.exponent));
          enough = r.enough;
          least = least_after a given r.exponent (ltb→lt a given more) r.least;
        })
  | inr done ↦ rw done (record {
    exponent = 0;
    is_doubling = omega arith;
    enough = ltb→le a given done;
    least = λ j l. absurd (omega arith);
  })
]
  where
    least_after :
        (a given k : ℕ)
        → a < given
        → ((j : ℕ) → j < k → (a * 2) * 2 ^ j < given)
        → (j : ℕ) → j < suc k
        → a * 2 ^ j < given
    least_after a given k h p zero l = omega arith
    least_after a given k h p (suc j) l =
        omega (arith, p j (omega arith), ap (λ (t : ℕ). a * t) (pow-suc 2 j))

-- For a request below half of `MAXIMUM_CHAIN_SIZE` the capacity is the first of 1024, 2048, 4096, ...
-- that is not below the request.
pub calculate_doubles :
    (given : ℕ)
    → given < maximum_chain_size / 2
    → FirstDoubling default_chain_size given (calculate_actual_capacity given)
unfolding calculate_actual_capacity
calculate_doubles given h =
    rw (lt→ltb _ _ h) (grow_capacity_first 21 default_chain_size given refl (omega arith))
