-- ===== src/Base/Bits.antt =====
-- Masks: setting bits and clearing them again.
use Prim.Native.Nat.{
  ℕ, zero, suc, ◌+◌, ◌-◌, ◌*◌, ◌/◌, ◌%◌, ◌^◌, ◌≤◌, ◌<◌, min, max, bit_and, bit_or, digits,
  bit_and-bitwise, bit_or-bitwise,
}
use mathlib.Core.Path.{◌≡◌, refl, ap}
use native.Mathlib.Omega.{arith}

-- The result does not depend on how many rounds are allowed, once the left number fits in them.
rounds_lem :
    (end : ℕ → ℕ) (op : ℕ → ℕ → ℕ) (more less x y : ℕ)
    → x ≤ less
    → less ≤ more
    → digits end op more x y ≡ digits end op less x y
rounds_lem end op zero zero x y fits le = refl
rounds_lem end op zero (suc less) x y fits le = absurd (omega arith)
rounds_lem end op (suc more) zero zero y fits le = refl
rounds_lem end op (suc more) zero (suc x) y fits le = absurd (omega arith)
rounds_lem end op (suc more) (suc less) zero y fits le = refl
rounds_lem end op (suc more) (suc less) (suc x) y fits le =
    let rest = rounds_lem end op more less (suc x / 2) (y / 2) (omega arith) (omega arith) in
    omega (arith, rest)

-- What an operation does to the lowest digits, and to the numbers without them.
pub bit_and_step : (x y : ℕ) → bit_and x y ≡ min (x % 2) (y % 2) + 2 * bit_and (x / 2) (y / 2)
bit_and_step zero y = omega (arith, bit_and-bitwise 0 y, bit_and-bitwise 0 (y / 2))
bit_and_step (suc x) y =
    let fewer =
      rounds_lem (λ _. 0) min x (suc x / 2) (suc x / 2) (y / 2) (omega arith) (omega arith) in
    let half = bit_and-bitwise (suc x / 2) (y / 2) in
    omega (arith, bit_and-bitwise (suc x) y, half, fewer)

pub bit_or_step : (x y : ℕ) → bit_or x y ≡ max (x % 2) (y % 2) + 2 * bit_or (x / 2) (y / 2)
bit_or_step zero y = omega (arith, bit_or-bitwise 0 y, bit_or-bitwise 0 (y / 2))
bit_or_step (suc x) y =
    let fewer =
      rounds_lem (λ d. d) max x (suc x / 2) (suc x / 2) (y / 2) (omega arith) (omega arith) in
    let half = bit_or-bitwise (suc x / 2) (y / 2) in
    omega (arith, bit_or-bitwise (suc x) y, half, fewer)

-- Nothing is common with 0; `rounds` bounds the number.
no_common : (rounds x : ℕ) → x ≤ rounds → bit_and x 0 ≡ 0
no_common rounds zero le = omega (arith, bit_and-bitwise 0 0)
no_common zero (suc x) le = absurd (omega arith)
no_common (suc rounds) (suc x) le =
    let halves = no_common rounds (suc x / 2) (omega arith) in
    omega (arith, halves, bit_and_step (suc x) 0)

and_same_fuel : (n e : ℕ) → e ≤ n → bit_and e e ≡ e
and_same_fuel n zero h = bit_and-bitwise 0 0
and_same_fuel zero (suc e) h = absurd (omega arith)
and_same_fuel (suc n) (suc e) h =
    omega (arith, bit_and_step (suc e) (suc e), and_same_fuel n (suc e / 2) (omega arith))

pub bit_and_same : (e : ℕ) → bit_and e e ≡ e
bit_and_same e = and_same_fuel e e (omega arith)

bit_or-half : (a e : ℕ) → bit_or a e / 2 ≡ bit_or (a / 2) (e / 2)
bit_or-half a e = omega (arith, bit_or_step a e)

-- The bits that were set are there.
and-or_fuel : (n a e : ℕ) → e ≤ n → bit_and (bit_or a e) e ≡ e
and-or_fuel n a zero h = no_common (bit_or a 0) (bit_or a 0) (omega arith)
and-or_fuel zero a (suc e) h = absurd (omega arith)
and-or_fuel (suc n) a (suc e) h = omega (
  arith,
  bit_and_step (bit_or a (suc e)) (suc e),
  bit_or_step a (suc e),
  ap (λ x. bit_and x (suc e / 2)) (bit_or-half a (suc e)),
  and-or_fuel n (a / 2) (suc e / 2) (omega arith),
)

pub bit_and-bit_or : (a e : ℕ) → bit_and (bit_or a e) e ≡ e
bit_and-bit_or a e = and-or_fuel e a e (omega arith)

-- `a & ~e` of numbers of `w` bits.
abbrev pub clear_bits : ℕ → ℕ → ℕ → ℕ
clear_bits w a e = bit_and a (2 ^ w - 1 - e)

clear_bits-half :
    (w a e : ℕ) → e < 2 ^ suc w → clear_bits (suc w) a e / 2 ≡ clear_bits w (a / 2) (e / 2)
clear_bits-half w a e h =
    omega (arith, bit_and_step a (2 ^ suc w - 1 - e), ap (bit_and (a / 2)) half)
  where
    half : (2 ^ suc w - 1 - e) / 2 ≡ 2 ^ w - 1 - e / 2
    half = omega arith

pub bit_and-clear_bits : (w a e : ℕ) → e < 2 ^ w → bit_and (clear_bits w a e) e ≡ 0
bit_and-clear_bits zero a zero h =
    no_common (clear_bits zero a zero) (clear_bits zero a zero) (omega arith)
bit_and-clear_bits zero a (suc e) h = absurd (omega arith)
bit_and-clear_bits (suc w) a e h = omega (
  arith,
  bit_and_step (clear_bits (suc w) a e) e,
  bit_and_step a (2 ^ suc w - 1 - e),
  ap (λ x. bit_and x (e / 2)) (clear_bits-half w a e h),
  bit_and-clear_bits w (a / 2) (e / 2) (omega arith),
)
