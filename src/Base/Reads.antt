-- ===== src/Base/Reads.antt =====
-- Reads of a list after a write.
use Prim.Native.Nat.{ℕ, zero, suc, ◌<◌}
use mathlib.Core.Path.{◌≡◌, refl, ◌∙◌}
use mathlib.Core.List.{List, [], ◌∷◌}
use mathlib.Core.Option.{some, none-ne-some}
use native.Mathlib.Omega.{arith}
use unp.Base.Lists.{length, get_elem?, set}
use unp.Base.Tests.{◌==◌, if◌then◌else◌}

module _ {ℓ} {A : Type ℓ} where
  pub get-set :
      (xs : List A) (i : ℕ) (v : A) (j : ℕ)
      → i < length xs
      → get_elem? (set xs i v) j ≡ (if j == i then some v else get_elem? xs j)
  get-set [] i v j h = absurd (omega arith)
  get-set (x ∷ xs) zero v zero h = refl
  get-set (x ∷ xs) zero v (suc j) h = ground arith
  get-set (x ∷ xs) (suc i) v zero h = ground arith
  get-set (x ∷ xs) (suc i) v (suc j) h = get-set xs i v j (omega arith) ∙ ground arith

  pub get_below : (xs : List A) (i : ℕ) → i < length xs → (a : A) × (get_elem? xs i ≡ some a)
  get_below [] i h = absurd (omega arith)
  get_below (x ∷ xs) zero h = (x, refl)
  get_below (x ∷ xs) (suc i) h = get_below xs i (omega arith)

  pub get_inside : (xs : List A) (i : ℕ) (a : A) → get_elem? xs i ≡ some a → i < length xs
  get_inside [] i a e = absurd (none-ne-some a e)
  get_inside (x ∷ xs) zero a e = omega arith
  get_inside (x ∷ xs) (suc i) a e = omega (arith, get_inside xs i a e)
