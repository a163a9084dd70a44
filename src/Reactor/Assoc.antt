-- ===== src/Reactor/Assoc.antt =====
-- `std::map` and `std::set` over numbers, as lists without an order.
use unp.Base.{
  ℕ, zero, suc, ◌<◌, ◌≡◌, refl, ◌∙◌, Bool, true, false, Option, none, some, List, [], ◌∷◌, ◌++◌,
  arith, length, replicate, set, get_or, ◌==◌, if◌then◌else◌, ==-eq,
}

module _ {ℓ} {A : Type ℓ} where
  abbrev pub lookup : List (ℕ × A) → ℕ → Option A
  lookup [] k = none
  lookup ((j, a) ∷ m) k = if k == j then some a else lookup m k

  abbrev pub erase : List (ℕ × A) → ℕ → List (ℕ × A)
  erase [] k = []
  erase ((j, a) ∷ m) k = let rest = erase m k in if k == j then rest else (j, a) ∷ rest

  abbrev pub put : List (ℕ × A) → ℕ → A → List (ℕ × A)
  put m k a = (k, a) ∷ erase m k

abbrev pub mem : List ℕ → ℕ → Bool
mem [] k = false
mem (x ∷ xs) k = if k == x then true else mem xs k

abbrev pub insert : List ℕ → ℕ → List ℕ
insert xs k = if mem xs k then xs else k ∷ xs

abbrev pub discard : List ℕ → ℕ → List ℕ
discard [] k = []
discard (x ∷ xs) k = let rest = discard xs k in if k == x then rest else x ∷ rest

abbrev pub is_nil {ℓ} : {A : Type ℓ} → List A → Bool
is_nil [] = true
is_nil (x ∷ xs) = false

module _ {ℓ} {A : Type ℓ} where
  pub lookup-erase :
      (m : List (ℕ × A)) (k j : ℕ) → lookup (erase m k) j ≡ (if j == k then none else lookup m j)
  lookup-erase [] k j = ground arith
  lookup-erase ((i, a) ∷ m) k j = ground (arith, lookup-erase m k j)

  pub lookup-put :
      (m : List (ℕ × A)) (k : ℕ) (a : A) (j : ℕ)
      → lookup (put m k a) j ≡ (if j == k then some a else lookup m j)
  lookup-put m k a j = ground (arith, lookup-erase m k j)

  -- The row of an index, the empty one past the end.
  pub get_or-resize :
      (xs : List A) (n i : ℕ) (d : A) → get_or (xs ++ replicate n d) i d ≡ get_or xs i d
  get_or-resize [] zero i d = refl
  get_or-resize [] (suc n) zero d = refl
  get_or-resize [] (suc n) (suc i) d = get_or-resize [] n i d
  get_or-resize (x ∷ xs) n zero d = refl
  get_or-resize (x ∷ xs) n (suc i) d = get_or-resize xs n i d

  pub get_or-set :
      (xs : List A) (i : ℕ) (v : A) (j : ℕ) (d : A)
      → i < length xs
      → get_or (set xs i v) j d ≡ (if j == i then v else get_or xs j d)
  get_or-set [] i v j d h = absurd (omega arith)
  get_or-set (x ∷ xs) zero v zero d h = refl
  get_or-set (x ∷ xs) zero v (suc j) d h = ground arith
  get_or-set (x ∷ xs) (suc i) v zero d h = ground arith
  get_or-set (x ∷ xs) (suc i) v (suc j) d h = get_or-set xs i v j d (omega arith) ∙ ground arith

pub mem-insert : (xs : List ℕ) (k j : ℕ) → mem (insert xs k) j ≡ (if j == k then true else mem xs j)
mem-insert xs k j = ground (arith, ==-eq j k)

pub mem-discard :
    (xs : List ℕ) (k j : ℕ) → mem (discard xs k) j ≡ (if j == k then false else mem xs j)
mem-discard [] k j = ground arith
mem-discard (x ∷ xs) k j = ground (arith, mem-discard xs k j)
