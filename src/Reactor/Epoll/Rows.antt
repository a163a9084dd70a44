-- ===== src/Reactor/Epoll/Rows.antt =====
-- How many events the table of src/reactor/poll_demultiplex_table.cpp binds.
use unp.Base.{
  ℕ, zero, suc, ◌+◌, ◌<◌, ◌≡◌, refl, sym, ap, ◌∙◌, Bool, true, false, Option, none, some, List, [],
  ◌∷◌, ◌++◌, inl, inr, Bool-cases, arith, length, replicate, set, get_or, ◌==◌, if◌then◌else◌,
  none-ne-some, ==-eq,
}
use unp.Reactor.Assoc.{lookup, erase, put, lookup-erase}

-- No event twice in a row.
abbrev pub Distinct : List (ℕ × ℕ) → Type 0
Distinct [] = Unit
Distinct ((k, a) ∷ m) = (lookup m k ≡ none) × Distinct m

abbrev pub total : List (List (ℕ × ℕ)) → ℕ
total [] = 0
total (m ∷ t) = length m + total t

erase_absent : (m : List (ℕ × ℕ)) (k : ℕ) → lookup m k ≡ none → erase m k ≡ m
erase_absent [] k e = refl
erase_absent ((j, a) ∷ m) k e = elim (Bool-cases (k == j)) [
  | inl same ↦ absurd (none-ne-some a (sym e ∙ rw same refl))
  | inr other ↦ rw other (ap (λ n. (j, a) ∷ n) (erase_absent m k (sym (rw other refl) ∙ e)))
]

pub length-put :
    (m : List (ℕ × ℕ)) (k a : ℕ) → lookup m k ≡ none → length (put m k a) ≡ suc (length m)
length-put m k a e = ap (λ n. suc (length n)) (erase_absent m k e)

pub length-erase :
    (m : List (ℕ × ℕ)) (k a : ℕ)
    → Distinct m
    → lookup m k ≡ some a
    → suc (length (erase m k)) ≡ length m
length-erase [] k a d e = absurd (none-ne-some a e)
length-erase ((j, b) ∷ m) k a (fresh, d) e = elim (Bool-cases (k == j)) [
  | inl same ↦
      rw same (ap (λ n. suc (length n)) (erase_absent m k (ap (lookup m) (==-eq k j same) ∙ fresh)))
  | inr other ↦ rw other (ap suc (length-erase m k a d (sym (rw other refl) ∙ e)))
]

either_way : (b : Bool) (o : Option ℕ) → (if b then o else o) ≡ o
either_way true o = refl
either_way false o = refl

pub erase-Distinct : (m : List (ℕ × ℕ)) (k : ℕ) → Distinct m → Distinct (erase m k)
erase-Distinct [] k d = d
erase-Distinct ((j, b) ∷ m) k (fresh, d) = elim (Bool-cases (k == j)) [
  | inl same ↦ rw same (erase-Distinct m k d)
  | inr other ↦ rw other (lookup-erase m k j ∙ absent, erase-Distinct m k d)
]
  where
    absent : (if j == k then none else lookup m j) ≡ none
    absent = rw fresh (either_way (j == k) none)

pub put-Distinct : (m : List (ℕ × ℕ)) (k a : ℕ) → Distinct m → Distinct (put m k a)
put-Distinct m k a d = (lookup-erase m k k ∙ ground arith, erase-Distinct m k d)

pub total-resize : (t : List (List (ℕ × ℕ))) (n : ℕ) → total (t ++ replicate n []) ≡ total t
total-resize [] zero = refl
total-resize [] (suc n) = omega (arith, total-resize [] n)
total-resize (m ∷ t) n = ap (λ x. length m + x) (total-resize t n)

pub total-set :
    (t : List (List (ℕ × ℕ))) (h : ℕ) (m : List (ℕ × ℕ))
    → h < length t
    → total (set t h m) + length (get_or t h []) ≡ total t + length m
total-set [] h m lt = absurd (omega arith)
total-set (n ∷ t) zero m lt = omega arith
total-set (n ∷ t) (suc h) m lt = omega (arith, total-set t h m (omega arith))
