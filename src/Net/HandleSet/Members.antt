-- ===== src/Net/HandleSet/Members.antt =====
-- What set_bit and unset_bit of src/net/handle_set.h keep: the count of the handles, and the greatest one.
use unp.Base.{
  ℕ, zero, suc, ◌≤◌, ◌<◌, ◌≡◌, ◌⊎◌, refl, sym, ap, ◌∙◌, inl, inr, Bool, true, false, false≢true,
  Bool-cases, Option, none, some, none-ne-some, some-injective, List, [], ◌∷◌, arith, length,
  get_elem?, get-set, get_below, set, replicate, length-set, length-replicate, ltb, ◌==◌, ==-eq,
  ltb→lt, ltb→le, if◌then◌else◌,
}
use unp.Base.Int.{pos}
use unp.Buffer.Chain.{◌>>=◌}
use unp.Reactor.Epoll.{increment}
use unp.Net.HandleSet.{HandleSet, fd_setsize, reset, is_set, above, set_bit}

abbrev pub count : List Bool → ℕ
count [] = 0
count (b ∷ bits) = if b then suc (count bits) else count bits

-- `m` is the greatest handle among the bits.
abbrev pub IsMax : Option ℕ → List Bool → Type 0
IsMax none bits = (j : ℕ) → get_elem? bits j ≡ some true → ⊥
IsMax (some m) bits =
    (get_elem? bits m ≡ some true) × ((j : ℕ) → get_elem? bits j ≡ some true → j ≤ m)

pub record IsHandles (s : HandleSet) : Type 0 where
  pub block : length s.bits ≡ fd_setsize
  pub size : s.size ≡ pos (count s.bits)
  pub greatest : IsMax s.max_handle s.bits

count-set :
    (bits : List Bool) (i : ℕ)
    → get_elem? bits i ≡ some false
    → count (set bits i true) ≡ suc (count bits)
count-set [] i e = absurd (none-ne-some _ e)
count-set (b ∷ bits) zero e = rw (some-injective _ _ e) refl
count-set (true ∷ bits) (suc i) e = ap suc (count-set bits i e)
count-set (false ∷ bits) (suc i) e = count-set bits i e

pub count_unset :
    (bits : List Bool) (i : ℕ)
    → get_elem? bits i ≡ some true
    → count bits ≡ suc (count (set bits i false))
count_unset [] i e = absurd (none-ne-some _ e)
count_unset (b ∷ bits) zero e = rw (some-injective _ _ e) refl
count_unset (true ∷ bits) (suc i) e = ap suc (count_unset bits i e)
count_unset (false ∷ bits) (suc i) e = count_unset bits i e

-- The handles of `s'` are those of `s`, and `handle` is one exactly if `b`.
abbrev pub Changed : HandleSet → HandleSet → ℕ → Bool → Type 0
Changed s s' handle b = (j : ℕ) → is_set s' j ≡ (if j == handle then some b else is_set s j)

pub reset-IsHandles : IsHandles reset
unfolding reset
reset-IsHandles = record {
  block = length-replicate fd_setsize false;
  size = refl;
  greatest = λ j e. absurd (no_bit fd_setsize j e);
}
  where
    no_bit : (n j : ℕ) → get_elem? (replicate n false) j ≡ some true → ⊥
    no_bit zero j e = none-ne-some _ e
    no_bit (suc n) zero e = false≢true (some-injective _ _ e)
    no_bit (suc n) (suc j) e = no_bit n j e

-- A bit after a change, by the test of the index.
pub same_bit :
    (bits : List Bool) (i : ℕ) (b : Bool) (j : ℕ)
    → get_elem? bits i ≡ some b
    → get_elem? bits j ≡ (if j == i then some b else get_elem? bits j)
same_bit bits i b j e = elim (Bool-cases (j == i)) [
  | inl h ↦ rw h (ap (λ k. get_elem? bits k) (==-eq j i h) ∙ e)
  | inr h ↦ rw h refl
]

-- A handle in the changed set is the new one, or was there before.
added_or_old :
    (bits : List Bool) (i j : ℕ)
    → i < length bits
    → get_elem? (set bits i true) j ≡ some true
    → (j ≡ i) ⊎ (get_elem? bits j ≡ some true)
added_or_old bits i j h e = elim (Bool-cases (j == i)) [
  | inl k ↦ inl (==-eq j i k)
  | inr k ↦
      inr
        (sym (get-set bits i true j h ∙ ap (λ t. if t then some true else get_elem? bits j) k) ∙ e)
]

still_there :
    (bits : List Bool) (i j : ℕ)
    → i < length bits
    → get_elem? bits j ≡ some true
    → get_elem? (set bits i true) j ≡ some true
still_there bits i j h e = elim (Bool-cases (j == i)) [
  | inl k ↦ get-set bits i true j h ∙ ap (λ t. if t then some true else get_elem? bits j) k
  | inr k ↦ get-set bits i true j h ∙ ap (λ t. if t then some true else get_elem? bits j) k ∙ e
]

pub new_bit :
    (bits : List Bool) (i : ℕ) (v : Bool) → i < length bits → get_elem? (set bits i v) i ≡ some v
new_bit bits i v h =
    let same : (i == i) ≡ true = ground arith in get-set bits i v i h ∙ rw same refl

set-IsMax :
    (max : Option ℕ) (bits : List Bool) (i : ℕ)
    → i < length bits
    → IsMax max bits
    → IsMax (if above i max then some i else max) (set bits i true)
set-IsMax none bits i h g = (
  new_bit bits i true h,
  λ j e. elim (added_or_old bits i j h e) [
    | inl same ↦ omega (arith, same)
    | inr old ↦ absurd (g j old)
  ],
)
set-IsMax (some m) bits i h g = elim (Bool-cases (ltb m i)) [
  | inl more ↦ rw more (
    new_bit bits i true h,
    λ j e. elim (added_or_old bits i j h e) [
      | inl same ↦ omega (arith, same)
      | inr old ↦ omega (arith, g.1 j old, ltb→lt m i more)
    ],
  )
  | inr less ↦ rw less (
    still_there bits i m h g.0,
    λ j e. elim (added_or_old bits i j h e) [
      | inl same ↦ omega (arith, same, ltb→le m i less)
      | inr old ↦ g.1 j old
    ],
  )
]

-- set_bit of a handle below FD_SETSIZE, in a set that counts its handles and knows the greatest one,
-- does not fault and keeps both right; the set then has the handle beside those it had.
pub set_bit-IsHandles :
    (s : HandleSet) (handle : ℕ)
    → IsHandles s
    → handle < fd_setsize
    → (s' : HandleSet) × (set_bit s (some handle) ≡ some s')
      × IsHandles s'
      × Changed s s' handle true
unfolding set_bit
set_bit-IsHandles s handle v inside =
    let within : handle < length s.bits = omega (arith, v.block) in
    let (b, e) = get_below s.bits handle within in
    elim (Bool-cases b) [
      | inl is_in ↦
          let e' = e ∙ ap some is_in in
          (s, rw (e', ◌>>=◌) refl, v, λ j. same_bit s.bits handle true j e')
      | inr is_out ↦
          let e' = e ∙ ap some is_out in
          (
            record {
              size = increment s.size;
              max_handle = if above handle s.max_handle then some handle else s.max_handle;
              bits = set s.bits handle true;
            },
            rw (e', ◌>>=◌) refl,
            record {
              block = length-set s.bits handle true ∙ v.block;
              size = ap increment v.size ∙ ap pos (sym (count-set s.bits handle e'));
              greatest = set-IsMax s.max_handle s.bits handle within v.greatest;
            },
            λ j. get-set s.bits handle true j within,
          )
    ]
