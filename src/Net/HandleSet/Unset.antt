-- ===== src/Net/HandleSet/Unset.antt =====
-- What unset_bit of src/net/handle_set.h does, whose loop looks for the greatest handle that is left.
use unp.Base.{
  ℕ, zero, suc, ◌≤◌, ◌<◌, ◌≡◌, ◌≢◌, refl, sym, ap, ◌∙◌, inl, inr, Bool, true, false, false≢true,
  Bool-cases, Option, none, some, some-injective, List, arith, length, get_elem?, get-set,
  get_below, get_inside, set, length-set, ◌==◌, ==-eq, ==-ne, lt→leb, if◌then◌else◌,
}
use unp.Base.Int.{ℤ, pos}
use unp.Buffer.Chain.{◌>>=◌}
use unp.Reactor.Epoll.{decrement}
use unp.Net.HandleSet.{HandleSet, fd_setsize, is_set, search_down, unset_bit}
use unp.Net.HandleSet.Members.{count, IsHandles, Changed, count_unset, same_bit}

not_last :
    (bits : List Bool) (n i : ℕ)
    → i < suc n
    → get_elem? bits n ≡ some false
    → get_elem? bits i ≡ some true
    → i < n
not_last bits n i less out is_in = elim (Bool-cases (i == n)) [
  | inl k ↦ absurd (
      false≢true
        (some-injective _ _ (sym (ap (λ t. get_elem? bits t) (==-eq i n k) ∙ out) ∙ is_in)))
  | inr k ↦ omega (arith, less, ==-ne i n k)
]

-- The loop of unset_bit ends at the greatest handle below where it starts, if there is one.
search_down_lem :
    (bits : List Bool) (n j : ℕ)
    → n ≤ length bits
    → j < n
    → get_elem? bits j ≡ some true
    → (m : ℕ) × (search_down bits n ≡ some m)
      × (get_elem? bits m ≡ some true)
      × ((i : ℕ) → i < n → get_elem? bits i ≡ some true → i ≤ m)
unfolding search_down
search_down_lem bits zero j h below e = absurd (omega (arith, below))
search_down_lem bits (suc n) j h below e =
    let (b, eb) = get_below bits n (omega (arith, h)) in
    elim (Bool-cases b) [
      | inl is_in ↦
          let eb' = eb ∙ ap some is_in in
          (n, rw (eb', ◌>>=◌) refl, eb', λ i less e'. omega (arith, less))
      | inr is_out ↦
          let eb' = eb ∙ ap some is_out in
          let earlier : (i : ℕ) → i < suc n → get_elem? bits i ≡ some true → i < n =
            λ i less e'. not_last bits n i less eb' e' in
          let (m, run, e', top) =
            search_down_lem bits n j (omega (arith, h)) (earlier j below e) e in
          (m, rw (eb', ◌>>=◌) run, e', λ i less ei. top i (earlier i less ei) ei)
    ]

search_down_faults :
    (bits : List Bool) (n : ℕ)
    → n ≤ length bits
    → ((i : ℕ) → i < n → get_elem? bits i ≡ some true → ⊥)
    → search_down bits n ≡ none
unfolding search_down
search_down_faults bits zero h clear = refl
search_down_faults bits (suc n) h clear =
    let (b, eb) = get_below bits n (omega (arith, h)) in
    elim (Bool-cases b) [
      | inl is_in ↦ absurd (clear n (omega arith) (eb ∙ ap some is_in))
      | inr is_out ↦
          let eb' = eb ∙ ap some is_out in
          rw (eb', ◌>>=◌)
            (search_down_faults bits n (omega (arith, h)) (λ i less. clear i (omega (arith, less))))
    ]

-- The handles that are left, when `i` is taken out.
left_over :
    (bits : List Bool) (i j : ℕ)
    → i < length bits
    → get_elem? (set bits i false) j ≡ some true
    → (j ≢ i) × (get_elem? bits j ≡ some true)
left_over bits i j h e = elim (Bool-cases (j == i)) [
  | inl k ↦ absurd (
      false≢true (
        some-injective _ _ (
          sym (get-set bits i false j h ∙ ap (λ t. if t then some false else get_elem? bits j) k)
          ∙ e)))
  | inr k ↦ (
    ==-ne j i k,
    sym (get-set bits i false j h ∙ ap (λ t. if t then some false else get_elem? bits j) k) ∙ e,
  )
]

kept :
    (bits : List Bool) (i j : ℕ)
    → i < length bits
    → (j == i) ≡ false
    → get_elem? bits j ≡ some true
    → get_elem? (set bits i false) j ≡ some true
kept bits i j h other e =
    get-set bits i false j h ∙ ap (λ t. if t then some false else get_elem? bits j) other ∙ e

other_test : (i j : ℕ) → j ≢ i → (j == i) ≡ false
other_test i j other = elim (Bool-cases (j == i)) [
  | inl k ↦ absurd (other (==-eq j i k))
  | inr k ↦ k
]

-- What unset_bit does with a handle of the set.
unset_run :
    (size : ℤ) (max : Option ℕ) (bits : List Bool) (i j : ℕ)
    → let s : HandleSet = record { size = size; max_handle = max; bits = bits } in
      IsHandles s
      → i < fd_setsize
      → get_elem? bits i ≡ some true
      → j ≢ i
      → get_elem? bits j ≡ some true
      → (s' : HandleSet) × (unset_bit s (some i) ≡ some s') × IsHandles s' × Changed s s' i false
unfolding unset_bit
unset_run size none bits i j v inside e other e' = absurd (v.greatest i e)
unset_run size (some m) bits i j v inside e other e' =
    let within : i < length bits = omega (arith, v.block) in
    let size' : decrement size ≡ pos (count (set bits i false)) =
      ap decrement (v.size ∙ ap pos (count_unset bits i e)) in
    let block' = length-set bits i false ∙ v.block in
    elim (Bool-cases (i == m)) [
      | inl last ↦
          let same : i ≡ m = ==-eq i m last in
          let (m', run, bit, top) =
            search_down_lem (set bits i false) (suc i) j
              (omega (arith, length-set bits i false, within))
              (omega (arith, v.greatest.1 j e', same))
              (kept bits i j within (other_test i j other) e') in
          (
            record { size = decrement size; max_handle = some m'; bits = set bits i false },
            rw (lt→leb fd_setsize i inside, e) (rw last (rw (run, ◌>>=◌) refl)),
            record {
              block = block';
              size = size';
              greatest = (
                bit,
                λ k ek.
                    top k (omega (arith, v.greatest.1 k (left_over bits i k within ek).1, same)) ek,
              );
            },
            λ k. get-set bits i false k within,
          )
      | inr inner ↦ (
        record { size = decrement size; max_handle = some m; bits = set bits i false },
        rw (lt→leb fd_setsize i inside, e) (rw inner refl),
        record {
          block = block';
          size = size';
          greatest = (
            kept bits i m within (other_test i m (λ k. ==-ne i m inner (sym k))) v.greatest.0,
            λ k ek. v.greatest.1 k (left_over bits i k within ek).1,
          );
        },
        λ k. get-set bits i false k within,
      )
    ]

-- unset_bit of a handle below FD_SETSIZE, in a set that counts its handles, knows the greatest one and
-- has another handle, does not fault and keeps both right; the set then has those it had but this
-- handle.
pub unset_bit-IsHandles :
    (s : HandleSet) (handle other : ℕ)
    → IsHandles s
    → handle < fd_setsize
    → other ≢ handle
    → is_set s other ≡ some true
    → (s' : HandleSet) × (unset_bit s (some handle) ≡ some s')
      × IsHandles s'
      × Changed s s' handle false
unfolding unset_bit
unset_bit-IsHandles s handle other v inside differs there =
    let (b, e) = get_below s.bits handle (omega (arith, v.block)) in
    elim (Bool-cases b) [
      | inl is_in ↦
          unset_run s.size s.max_handle s.bits handle other v inside (e ∙ ap some is_in) differs
            there
      | inr is_out ↦
          let e' = e ∙ ap some is_out in
          (
            s,
            rw (lt→leb fd_setsize handle inside) (rw (e', ◌>>=◌) refl),
            v,
            λ j. same_bit s.bits handle false j e',
          )
    ]

-- A set of one handle: the loop goes on to the bit of -1.
pub unset_bit_of_last :
    (s : HandleSet) (handle : ℕ)
    → IsHandles s
    → is_set s handle ≡ some true
    → ((j : ℕ) → is_set s j ≡ some true → j ≡ handle)
    → unset_bit s (some handle) ≡ none
unfolding unset_bit
unset_bit_of_last s handle v there alone = faults s.size s.max_handle s.bits v there alone
  where
    faults :
        (size : ℤ) (max : Option ℕ) (bits : List Bool)
        → IsHandles (record { size = size; max_handle = max; bits = bits })
        → get_elem? bits handle ≡ some true
        → ((j : ℕ) → get_elem? bits j ≡ some true → j ≡ handle)
        → unset_bit (record { size = size; max_handle = max; bits = bits }) (some handle) ≡ none
    faults size none bits w e only = absurd (w.greatest handle e)
    faults size (some m) bits w e only =
        let within : handle < length bits = get_inside bits handle true e in
        let last : (handle == m) ≡ true = ground (arith, only m w.greatest.0) in
        let gone : search_down (set bits handle false) (suc handle) ≡ none =
          search_down_faults (set bits handle false) (suc handle)
            (omega (arith, length-set bits handle false, within))
            (λ k less ek. absurd (
              (left_over bits handle k within ek).0
                (only k (left_over bits handle k within ek).1))) in
        rw (lt→leb fd_setsize handle (omega (arith, within, w.block)), e)
          (rw last (rw (gone, ◌>>=◌) refl))
