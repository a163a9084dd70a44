-- ===== src/Net/HandleSet/Tests.antt =====
-- Sets of a few handles.
use unp.Base.{
  ℕ, ◌≡◌, refl, sym, subst, ◌∙◌, some-injective, true, false, Option, none, some, arith, replicate,
  set,
}
use unp.Base.Int.{pos}
use unp.Net.HandleSet.{
  HandleSet, fd_setsize, reset, set_bit, unset_bit, next_handle, next_loop, search_down,
}
use unp.Net.HandleSet.Members.{IsHandles, Changed, reset-IsHandles, set_bit-IsHandles}
use unp.Net.HandleSet.Unset.{unset_bit-IsHandles}
use unp.Net.HandleSet.Walk.{IsNext, next_handle-IsNext}

abbrev one : HandleSet
one = record { size = pos 1; max_handle = some 1; bits = set (replicate fd_setsize false) 1 true }

abbrev two : HandleSet
two = record {
  size = pos 2;
  max_handle = some 4;
  bits = set (set (replicate fd_setsize false) 1 true) 4 true;
}

one_lem : set_bit reset (some 1) ≡ some one
unfolding set_bit reset
one_lem = refl

two_lem : set_bit one (some 4) ≡ some two
unfolding set_bit
two_lem = refl

after_one : next_handle two (some 1) ≡ some (some 4)
unfolding next_handle next_loop
after_one = refl

one-IsHandles : IsHandles one
one-IsHandles =
    let (s, e, v, c) = set_bit-IsHandles reset 1 reset-IsHandles (omega arith) in
    subst IsHandles (some-injective _ _ (sym e ∙ one_lem)) v

two-IsHandles : IsHandles two
two-IsHandles =
    let (s, e, v, c) = set_bit-IsHandles one 4 one-IsHandles (omega arith) in
    subst IsHandles (some-injective _ _ (sym e ∙ two_lem)) v

-- Taking out the only handle reads the bit of the handle -1.
unset_of_one : unset_bit one (some 1) ≡ none
unfolding unset_bit search_down
unset_of_one = refl

set_bit-IsHandles_example :
    (s : HandleSet) × (set_bit one (some 4) ≡ some s) × IsHandles s × Changed one s 4 true
set_bit-IsHandles_example = set_bit-IsHandles one 4 one-IsHandles (omega arith)

unset_bit-IsHandles_example :
    (s : HandleSet) × (unset_bit two (some 4) ≡ some s) × IsHandles s × Changed two s 4 false
unset_bit-IsHandles_example =
    unset_bit-IsHandles two 4 1 two-IsHandles (omega arith) (λ e. omega (arith, e)) refl

next_handle-IsNext_example :
    (next : Option ℕ) × (next_handle two (some 1) ≡ some next) × IsNext two.bits 2 next
next_handle-IsNext_example = next_handle-IsNext two (some 1) two-IsHandles (omega arith)
