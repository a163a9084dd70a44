-- ===== src/Buffer/Iter/Tests.antt =====
-- Iterators at concrete buffers.
use unp.Base.{◌<◌, ◌≡◌, ◌↔◌, refl, Bool, true, some, [], ◌∷◌, arith, take, drop}
use unp.Buffer.Chain.{content}
use unp.Buffer.Store.{is_last_chain_with_data}
use unp.Buffer.Packed.{view, contents, packed}
use unp.Buffer.Iter.{
  Iter, begin_iter, iter_of_chain, validate_iter, forward, iter_gt, iter_lt, buffer_memcmp,
  forward_loop, compare_loop, iter_loop, comparable,
}
use unp.Buffer.Iter.Place.{Place}
use unp.Buffer.Iter.Compare.{buffer_memcmp-view}
use unp.Buffer.Iter.Forward.{forward-Place}
use unp.Buffer.Tests.{first_chain, second_chain, two_chains, two_chains-IsPacked, length-two_chains}

-- At the second byte of the first chain.
abbrev pub second_byte : Iter
second_byte = record {
  buffer = some 7;
  chain = some 0;
  offset_of_buffer = 1;
  chain_number = 0;
  offset_of_chain = 2;
}

pub second_byte-Place : Place 7 two_chains second_byte
unfolding contents content
second_byte-Place = record {
  k = 0;
  c = first_chain;
  buffer = refl;
  chain = refl;
  get = refl;
  from = omega arith;
  upto = omega arith;
  offset = refl;
}

pub second_byte_inside : 2 < second_byte-Place.c.off
unfolding second_byte-Place
second_byte_inside = omega arith

begin_two_chains :
    begin_iter 7 two_chains
    ≡ some (record second_byte { offset_of_buffer = 0; offset_of_chain = 1 })
unfolding begin_iter
begin_two_chains = refl

-- Two steps lead to the end of the first chain, and three into the second one.
forward_two :
    forward two_chains second_byte 2
    ≡ some (record second_byte { offset_of_buffer = 3; offset_of_chain = 4 })
unfolding forward forward_loop is_last_chain_with_data contents content
forward_two = refl

forward_three :
    forward two_chains second_byte 3
    ≡ some (record second_byte {
      chain = some 1;
      chain_number = 1;
      offset_of_buffer = 4;
      offset_of_chain = 1;
    })
unfolding forward forward_loop is_last_chain_with_data contents content
forward_three = refl

memcmp_two_chains : buffer_memcmp 7 two_chains (some (2 ∷ 3 ∷ 4 ∷ [])) second_byte ≡ some true
unfolding buffer_memcmp validate_iter compare_loop contents content
memcmp_two_chains = refl

-- The place of the second chain is 3, and its capacity of 4 is given.
iter_of_second_chain :
    iter_of_chain 7 (packed (first_chain ∷ []) second_chain) 1
    ≡ record second_byte { chain = some 1; offset_of_buffer = 4; offset_of_chain = 0 }
unfolding iter_of_chain iter_loop contents content
iter_of_second_chain = refl

-- An iterator is neither above nor equal to another buffer's, and so it is below it.
lt_of_another_buffer :
    iter_lt 7 two_chains second_byte (record second_byte { buffer = some 8 }) ≡ some true
unfolding iter_lt iter_gt comparable
lt_of_another_buffer = refl

forward-Place_example :
    (it' : Iter) × (forward two_chains second_byte 3 ≡ some it')
    × Place 7 two_chains it'
    × (it'.offset_of_buffer ≡ 4)
unfolding second_byte-Place
forward-Place_example =
    forward-Place 7 two_chains second_byte 3 two_chains-IsPacked second_byte-Place (refl, tt)
      (omega arith) (omega (arith, length-two_chains)) (omega (arith, length-two_chains))

buffer_memcmp-view_example :
    (same : Bool) × (buffer_memcmp 7 two_chains (some (2 ∷ 3 ∷ 4 ∷ [])) second_byte ≡ some same)
    × ((same ≡ true) ↔ (take 3 (drop 1 (view two_chains)) ≡ 2 ∷ 3 ∷ 4 ∷ []))
buffer_memcmp-view_example =
    buffer_memcmp-view 7 two_chains second_byte (2 ∷ 3 ∷ 4 ∷ []) two_chains-IsPacked
      (omega (arith, length-two_chains)) second_byte-Place
