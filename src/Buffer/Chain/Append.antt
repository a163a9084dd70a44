-- ===== src/Buffer/Chain/Append.antt =====
-- The append methods of `buffer_chain` (src/reactor/buffer.cpp): where they keep to the block, and
-- where they leave it.
use unp.Base.{
  ℕ, ◌+◌, ◌^◌, ◌≤◌, ◌<◌, ◌≡◌, ap, ◌∙◌, none, some, List, ◌++◌, arith, length, ◌==◌, le→ltb, lt→leb,
  false, add32,
}
use unp.Buffer.Chain.{
  Chain, size, content, calculate_actual_capacity, realloc, reserve, copy_in, append_chain,
  append_data, chain_free_space,
}
use unp.Buffer.Chain.Capacity.{calculate_fits}
use unp.Buffer.Chain.Laws.{
  IsChain, Appended, length-content, copy_in_fits, start_bytes_lem, realloc_lem,
}

-- `c'` holds the bytes of `c` and then `bs`.
pub record Holds (c : Chain) (bs : List ℕ) (c' : Chain) : Type 0 where
  pub valid : IsChain c'
  pub bytes : content c' ≡ content c ++ bs

pos_test : (bs : List ℕ) → 0 < length bs → (length bs == 0) ≡ false
pos_test bs h = ground arith

-- Bytes that fit the free space of a chain are appended to it, whether or not it is reallocated.
pub append_data_fits :
    (c : Chain) (bs : List ℕ)
    → IsChain c
    → 0 < length bs
    → c.off + length bs ≤ c.capacity
    → (c' : Chain) × (append_data c (some bs) ≡ some (c', some (length bs))) × Holds c bs c'
unfolding append_data
append_data_fits c bs v pos h =
    let n = add32 (size c) (length bs) in
    let fits = calculate_fits n (omega arith) in
    let (d, e, w, keeps, big, o, cap) =
      realloc_lem c (calculate_actual_capacity n) v (omega (arith, fits.0)) fits.1 in
    let (c', e', a) = copy_in_fits d bs w (omega arith) in
    (
      c',
      rw (pos_test bs pos, e, e'),
      record { valid = a.valid; bytes = a.bytes ∙ ap (λ t. t ++ bs) keeps },
    )

-- A well-formed chain whose bytes start at the front of the block takes any further bytes, at least one
-- and up to 2 ^ 32 - 1 in all: `append` makes room, returns their number, and puts them behind those
-- that are there.
pub append_data_aligned :
    (c : Chain) (bs : List ℕ)
    → IsChain c
    → c.misalign ≡ 0
    → 0 < length bs
    → size c + length bs < 2 ^ 32
    → (c' : Chain) × (append_data c (some bs) ≡ some (c', some (length bs))) × Holds c bs c'
unfolding append_data
append_data_aligned c bs v zero_start pos h =
    let n = add32 (size c) (length bs) in
    let fits = calculate_fits n (omega arith) in
    let (d, e, w, keeps, big, o, cap) =
      realloc_lem c (calculate_actual_capacity n) v (omega (arith, fits.0)) fits.1 in
    let (c', e', a) = copy_in_fits d bs w (omega (arith, fits.0)) in
    (
      c',
      rw (pos_test bs pos, e, e'),
      record { valid = a.valid; bytes = a.bytes ∙ ap (λ t. t ++ bs) keeps },
    )

-- Where the end of a well-formed chain's block has no room for the data, of at least one byte, but the
-- capacity is not below what is calculated for the bytes in use and the data, fewer than 2 ^ 32,
-- nothing is reallocated and the copy leaves the block.
pub append_data_overruns :
    (c : Chain) (bs : List ℕ)
    → IsChain c
    → 0 < length bs
    → size c + length bs < 2 ^ 32
    → c.capacity < c.off + length bs
    → calculate_actual_capacity (size c + length bs) ≤ c.capacity
    → append_data c (some bs) ≡ none
unfolding append_data realloc copy_in
append_data_overruns c bs v pos h full room =
    let w : add32 (size c) (length bs) ≡ size c + length bs = omega arith in
    rw (pos_test bs pos, w, le→ltb _ _ room, lt→leb _ _ full)

-- `append(const buffer_chain&)` of bytes that fit the free space.
pub append_chain_fits :
    (c chain : Chain)
    → IsChain c
    → IsChain chain
    → c.off + size chain ≤ c.capacity
    → (c' : Chain) × (append_chain c chain ≡ some c') × Appended c (content chain) c'
unfolding append_chain reserve
append_chain_fits c chain v w h =
    let (c', e, a) = copy_in_fits c (content chain) v (omega (arith, length-content chain w)) in
    (c', rw (start_bytes_lem chain w, le→ltb (chain_free_space c) (size chain) (omega arith)) e, a)
