-- ===== src/Buffer/Store.antt =====
-- `reactor::buffer` of src/reactor/buffer.h: its state, and the private operations of
-- src/reactor/buffer.cpp that make room. A pointer to a chain is its index in `chains_`, the null
-- pointer is `none`, and `next_` is the following index. `none` as a result is a fault: a null or
-- dangling pointer is used, or an assertion fails.
pub mod Expand
use unp.Base.{
  ℕ, suc, ◌/◌, Bool, false, ◌||◌, Option, none, some, List, [], ◌∷◌, ◌++◌, length, get_elem?, take,
  ltb, leb, ◌==◌, if◌then◌else◌, add32, sub32,
}
use unp.Buffer.Chain.{
  Chain, size, chain_free_space, new_chain, assign, copy_chain, maximum_chain_size,
  maximum_size_when_expand, ◌>>=◌,
}

pub record Buffer : Type 0 where
  pub chains : List Chain
  pub last : Option ℕ
  pub total : ℕ

abbrev pub empty : Buffer
empty = record { chains = []; last = none; total = 0 }

-- What `pop_back` leaves.
abbrev pub drop_last {ℓ} : {A : Type ℓ} → List A → List A
drop_last [] = []
drop_last (x ∷ []) = []
drop_last (x ∷ y ∷ xs) = x ∷ drop_last (y ∷ xs)

abbrev pub shift : Option ℕ → Option ℕ
shift none = none
shift (some k) = some (suc k)

unfoldable pub push_back : Buffer → Chain → Buffer × ℕ
push_back b c = (record b { chains = b.chains ++ c ∷ [] }, length b.chains)

-- The pointers stay with their chains, so that the index of the last one moves on.
unfoldable pub push_front : Buffer → Chain → Buffer × ℕ
push_front b c = (record b { chains = c ∷ b.chains; last = shift b.last }, 0)

unfoldable pub free_trailing_empty_chains : Buffer → Option (Buffer × Option ℕ)
free_trailing_empty_chains b = if b.total == 0 then some (record b { chains = [] }, none) else (do
  k ← b.last
  lc ← get_elem? b.chains k
  some (record b { chains = take (suc k) b.chains }, some k))

-- Not worth a copy of the last chain: a new chain behind it.
unfoldable pub add_chain : Buffer → ℕ → Option (Buffer × ℕ)
unfolding free_trailing_empty_chains push_back
add_chain b data_len = do
  (b', k) ← free_trailing_empty_chains b
  some (push_back b' (new_chain data_len))

-- `lc->next()` serves where it is there and large enough.
unfoldable pub use_next : Buffer → ℕ → ℕ → Option Chain → Option (Buffer × ℕ)
use_next b data_len k none = add_chain b data_len
use_next b data_len k (some next) =
    if ltb data_len (chain_free_space next)
    then (if next.off == 0 then some (b, suc k) else none)
    else add_chain b data_len

-- The last chain is copied into a larger one, which takes the place of the list's back.
unfoldable pub resize_last : Buffer → ℕ → Chain → Option (Buffer × ℕ)
resize_last b data_len lc = do
  chain_newed ← assign (new_chain (add32 lc.off data_len)) lc
  c ← copy_chain chain_newed
  let (b', i) = push_back (record b { chains = drop_last b.chains }) c
  some (record b' { last = some i }, i)

unfoldable pub not_worth_expanding : Chain → ℕ → Bool
not_worth_expanding lc data_len =
    ltb (chain_free_space lc) (lc.capacity / 8)
    || (ltb maximum_size_when_expand lc.off || leb (sub32 maximum_chain_size lc.off) data_len)

-- The chain that is returned is meant to have room for `data_len` more bytes.
unfoldable pub expand_if_needed : Buffer → ℕ → Option (Buffer × ℕ)
expand_if_needed b data_len =
    if b.total == 0
    then (let (b', i) = push_front b (new_chain data_len) in some (b', length b.chains))
    else (do
      k ← b.last
      lc ← get_elem? b.chains k
      (if leb data_len (chain_free_space lc)
          then some (b, k)
          else if not_worth_expanding lc data_len
          then use_next b data_len k (get_elem? b.chains (suc k))
          else resize_last b data_len lc))

unfoldable pub is_last_chain_with_data : Buffer → Option ℕ → Bool
is_last_chain_with_data b none = false
is_last_chain_with_data b (some i) = elim b.last [ none ↦ false | some k ↦ i == k ]

unfoldable pub first_length : List Chain → ℕ
first_length [] = 0
first_length (c ∷ cs) = if c.off == 0 then 0 else size c

unfoldable pub first_chain_length : Buffer → ℕ
unfolding first_length
first_chain_length b = first_length b.chains
