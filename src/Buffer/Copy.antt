-- ===== src/Buffer/Copy.antt =====
-- The copies of a whole `buffer` and of a part of it from an iterator on, in src/reactor/buffer.cpp. A result is as in
-- Buffer/Write. The buffer that is copied from is another one than that which is copied to.
pub mod Whole
pub mod Rounds
pub mod Loop
pub mod From
pub mod Out
mod Tests
use unp.Base.{
  ℕ, zero, suc, ◌+◌, ◌-◌, Bool, true, false, ◌&&◌, ◌||◌, not, Option, none, some, List, [], ◌∷◌,
  ◌++◌, get_elem?, length, drop, ltb, ◌==◌, if◌then◌else◌, sub32, sub64, to_u32,
}
use unp.Buffer.Chain
use unp.Buffer.Chain.{Chain, size, copy_chain, sub_chain, ◌>>=◌}
use unp.Buffer.Store.{Buffer, empty, free_trailing_empty_chains}
use unp.Buffer.Write.{append_chain, append_moved}
use unp.Buffer.Read.{is_first, before, remove}
use unp.Buffer.Iter.{Iter, validate_iter}
use unp.Buffer.Iter.Place.{seen_from}

-- `chains_ = other.chains_`
unfoldable pub copy_chains : List Chain → Option (List Chain)
copy_chains [] = some []
copy_chains (c ∷ cs) = do c' ← copy_chain c; cs' ← copy_chains cs; some (c' ∷ cs')

-- `buffer(const buffer& other)`; without a last chain with data `update_last_chain_with_data` dereferences
-- the end of the list.
unfoldable pub copy_buffer : Buffer → Option Buffer
copy_buffer other = do
  chains ← copy_chains other.chains
  k ← other.last
  c ← get_elem? chains k
  some (record { chains = chains; last = some k; total = other.total })

-- `last_chain_with_data_ = &chains_.back();`
abbrev pub with_back : Buffer → Buffer
with_back b = record b { last = some (length b.chains - 1) }

-- What follows the loop of the copies from an iterator: the constructor moves the last part into the
-- buffer, `append` copies it.
pub data Ending : Type 0 where
  moves : Ending
  copies : Ending

abbrev pub append_last : Ending → Buffer → Chain → Option (Buffer × Option ℕ)
append_last moves b c = append_moved b c
append_last copies b c = append_chain b c

-- The loop of the copies from an iterator, at the byte `pos` of the chain `c` of `other`, where `can` bytes
-- of it can be copied.
unfoldable pub from_loop :
    Ending → List Chain → Chain → Option ℕ → ℕ → ℕ → ℕ → Buffer → Option Buffer
from_loop ending [] c last pos can remain b =
    if not (is_first last) && ltb can remain
    then none
    else (do part ← sub_chain c remain true pos; (b', n) ← append_last ending b part; some b')
from_loop ending (d ∷ cs) c last pos can remain b =
    if not (is_first last) && ltb can remain
    then (do
      part ← sub_chain c can true pos
      (b', n) ← append_chain b part
      from_loop ending cs d (before last) d.misalign (size d) (sub32 remain can) (with_back b'))
    else (do part ← sub_chain c remain true pos; (b', n) ← append_last ending b part; some b')

-- What `data_len` comes to, when the iterator's place in the buffer is subtracted from the total.
abbrev pub copied_length : Buffer → ℕ → ℕ → ℕ
copied_length other data_len offset =
    let most = to_u32 (sub64 other.total offset) in
    to_u32 (if ltb most data_len then most else data_len)

-- `buffer(const buffer& other, uint32_t data_len, Iter start)`, of a buffer with the number `id`.
unfoldable pub copy_from : ℕ → Buffer → ℕ → Iter → Option Buffer
copy_from id other data_len start = do
  valid ← validate_iter id other start
  (if (not valid || (data_len == 0)) || (other.total == 0) then some empty else (do
    k ← start.chain
    c ← get_elem? other.chains k
    (if not (Chain.validate_iter c true start.offset_of_chain) then some empty else (do
      b ←
          from_loop moves (drop (suc k) other.chains) c (seen_from k other.last)
            start.offset_of_chain (sub32 c.off start.offset_of_chain)
            (copied_length other data_len start.offset_of_buffer) empty
      some (record (with_back b) { total = data_len })))))

-- `append(const buffer& other, uint64_t data_len, Iter start)`
unfoldable pub append_buffer : ℕ → Buffer → Buffer → ℕ → Iter → Option (Buffer × Option ℕ)
append_buffer id b other data_len start = do
  valid ← validate_iter id other start
  (if (not valid || (other.total == 0)) || (data_len == 0) then some (b, none) else (do
    (b1, at) ← free_trailing_empty_chains b
    k ← start.chain
    c ← get_elem? other.chains k
    (if not (Chain.validate_iter c true start.offset_of_chain) then some (b1, none) else (do
      let n = copied_length other data_len start.offset_of_buffer
      b' ←
          from_loop copies (drop (suc k) other.chains) c (seen_from k other.last)
            start.offset_of_chain (sub32 c.off start.offset_of_chain) n b1
      some (b', some n)))))

-- `copy_out_from(data, data_len, start)`, where `null` says that `data` is null; the bytes that are copied
-- out stand for the returned count.
unfoldable pub copy_out_from : ℕ → Buffer → Bool → ℕ → Iter → Option (Option (List ℕ))
copy_out_from id b null data_len start = do
  valid ← validate_iter id b start
  (if not valid || null then some none else if data_len == 0 then some (some []) else (do
    tmp ← copy_from id b data_len start
    (tmp', out) ← remove tmp false data_len
    some out))
