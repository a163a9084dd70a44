-- ===== src/Buffer/Chain.antt =====
-- `buffer_chain` of src/reactor/buffer.h and src/reactor/buffer.cpp: one block of memory, whose bytes
-- from `misalign` to `off` are in use. `next_` is the place in the buffer's list, and `parent_` is
-- not kept. `none` is a fault: a copy that leaves the block, or a thrown exception.
pub mod Capacity
pub mod Laws
pub mod Append
use unp.Base.{
  ℕ, zero, suc, ◌+◌, ◌-◌, ◌*◌, ◌/◌, ◌%◌, ◌^◌, Bool, ◌&&◌, ◌||◌, not, Option, none, some, List,
  length, take, drop, replicate, splice, ltb, leb, ◌==◌, if◌then◌else◌, u32_mod, add32, sub32,
}

pub record Chain : Type 0 where
  pub mem : List ℕ
  pub capacity : ℕ
  pub off : ℕ
  pub misalign : ℕ

abbrev pub default_chain_size : ℕ
default_chain_size = 1024

abbrev pub maximum_chain_size : ℕ
maximum_chain_size = 2 ^ 32 - 1

abbrev pub maximum_size_when_expand : ℕ
maximum_size_when_expand = 4096

-- `calloc(n, 1)`, which is taken to succeed.
unfoldable pub calloc : ℕ → List ℕ
calloc n = replicate n 0

abbrev pub size : Chain → ℕ
size c = sub32 c.off c.misalign

abbrev pub chain_free_space : Chain → ℕ
chain_free_space c = sub32 c.capacity c.off

-- The bytes from `get_start_buffer()` on, `size()` of them.
unfoldable pub content : Chain → List ℕ
content c = take (c.off - c.misalign) (drop c.misalign c.mem)

infixl 5 ◌>>=◌
abbrev pub ◌>>=◌ {ℓ κ} : {A : Type ℓ} {B : Type κ} → Option A → (A → Option B) → Option B
none >>= f = none
some a >>= f = f a

-- What a copy of those bytes reads: `size()` wraps past any block where `misalign` is above `off`.
unfoldable pub start_bytes : Chain → Option (List ℕ)
start_bytes c = if leb c.misalign c.off then some (content c) else none

-- `while(to_alloc < given_capacity) to_alloc <<= 1;`
unfoldable pub grow_capacity : ℕ → ℕ → ℕ → ℕ
grow_capacity zero to_alloc given = to_alloc
grow_capacity (suc fuel) to_alloc given =
    let rest = grow_capacity fuel ((to_alloc * 2) % u32_mod) given in
    if ltb to_alloc given then rest else to_alloc

-- 21 doublings take 1024 to 2 ^ 31, past every capacity that the loop is entered with.
unfoldable pub calculate_actual_capacity : ℕ → ℕ
calculate_actual_capacity given =
    if ltb given (maximum_chain_size / 2) then grow_capacity 21 default_chain_size given else given

unfoldable pub new_chain : ℕ → Chain
new_chain capacity =
    let cap = if capacity == 0 then default_chain_size else calculate_actual_capacity capacity in
    record { mem = calloc cap; capacity = cap; off = 0; misalign = 0 }

-- `memcpy(buffer_ + off_, bytes, n); off_ += n`, which faults where it would leave the block.
unfoldable pub copy_in : Chain → List ℕ → Option Chain
copy_in c bytes =
    if leb (c.off + length bytes) c.capacity
    then some (record c { mem = splice c.mem c.off bytes; off = add32 c.off (length bytes) })
    else none

-- `buffer_chain(const buffer_chain& other)`
unfoldable pub copy_chain : Chain → Option Chain
copy_chain other =
    let cap = calculate_actual_capacity other.capacity in
    start_bytes other
    >>= copy_in (record { mem = calloc cap; capacity = cap; off = 0; misalign = 0 })

-- Whether an iterator is inside the chain; `same` says that its `chain_` is this chain.
unfoldable pub validate_iter : Chain → Bool → ℕ → Bool
validate_iter c same pos = same && (ltb pos c.off && leb c.misalign pos)

-- `buffer_chain(const buffer_chain& other, uint32_t data_len, Iter start)`; `none` is the exception.
unfoldable pub sub_chain : Chain → ℕ → Bool → ℕ → Option Chain
sub_chain other data_len same pos =
    if not (validate_iter other same pos) || ltb (sub32 other.off pos) data_len
    then none
    else copy_in (new_chain data_len) (take data_len (drop pos other.mem))

-- `operator=(const buffer_chain&)`: the block grows to the other's capacity and never shrinks.
unfoldable pub assign : Chain → Chain → Option Chain
assign c other =
    let grows = ltb c.capacity other.capacity in
    start_bytes other
    >>= copy_in (record {
      mem = if grows then calloc other.capacity else c.mem;
      capacity = if grows then other.capacity else c.capacity;
      off = 0;
      misalign = 0;
    })

-- `operator=(buffer_chain&&)`: the block is taken over, with `off_ = other.size()`.
unfoldable pub move_assign : Chain → Chain
move_assign other = record other { off = size other }

unfoldable pub realloc : Chain → ℕ → Option Chain
realloc c n =
    if ltb c.capacity n
    then start_bytes c >>= copy_in (record { mem = calloc n; capacity = n; off = 0; misalign = 0 })
    else some c

-- `if(n > chain_free_space()) realloc(calculate_actual_capacity(n + this->size()));`
unfoldable pub reserve : Chain → ℕ → Option Chain
reserve c n =
    if ltb (chain_free_space c) n
    then realloc c (calculate_actual_capacity (add32 n (size c)))
    else some c

-- `append(const buffer_chain&)`
unfoldable pub append_chain : Chain → Chain → Option Chain
append_chain c chain = do bytes ← start_bytes chain; c' ← reserve c (size chain); copy_in c' bytes

-- `append(const buffer_chain&, uint32_t len, Iter start)`, with the count that it returns.
unfoldable pub append_from : Chain → Chain → ℕ → Bool → ℕ → Option (Chain × ℕ)
append_from c chain len same pos =
    if ltb (size chain) len || (not (validate_iter chain same pos) || ltb (sub32 chain.off pos) len)
    then some (c, 0)
    else do c' ← reserve c len; c'' ← copy_in c' (take len (drop pos chain.mem)); some (c'', len)

-- `append(const void*, uint32_t)`; a null pointer is `none`, and so is the result -1.
unfoldable pub append_data : Chain → Option (List ℕ) → Option (Chain × Option ℕ)
append_data c none = some (c, none)
append_data c (some data_bytes) = if length data_bytes == 0 then some (c, none) else do
  c' ← realloc c (calculate_actual_capacity (add32 (size c) (length data_bytes)))
  c'' ← copy_in c' data_bytes
  some (c'', some (length data_bytes))

-- `append<T>(const T&)`, over the bytes of the value: no reallocation.
unfoldable pub append_value : Chain → List ℕ → Option (Chain × Option ℕ)
append_value c bytes =
    if ltb (chain_free_space c) (length bytes)
    then some (c, none)
    else do c' ← copy_in c bytes; some (c', some (length bytes))

unfoldable pub set_offset : Chain → ℕ → Chain × Option ℕ
set_offset c offset =
    if ltb c.capacity offset then (c, none) else (record c { off = offset }, some 0)
