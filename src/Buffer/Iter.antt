-- ===== src/Buffer/Iter.antt =====
-- `buffer_iter` of src/reactor/buffer.h and src/reactor/buffer.cpp, and the buffer's methods that make, check and follow
-- iterators. A buffer is named by a number, and its chains by their index; NULL pointers are `none`.
-- `none` as a result is a fault: a null pointer or the end of the list is dereferenced.
pub mod Place
pub mod Compare
pub mod Steps
pub mod Forward
pub mod Tests
use unp.Base.{
  ℕ, zero, suc, ◌+◌, ◌-◌, Bool, true, false, ◌&&◌, ◌||◌, not, Option, none, some, List, [], ◌∷◌,
  ◌++◌, get_elem?, length, take, drop, ltb, leb, min, ◌==◌, if◌then◌else◌, add32, sub32, add64,
  sub64, to_u32,
}
use unp.Buffer.Chain.{Chain, size, ◌>>=◌}
use unp.Buffer.Store.{Buffer, is_last_chain_with_data}

pub record Iter : Type 0 where
  pub buffer : Option ℕ
  pub chain : Option ℕ
  pub offset_of_buffer : ℕ
  pub chain_number : ℕ
  pub offset_of_chain : ℕ

abbrev pub null_iter : Iter
null_iter = record {
  buffer = none;
  chain = none;
  offset_of_buffer = 0;
  chain_number = 0;
  offset_of_chain = 0;
}

abbrev pub is_some {ℓ} : {A : Type ℓ} → Option A → Bool
is_some none = false
is_some (some a) = true

abbrev pub same_pointer : Option ℕ → Option ℕ → Bool
same_pointer none none = true
same_pointer (some i) (some j) = i == j
same_pointer _ _ = false

abbrev pub is_valid : Iter → Bool
is_valid it = is_some it.buffer && is_some it.chain

module _ (id : ℕ) where
  -- `begin()`
  unfoldable pub begin_iter : Buffer → Option Iter
  begin_iter b = do
    c ← get_elem? b.chains 0
    some (record {
      buffer = some id;
      chain = some 0;
      offset_of_buffer = 0;
      chain_number = 0;
      offset_of_chain = c.misalign;
    })

  -- `end()`
  unfoldable pub end_iter : Buffer → Option Iter
  end_iter b = do
    k ← b.last
    c ← get_elem? b.chains k
    some (record {
      buffer = some id;
      chain = some k;
      offset_of_buffer = b.total;
      chain_number = 0;
      offset_of_chain = c.off;
    })

  -- The loop of `iter_of_chain`, from the chain with index `i` on; it counts capacities.
  unfoldable pub iter_loop : List Chain → ℕ → ℕ → ℕ → Iter
  iter_loop [] i wanted offset = null_iter
  iter_loop (c ∷ cs) i wanted offset =
      let rest = iter_loop cs (suc i) wanted (add32 offset c.capacity) in
      if i == wanted
      then record {
        buffer = some id;
        chain = some i;
        offset_of_buffer = offset;
        chain_number = 0;
        offset_of_chain = c.misalign;
      }
      else rest

  unfoldable pub iter_of_chain : Buffer → ℕ → Iter
  iter_of_chain b wanted = if b.total == 0 then null_iter else iter_loop b.chains 0 wanted 0

  -- `validate_iter(iter)`, whose walk ends at the chain or behind the last one.
  unfoldable pub validate_iter : Buffer → Iter → Option Bool
  validate_iter b it =
      if not (same_pointer it.buffer (some id))
      then some false
      else (do front ← get_elem? b.chains 0; k ← it.chain; some (ltb k (length b.chains)))

-- The step that ends `operator+`.
abbrev pub arrived : Iter → ℕ → Iter
arrived it remain = record it { offset_of_chain = add32 it.offset_of_chain remain }

-- The loop of `operator+` at the chain `k`, of which `can` bytes can be passed; the chains behind it are
-- given.
unfoldable pub forward_loop : Buffer → List Chain → ℕ → Iter → ℕ → ℕ → Option Iter
forward_loop b [] k it can remain =
    if not (is_last_chain_with_data b (some k)) && ltb can remain
    then none
    else some (arrived it remain)
forward_loop b (c ∷ cs) k it can remain =
    let it' = record it {
      chain = some (suc k);
      chain_number = suc it.chain_number;
      offset_of_chain = 0;
    } in
    let rest = forward_loop b cs (suc k) it' c.off (sub32 remain can) in
    if not (is_last_chain_with_data b (some k)) && ltb can remain
    then rest
    else some (arrived it remain)

-- `operator+(forward_steps)`
unfoldable pub forward : Buffer → Iter → ℕ → Option Iter
forward b it steps =
    if steps == 0
    then some it
    else if ltb (to_u32 (sub64 b.total it.offset_of_buffer)) steps
    then (do
      k ← b.last
      c ← get_elem? b.chains k
      some (record it {
        chain = some k;
        offset_of_chain = c.off;
        offset_of_buffer = b.total;
        chain_number = 0;
      }))
    else (do
      k ← it.chain
      c ← get_elem? b.chains k
      it' ← forward_loop b (drop (suc k) b.chains) k it (sub32 c.off it.offset_of_chain) steps
      some (record it' { offset_of_buffer = add64 it.offset_of_buffer steps }))

-- What the comparisons of two iterators share; their buffer is `b`, with the number `id`.
unfoldable pub comparable : ℕ → Buffer → Iter → Iter → Option Bool
comparable id b it other =
    if not (is_some it.buffer && is_some other.buffer)
    then some false
    else if not (same_pointer other.buffer it.buffer)
    then some false
    else (do
      valid ← validate_iter id b other
      (if valid then validate_iter id b it else some false))

-- `operator>`, `operator<` and `operator==`
unfoldable pub iter_gt : ℕ → Buffer → Iter → Iter → Option Bool
iter_gt id b it other = do
  c ← comparable id b it other
  some (c && ltb other.offset_of_buffer it.offset_of_buffer)

unfoldable pub iter_lt : ℕ → Buffer → Iter → Iter → Option Bool
iter_lt id b it other = do c ← iter_gt id b it other; some (not c)

unfoldable pub iter_eq : ℕ → Buffer → Iter → Iter → Option Bool
iter_eq id b it other = do
  c ← comparable id b it other
  some (c && (it.offset_of_buffer == other.offset_of_buffer))

-- `memcmp(mem, source, length source) == 0`
abbrev pub starts_with : List ℕ → List ℕ → Bool
starts_with mem [] = true
starts_with [] (x ∷ source) = false
starts_with (y ∷ mem) (x ∷ source) =
    let rest = starts_with mem source in if y == x then rest else false

-- How much of the source the loop of `buffer_memcmp` compares in a chain from `off` on.
abbrev pub compared : Chain → ℕ → List ℕ → ℕ
compared c off source = min (length source) (sub32 c.off off)

-- The loop of `buffer_memcmp` at a chain, over what is left of the source.
unfoldable pub compare_loop : List Chain → Chain → ℕ → List ℕ → Bool
compare_loop [] c off source =
    if (size c == 0) || (length source == 0)
    then length source == 0
    else if starts_with (drop off c.mem) (take (compared c off source) source)
    then length source - compared c off source == 0
    else false
compare_loop (d ∷ cs) c off source =
    let rest = compare_loop cs d d.misalign (drop (compared c off source) source) in
    if (size c == 0) || (length source == 0)
    then length source == 0
    else if starts_with (drop off c.mem) (take (compared c off source) source)
    then rest
    else false

-- `buffer_memcmp(source, length source, start)`; a null pointer is `none`.
unfoldable pub buffer_memcmp : ℕ → Buffer → Option (List ℕ) → Iter → Option Bool
buffer_memcmp id b source start = do
  valid ← validate_iter id b start
  (if not valid then some false else (elim source [
    | none ↦ some false
    | some bytes ↦
        if ltb (sub64 b.total start.offset_of_buffer) (length bytes) then some false else (do
          k ← start.chain
          c ← get_elem? b.chains k
          some (compare_loop (drop (suc k) b.chains) c start.offset_of_chain bytes))
  ]))
