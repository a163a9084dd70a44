-- ===== src/Buffer/Write.antt =====
-- The append methods of `reactor::buffer` (src/reactor/buffer.h, src/reactor/buffer.cpp). A result is the new
-- buffer with the value that is returned, `none` for -1; `none` outside is a fault.
pub mod Append
pub mod Printf
use unp.Base.{
  ℕ, zero, suc, ◌-◌, true, false, Option, none, some, List, [], ◌∷◌, ◌++◌, length, get_elem?, set,
  take, splice, ltb, ◌==◌, if◌then◌else◌, to_u32, add32, add64,
}
use unp.Buffer.Chain
use unp.Buffer.Chain.{Chain, size, chain_free_space, start_bytes, copy_in, ◌>>=◌}
use unp.Buffer.Store.{Buffer, expand_if_needed, free_trailing_empty_chains, push_back}

-- `append(const void* data, uint64_t data_len)`; a null pointer is `none`.
unfoldable pub append_data : Buffer → Option (List ℕ) → Option (Buffer × Option ℕ)
append_data b none = some (b, none)
append_data b (some bytes) = if length bytes == 0 then some (b, none) else (do
  (b', i) ← expand_if_needed b (to_u32 (length bytes))
  c ← get_elem? b'.chains i
  (if ltb (chain_free_space c) (length bytes) then some (b', none) else do
    (c', n) ← Chain.append_data c (some bytes)
    some (
      record b' {
        chains = set b'.chains i c';
        total = add64 b'.total (length bytes);
        last = some i;
      },
      some (length bytes),
    )))

-- `append<T>(const T& data)`, over the bytes of the value. What the chain returns is not read.
unfoldable pub append_value : Buffer → List ℕ → Option (Buffer × Option ℕ)
append_value b bytes = do
  (b', i) ← expand_if_needed b (to_u32 (length bytes))
  c ← get_elem? b'.chains i
  (c', n) ← Chain.append_value c bytes
  some (
    record b' { chains = set b'.chains i c'; total = add64 b'.total (length bytes); last = some i },
    some (length bytes),
  )

-- Where `append(const buffer_chain&)` copies to: behind the bytes of the last chain with data, or to
-- the front of the block of the chain that follows it.
unfoldable pub place : Option ℕ → ℕ → Chain → List ℕ → Option Chain
place none i c bytes =
    some (record c { mem = splice c.mem 0 bytes; off = add32 c.off (length bytes) })
place (some k) i c bytes =
    if k == i
    then copy_in c bytes
    else if suc k == i
    then some (record c { mem = splice c.mem 0 bytes; off = add32 c.off (length bytes) })
    else none

-- `append(const buffer_chain& chain)`
unfoldable pub append_chain : Buffer → Chain → Option (Buffer × Option ℕ)
append_chain b chain = if size chain == 0 then some (b, some 0) else (do
  (b', i) ← expand_if_needed b (size chain)
  c ← get_elem? b'.chains i
  bytes ← start_bytes chain
  (if ltb (chain_free_space c) (size chain) then none else do
    c' ← place b'.last i c bytes
    some (
      record b' { chains = set b'.chains i c'; total = add64 b'.total (size chain); last = some i },
      some (size chain),
    )))

unfoldable pub without_trailing : Buffer → Option ℕ → Option Buffer
without_trailing b none = some b
without_trailing b (some k) = do (b', at) ← free_trailing_empty_chains b; last_chain ← at; some b'

-- `append(buffer_chain&& chain)`: the chain itself is moved to the end.
unfoldable pub append_moved : Buffer → Chain → Option (Buffer × Option ℕ)
append_moved b chain = if size chain == 0 then some (b, some 0) else (do
  b' ← without_trailing b b.last
  let (b'', i) = push_back b' chain
  some (record b'' { last = some i; total = add64 b''.total (size chain) }, some (size chain)))

-- What a run of the loop of `append_printf` has come to.
pub data Printed : Type 0 where
  running : Printed
  fault : Printed
  returned : Buffer → Option ℕ → Printed

-- What `vsnprintf` writes behind the chain's bytes: the text cut to the space, and a NUL.
unfoldable pub print_into : Chain → List ℕ → Chain
print_into c text =
    if chain_free_space c == 0
    then c
    else record c { mem = splice c.mem c.off (take (chain_free_space c - 1) text ++ 0 ∷ []) }

-- The loop of `append_printf` for a format whose whole output is `text`.
unfoldable pub print_loop : ℕ → Buffer → ℕ → List ℕ → Printed
print_loop zero b i text = running
print_loop (suc fuel) b i text = elim (get_elem? b.chains i) [
  | none ↦ fault
  | some c ↦
      let c' = print_into c text in
      let printed = record b { chains = set b.chains i c' } in
      elim (ltb (length text) (chain_free_space c)) [
        | true ↦
            returned
              (record printed {
                chains = set b.chains i (record c' { off = add32 c.off (length text) });
                total = add64 b.total (length text);
                last = some i;
              })
              (some (length text))
        | false ↦ elim (expand_if_needed printed (add32 (length text) 1)) [
          | none ↦ fault
          | some (b', j) ↦ print_loop fuel b' j text
        ]
      ]
]

-- `append_printf`: what the format comes to is an argument, `none` where `vsnprintf` fails.
unfoldable pub append_printf : ℕ → Buffer → Option (List ℕ) → Printed
append_printf fuel b output = elim (expand_if_needed b 64) [
  | none ↦ fault
  | some (b', i) ↦ elim output [ none ↦ returned b' none | some text ↦ print_loop fuel b' i text ]
]
