-- ===== src/Buffer/Read.antt =====
-- The methods of `reactor::buffer` (src/reactor/buffer.cpp) that take bytes out, make them contiguous,
-- or copy the buffer. Results are as in Buffer/Write; `none` outside is a fault or a failed assertion.
pub mod Remove
pub mod Gather
pub mod Pullup
use unp.Base.{
  ℕ, zero, suc, ◌+◌, ◌-◌, Bool, true, false, Option, none, some, List, [], ◌∷◌, ◌++◌, take, ltb,
  leb, ◌==◌, if◌then◌else◌, to_u32, add32, sub32, sub64, u64_mod,
}
use unp.Base.Int.{ℤ, pos, negsuc}
use unp.Buffer.Chain
use unp.Buffer.Chain.{Chain, size, chain_free_space, content, new_chain, assign, ◌>>=◌}
use unp.Buffer.Store.{Buffer}
use unp.Buffer.Write.{append_chain}

-- What the loop of `remove` works on, and what it has copied out.
pub record Removal : Type 0 where
  pub chains : List Chain
  pub last : Option ℕ
  pub total : ℕ
  pub out : List ℕ

abbrev pub before : Option ℕ → Option ℕ
before none = none
before (some zero) = none
before (some (suc k)) = some k

abbrev pub is_first : Option ℕ → Bool
is_first none = false
is_first (some k) = k == 0

-- The `for` loop of `remove`: `current_chain` is the front of the list.
unfoldable pub remove_loop : List Chain → Option ℕ → ℕ → ℕ → List ℕ → Option Removal
remove_loop [] last total remain out =
    if remain == 0
    then some (record { chains = []; last = last; total = total; out = out })
    else none
remove_loop (c ∷ cs) last total remain out =
    let next =
      remove_loop cs (before last) (sub64 total (size c)) (sub32 remain (size c))
        (out ++ content c) in
    if remain == 0
    then some (record { chains = c ∷ cs; last = last; total = total; out = out })
    else if ltb c.off c.misalign
    then none
    else if leb (size c) remain
    then (if size c == 0
        then none
        else if is_first last
        then (if sub32 remain (size c) == 0
            then some (record {
              chains = cs;
              last = none;
              total = sub64 total (size c);
              out = out ++ content c;
            })
            else none)
        else next)
    else some (record {
      chains = record c { misalign = add32 c.misalign remain } ∷ cs;
      last = last;
      total = sub64 total remain;
      out = out ++ take remain (content c);
    })

-- `remove(data, data_len)`, where `null` says that `data` is null; the bytes that are copied out stand
-- for the returned `data_len`.
unfoldable pub remove : Buffer → Bool → ℕ → Option (Buffer × Option (List ℕ))
remove b true data_len = some (b, none)
remove b false data_len = if data_len == 0 then some (b, none) else (elim b.last [
  | none ↦ some (b, none)
  | some k ↦ if ltb b.total data_len then some (b, none) else (do
    r ← remove_loop b.chains b.last b.total data_len []
    some (record b { chains = r.chains; last = r.last; total = r.total }, some r.out))
])

-- `drain(len)`: `remove` into a scratch block.
unfoldable pub drain : Buffer → ℕ → Option (Buffer × Option ℕ)
drain b len = do
  (b', removed) ← remove b false len
  some (b', elim removed [ none ↦ none | some out ↦ some len ])

-- What the merging loop of `pullup` works on: the first chain, those behind it, how many were merged,
-- and `remain_to_pullup`.
pub record Merge : Type 0 where
  pub first : Chain
  pub rest : List Chain
  pub merged : ℕ
  pub remain : ℕ

unfoldable pub merge_loop : Chain → List Chain → ℕ → ℕ → Option Merge
merge_loop first [] merged remain =
    some (record { first = first; rest = []; merged = merged; remain = remain })
merge_loop first (current ∷ cs) merged remain =
    if leb (size current) remain
    then (if size current == 0 then none else (do
      first' ← Chain.append_chain first current
      merge_loop first' cs (suc merged) (remain - size current)))
    else some (record { first = first; rest = current ∷ cs; merged = merged; remain = remain })

-- The part of the next chain that is still wanted.
unfoldable pub merge_part : Merge → Option Merge
merge_part m = if m.remain == 0 then some m else (elim m.rest [
  | [] ↦ none
  | current ∷ cs ↦ do
    (first', n) ← Chain.append_from m.first current (to_u32 m.remain) true current.misalign
    some (record m {
      first = first';
      rest = record current { misalign = add32 current.misalign (to_u32 m.remain) } ∷ cs;
    })
])

abbrev pub lower : ℕ → Option ℕ → Option ℕ
lower n none = none
lower n (some k) = some (k - n)

-- `last_chain_with_data_ = current_chain ? last_chain_with_data_ : first_chain`
unfoldable pub last_after : Merge → Option ℕ → Option ℕ
last_after m last = elim m.rest [ [] ↦ some 0 | _ ∷ _ ↦ lower m.merged last ]

-- A first chain that cannot take the rest is replaced by a copy with room for all of it.
unfoldable pub room_for : Chain → ℕ → ℕ → Option Chain
room_for first n remain =
    if leb remain (chain_free_space first) then some first else assign (new_chain (to_u32 n)) first

-- `pullup` of a size between 1 and `total_len_`; the result is what the returned pointer points at.
unfoldable pub pullup_to : Buffer → ℕ → Option (Buffer × Option (List ℕ))
pullup_to b n = elim b.chains [
  | [] ↦ none
  | front ∷ cs ↦ if leb n (size front) then some (b, some (content front)) else do
    first ← room_for front n (n - size front)
    merged ← merge_loop first cs 0 (n - size front)
    m ← merge_part merged
    some
        (record b { chains = m.first ∷ m.rest; last = last_after m b.last }, some (content m.first))
]

-- `size > total_len_` compares the signed size as an unsigned number.
abbrev pub as_u64 : ℤ → ℕ
as_u64 (pos n) = n
as_u64 (negsuc n) = u64_mod - (n + 1)

unfoldable pub pullup : Buffer → ℤ → Option (Buffer × Option (List ℕ))
pullup b n =
    if (as_u64 n == 0)
    then some (b, none)
    else if ltb b.total (as_u64 n)
    then some (b, none)
    else elim n [ pos k ↦ pullup_to b k | negsuc _ ↦ pullup_to b b.total ]

-- `read_T(t_out, size)`: the bytes that are copied into `t_out`.
unfoldable pub read_value : Buffer → ℕ → Option (Buffer × Option (List ℕ))
read_value b n = do
  (b', start) ← pullup b (pos n)
  some (b', elim start [ none ↦ none | some bytes ↦ some (take n bytes) ])
