-- ===== src/Buffer/Write/Append.antt =====
-- The append methods of src/reactor/buffer.cpp on a packed buffer: the bytes go to the end of its view,
-- and the buffer stays packed.
use unp.Base.{
  ℕ, ◌+◌, ◌^◌, ◌≤◌, ◌<◌, ◌≡◌, refl, sym, ap, ◌∙◌, ◌⊎◌, Option, some, none, List, [], ◌∷◌, ◌++◌,
  arith, length, length-append, get_elem?, set, append_assoc, ◌==◌, false, le→ltb, to_u32, add64,
}
use unp.Buffer.Chain.{Chain, size, content, chain_free_space, copy_in}
use unp.Buffer.Chain
use unp.Buffer.Chain.Laws.{length-content, copy_in_fits, start_bytes_lem}
use unp.Buffer.Chain.Append.{Holds, append_data_fits}
use unp.Buffer.Store.{Buffer, free_trailing_empty_chains, push_back}
use unp.Buffer.Store.Expand.{Expanded, NextTo, expand_if_needed-Expanded}
use unp.Buffer.Write.{
  append_data, append_chain, append_value, append_moved, without_trailing, place,
}
use unp.Buffer.Packed.{
  contents, contents_snoc, view, IsLive, packed, IsPacked, is_empty, is_packed, get_last, set_last,
  AllLive-snoc, contents-singleton, packed_test, take_last,
}

pub total_lem : (b : Buffer) → IsPacked b → b.total ≡ length (view b)
unfolding contents
total_lem b is_empty = refl
total_lem b (is_packed full lc live l) = refl

-- The buffer once the last chain has been replaced.
abbrev pub filled : Buffer → ℕ → Chain → ℕ → Buffer
filled b i c n = record b { chains = set b.chains i c; total = add64 b.total n; last = some i }

module _ {b b' : Buffer} {n i : ℕ} (p : IsPacked b) (r : Expanded b n b' i) where
  pub Expanded-get : get_elem? b'.chains i ≡ some r.c
  Expanded-get = rw (r.chains, r.index) (get_last r.full r.c)

  module _ (c' : Chain) (bs : List ℕ) (h : Holds r.c bs c') where
    pub view_filled : contents (r.full ++ c' ∷ []) ≡ view b ++ bs
    view_filled =
        contents_snoc r.full c'
        ∙ ap (λ t. contents r.full ++ t) h.bytes
        ∙ sym (append_assoc (contents r.full) (content r.c) bs)
        ∙ ap (λ t. t ++ bs) r.bytes

    pub filled_lem :
        (k : ℕ) → k ≡ length bs → length (view b) + k < 2 ^ 64 → filled b' i c' k ≡ packed r.full c'
    filled_lem k same small =
        rw (r.chains, r.index, set_last r.full r.c c')
          (ap
            (λ (t : ℕ). record {
              chains = r.full ++ c' ∷ [];
              last = some (length r.full);
              total = t;
            })
            sum)
      where
        sum : add64 b'.total k ≡ length (contents (r.full ++ c' ∷ []))
        sum =
            omega (arith, r.total, total_lem b p, ap length view_filled, length-append (view b) bs)

    pub filled-IsLive : 0 < length bs → IsLive c'
    filled-IsLive pos = record {
      chain = h.valid;
      nonempty =
          omega
            (arith, length-content c' h.valid, ap length h.bytes, length-append (content r.c) bs);
    }

-- Appending 1 to 2 ^ 32 - 1 bytes to a packed buffer does not fault and returns their number; the
-- buffer stays packed, and its view is the old one with the bytes behind it. This is for totals below 2
-- ^ 64.
pub append_data-view :
    (b : Buffer) (bs : List ℕ)
    → IsPacked b
    → 0 < length bs
    → length bs < 2 ^ 32
    → length (view b) + length bs < 2 ^ 64
    → (b' : Buffer) × (append_data b (some bs) ≡ some (b', some (length bs)))
      × IsPacked b'
      × (view b' ≡ view b ++ bs)
unfolding append_data
append_data-view b bs p pos word small =
    let (b1, i, e, r) = expand_if_needed-Expanded b (to_u32 (length bs)) p (omega arith) in
    let (c', e', h) = append_data_fits r.c bs r.chain pos (omega (arith, r.room)) in
    (
      packed r.full c',
      rw
          (
            pos_test,
            e,
            Expanded-get p r,
            le→ltb (chain_free_space r.c) (length bs) (omega (arith, r.room, r.chain)),
            e',
          )
          (ap (λ t. some (t, some (length bs))) (filled_lem p r c' bs h (length bs) refl small)),
      is_packed r.full c' r.live (filled-IsLive p r c' bs h pos),
      view_filled p r c' bs h,
    )
  where
    pos_test : (length bs == 0) ≡ false
    pos_test = ground arith

-- Both places that `append(const buffer_chain&)` may copy to are the end of the chain's bytes.
place_lem :
    (last : Option ℕ) (i : ℕ) (c : Chain) (bs : List ℕ)
    → c.off + length bs ≤ c.capacity
    → (last ≡ some i) ⊎ ((c.off ≡ 0) × NextTo last i)
    → place last i c bs ≡ copy_in c bs
unfolding place copy_in
place_lem none i c bs h w = ground arith
place_lem (some k) i c bs h w = ground arith

size_test : (chain : Chain) → IsLive chain → (size chain == 0) ≡ false
size_test chain l = ground (arith, l.nonempty)

-- Appending a copy of a chain that has data to a packed buffer does not fault and returns the chain's
-- size; the buffer stays packed, and its view is the old one with the chain's bytes behind it. This is
-- for totals below 2 ^ 64.
pub append_chain-view :
    (b : Buffer) (chain : Chain)
    → IsPacked b
    → IsLive chain
    → length (view b) + size chain < 2 ^ 64
    → (b' : Buffer) × (append_chain b chain ≡ some (b', some (size chain)))
      × IsPacked b'
      × (view b' ≡ view b ++ content chain)
unfolding append_chain
append_chain-view b chain p l small =
    let len = length-content chain l.chain in
    let (b1, i, e, r) = expand_if_needed-Expanded b (size chain) p (omega arith) in
    let (c', e', a) = copy_in_fits r.c (content chain) r.chain (omega (arith, r.room, len)) in
    let h : Holds r.c (content chain) c' = record { valid = a.valid; bytes = a.bytes } in
    (
      packed r.full c',
      rw
          (
            size_test chain l,
            e,
            Expanded-get p r,
            start_bytes_lem chain l.chain,
            le→ltb (chain_free_space r.c) (size chain) (omega (arith, r.room, r.chain)),
            place_lem b1.last i r.c (content chain) (omega (arith, r.room, len)) r.place,
            e',
          )
          (ap (λ t. some (t, some (size chain)))
            (filled_lem p r c' (content chain) h (size chain) (sym len) small)),
      is_packed r.full c' r.live
          (filled-IsLive p r c' (content chain) h (omega (arith, len, l.nonempty))),
      view_filled p r c' (content chain) h,
    )

-- `append<T>` of a value of 1 to 2 ^ 32 - 1 bytes to a packed buffer does not fault and returns the
-- size of the value; the buffer stays packed, and its view is the old one with the bytes of the value
-- behind it. This is for totals below 2 ^ 64.
pub append_value-view :
    (b : Buffer) (bs : List ℕ)
    → IsPacked b
    → 0 < length bs
    → length bs < 2 ^ 32
    → length (view b) + length bs < 2 ^ 64
    → (b' : Buffer) × (append_value b bs ≡ some (b', some (length bs)))
      × IsPacked b'
      × (view b' ≡ view b ++ bs)
unfolding append_value Chain.append_value
append_value-view b bs p pos word small =
    let (b1, i, e, r) = expand_if_needed-Expanded b (to_u32 (length bs)) p (omega arith) in
    let (c', e', a) = copy_in_fits r.c bs r.chain (omega (arith, r.room)) in
    let h : Holds r.c bs c' = record { valid = a.valid; bytes = a.bytes } in
    (
      packed r.full c',
      rw
          (
            e,
            Expanded-get p r,
            le→ltb (chain_free_space r.c) (length bs) (omega (arith, r.room, r.chain)),
            e',
          )
          (ap (λ t. some (t, some (length bs))) (filled_lem p r c' bs h (length bs) refl small)),
      is_packed r.full c' r.live (filled-IsLive p r c' bs h pos),
      view_filled p r c' bs h,
    )

-- Moving a chain that has data into a packed buffer does not fault and returns the chain's size; the
-- buffer stays packed, and its view is the old one with the chain's bytes behind it. This is for totals
-- below 2 ^ 64.
pub append_moved-view :
    (b : Buffer) (chain : Chain)
    → IsPacked b
    → IsLive chain
    → length (view b) + size chain < 2 ^ 64
    → (b' : Buffer) × (append_moved b chain ≡ some (b', some (size chain)))
      × IsPacked b'
      × (view b' ≡ view b ++ content chain)
unfolding append_moved without_trailing free_trailing_empty_chains push_back contents
append_moved-view b chain is_empty l small = (
  packed [] chain,
  rw (size_test chain l) (
      ap
        (λ (t : ℕ).
          some (record { chains = chain ∷ []; last = some 0; total = t }, some (size chain)))
        (omega (arith, ap length (contents-singleton chain), length-content chain l.chain))),
  is_packed [] chain tt l,
  contents-singleton chain,
)
append_moved-view b chain (is_packed full lc live k) l small =
    let old = full ++ lc ∷ [] in
    (
      packed old chain,
      rw (size_test chain l, packed_test full lc k, get_last full lc, take_last full lc)
          (ap
            (λ (t : ℕ). some (
              record { chains = old ++ chain ∷ []; last = some (length old); total = t },
              some (size chain),
            ))
            (omega (
              arith,
              ap length (contents_snoc old chain),
              length-append (contents old) (content chain),
              length-content chain l.chain,
            ))),
      is_packed old chain (AllLive-snoc full lc live k) l,
      contents_snoc old chain,
    )
