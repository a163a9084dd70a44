-- ===== src/Buffer/Store/Expand.antt =====
-- `expand_if_needed` (src/reactor/buffer.cpp) on a packed buffer: no fault, the bytes are kept, and the
-- chain that comes back has the room that was asked for.
use unp.Base.{
  ℕ, suc, ◌+◌, ◌^◌, ◌≤◌, ◌<◌, ◌≡◌, refl, sym, ap, ◌∙◌, inl, inr, ◌⊎◌, Option, some, none, List, [],
  ◌∷◌, ◌++◌, arith, length, append-nil, leb, Bool-cases, leb→le, false, add32,
}
use unp.Buffer.Chain.{Chain, content, chain_free_space, new_chain}
use unp.Buffer.Chain.Laws.{IsChain, new_chain-Room, assign_lem, copy_chain_lem}
use unp.Buffer.Store.{
  Buffer, empty, expand_if_needed, add_chain, use_next, resize_last, not_worth_expanding, push_back,
  push_front,
}
use unp.Buffer.Packed.{
  contents, contents_snoc, IsLive, AllLive, AllLive-snoc, packed, IsPacked, is_empty, is_packed,
  get_last, get_past, packed_test, take_last, drop_last_snoc, length_snoc,
}

-- `i` is the chain after `last_chain_with_data_`.
abbrev pub NextTo : Option ℕ → ℕ → Type 0
NextTo none i = Unit {0}
NextTo (some k) i = suc k ≡ i

-- A last chain `c` with room for `n` more bytes, behind chains with data.
pub record Expanded (b : Buffer) (n : ℕ) (b' : Buffer) (i : ℕ) : Type 0 where
  pub full : List Chain
  pub c : Chain
  pub chains : b'.chains ≡ full ++ c ∷ []
  pub index : i ≡ length full
  pub live : AllLive full
  pub chain : IsChain c
  pub room : c.off + n ≤ c.capacity
  pub bytes : contents full ++ content c ≡ contents b.chains
  pub total : b'.total ≡ b.total
  pub place : (b'.last ≡ some i) ⊎ ((c.off ≡ 0) × NextTo b'.last i)

-- What the code's test leaves where it goes on to resize.
worth_fits :
    (lc : Chain) (n : ℕ)
    → IsChain lc
    → n < 2 ^ 32
    → not_worth_expanding lc n ≡ false
    → lc.off + n < 2 ^ 32
unfolding not_worth_expanding
worth_fits lc n v h worth = ground arith

module _ (full : List Chain) (lc : Chain) (live : AllLive full) (l : IsLive lc) where
  add_chain-Expanded :
      (n : ℕ)
      → n < 2 ^ 32
      → (b' : Buffer) × (i : ℕ) × (add_chain (packed full lc) n ≡ some (b', i))
        × Expanded (packed full lc) n b' i
  unfolding add_chain
  add_chain-Expanded n h =
      let w = new_chain-Room n h in
      (
        record (packed full lc) { chains = (full ++ lc ∷ []) ++ new_chain n ∷ [] },
        length (full ++ lc ∷ []),
        rw (packed_test full lc l, get_last full lc, take_last full lc) refl,
        record {
          full = full ++ lc ∷ [];
          c = new_chain n;
          chains = refl;
          index = refl;
          live = AllLive-snoc full lc live l;
          chain = w.valid;
          room = omega (arith, w.off, w.enough);
          bytes = rw (w.no_bytes, append-nil) refl;
          total = refl;
          place = inr (w.off, sym (length_snoc full lc));
        },
      )

  resize_last-Expanded :
      (n : ℕ)
      → lc.off + n < 2 ^ 32
      → (b' : Buffer) × (i : ℕ) × (resize_last (packed full lc) n lc ≡ some (b', i))
        × Expanded (packed full lc) n b' i
  unfolding resize_last push_back
  resize_last-Expanded n h =
      let w = new_chain-Room (add32 lc.off n) (omega arith) in
      let (d, e, v, keeps, o, cap) = assign_lem (new_chain (add32 lc.off n)) lc w.valid l.chain in
      let (c, e', v', keeps', o', cap') = copy_chain_lem d v in
      (
        record (packed full lc) { chains = full ++ c ∷ [] },
        length full,
        rw (e, e', drop_last_snoc full lc) refl,
        record {
          full = full;
          c = c;
          chains = refl;
          index = refl;
          live = live;
          chain = v';
          room = omega (arith, w.enough, l.chain);
          bytes = ap (λ t. contents full ++ t) (keeps' ∙ keeps) ∙ sym (contents_snoc full lc);
          total = refl;
          place = inl refl;
        },
      )

  expand_packed-Expanded :
      (n : ℕ)
      → n < 2 ^ 32
      → (b' : Buffer) × (i : ℕ) × (expand_if_needed (packed full lc) n ≡ some (b', i))
        × Expanded (packed full lc) n b' i
  unfolding expand_if_needed use_next
  expand_packed-Expanded n h = elim (Bool-cases (leb n (chain_free_space lc))) [
    | inl fits ↦ (
      packed full lc,
      length full,
      rw (packed_test full lc l, get_last full lc, fits) refl,
      record {
        full = full;
        c = lc;
        chains = refl;
        index = refl;
        live = live;
        chain = l.chain;
        room = omega (arith, leb→le _ _ fits, l.chain);
        bytes = sym (contents_snoc full lc);
        total = refl;
        place = inl refl;
      },
    )
    | inr tight ↦ elim (Bool-cases (not_worth_expanding lc n)) [
      | inl new ↦
          let (b', i, e, r) = add_chain-Expanded n h in
          (b', i, rw (packed_test full lc l, get_last full lc, tight, new, get_past full lc) e, r)
      | inr worth ↦
          let (b', i, e, r) = resize_last-Expanded n (worth_fits lc n l.chain h worth) in
          (b', i, rw (packed_test full lc l, get_last full lc, tight, worth) e, r)
    ]
  ]

expand_empty-Expanded :
    (n : ℕ)
    → n < 2 ^ 32
    → (b' : Buffer) × (i : ℕ) × (expand_if_needed empty n ≡ some (b', i)) × Expanded empty n b' i
unfolding expand_if_needed push_front contents
expand_empty-Expanded n h =
    let w = new_chain-Room n h in
    (
      record { chains = new_chain n ∷ []; last = none; total = 0 },
      0,
      refl,
      record {
        full = [];
        c = new_chain n;
        chains = refl;
        index = refl;
        live = tt;
        chain = w.valid;
        room = omega (arith, w.off, w.enough);
        bytes = w.no_bytes;
        total = refl;
        place = inr (w.off, tt);
      },
    )

-- On a packed buffer and for any n below 2 ^ 32, `expand_if_needed` does not fault: it gives the last
-- chain, which has room for n more bytes, the chains before it all have data, and no byte is lost or
-- moved out of order. The chain is the last one with data, or is empty and follows it.
pub expand_if_needed-Expanded :
    (b : Buffer) (n : ℕ)
    → IsPacked b
    → n < 2 ^ 32
    → (b' : Buffer) × (i : ℕ) × (expand_if_needed b n ≡ some (b', i)) × Expanded b n b' i
expand_if_needed-Expanded b n is_empty h = expand_empty-Expanded n h
expand_if_needed-Expanded b n (is_packed full lc live l) h =
    expand_packed-Expanded full lc live l n h
