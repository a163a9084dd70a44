-- ===== src/Buffer/Copy/Whole.antt =====
-- The copy constructor of `buffer` (src/reactor/buffer.cpp) keeps the bytes.
use unp.Base.{
  suc, ◌<◌, ◌≡◌, refl, sym, ap, ap₂, ◌∙◌, none, some, List, [], ◌∷◌, ◌++◌, arith, length,
}
use unp.Buffer.Chain.{Chain, content, copy_chain, ◌>>=◌}
use unp.Buffer.Chain.Laws.{copy_chain_lem, length-content}
use unp.Buffer.Store.{Buffer, empty}
use unp.Buffer.Packed.{
  contents, view, packed, IsPacked, is_packed, is_empty, IsLive, AllLive, get_last, contents_snoc,
}
use unp.Buffer.Copy.{copy_chains, copy_buffer}

-- A copy of live chains.
record Copied (cs cs' : List Chain) : Type 0 where
  live : AllLive cs'
  bytes : contents cs' ≡ contents cs
  count : length cs' ≡ length cs

copy-IsLive :
    (c : Chain)
    → IsLive c
    → (c' : Chain) × (copy_chain c ≡ some c') × IsLive c' × (content c' ≡ content c)
copy-IsLive c l =
    let (c', e, valid, bytes, off, cap) = copy_chain_lem c l.chain in
    (
      c',
      e,
      record {
        chain = valid;
        nonempty =
            omega (
              arith,
              ap length bytes,
              length-content c l.chain,
              length-content c' valid,
              l.nonempty,
            );
      },
      bytes,
    )

-- The copies keep the last chain apart.
record CopiedSnoc (full : List Chain) (lc : Chain) : Type 0 where
  full' : List Chain
  lc' : Chain
  run : copy_chains (full ++ lc ∷ []) ≡ some (full' ++ lc' ∷ [])
  front : Copied full full'
  back_live : IsLive lc'
  back_bytes : content lc' ≡ content lc

copy_chains_snoc : (full : List Chain) (lc : Chain) → AllLive full → IsLive lc → CopiedSnoc full lc
unfolding copy_chains contents
copy_chains_snoc [] lc live l =
    let (lc', e, l', bytes) = copy-IsLive lc l in
    record {
      full' = [];
      lc' = lc';
      run = rw (e, ◌>>=◌) refl;
      front = record { live = tt; bytes = refl; count = refl };
      back_live = l';
      back_bytes = bytes;
    }
copy_chains_snoc (c ∷ cs) lc live l =
    let (c', e, k, bytes) = copy-IsLive c live.0 in
    let s = copy_chains_snoc cs lc live.1 l in
    record {
      full' = c' ∷ s.full';
      lc' = s.lc';
      run = rw (e, ◌>>=◌) (rw (s.run, ◌>>=◌) refl);
      front = record {
        live = (k, s.front.live);
        bytes = ap₂ ◌++◌ bytes s.front.bytes;
        count = ap suc s.front.count;
      };
      back_live = s.back_live;
      back_bytes = s.back_bytes;
    }

-- The copy constructor of a packed buffer with bytes does not fault: the copy is packed and has the
-- same view.
pub copy_buffer-view :
    (other : Buffer)
    → IsPacked other
    → 0 < length (view other)
    → (b : Buffer) × (copy_buffer other ≡ some b) × IsPacked b × (view b ≡ view other)
unfolding copy_buffer contents
copy_buffer-view other is_empty pos = absurd (omega (arith, pos))
copy_buffer-view other (is_packed full lc live l) pos =
    let s = copy_chains_snoc full lc live l in
    let bytes : contents (s.full' ++ s.lc' ∷ []) ≡ contents (full ++ lc ∷ []) =
      contents_snoc s.full' s.lc'
      ∙ ap₂ ◌++◌ s.front.bytes s.back_bytes
      ∙ sym (contents_snoc full lc) in
    (
      packed s.full' s.lc',
      rw (s.run, ◌>>=◌)
          (rw (sym s.front.count) (rw (get_last s.full' s.lc', ◌>>=◌) (rw bytes refl))),
      is_packed s.full' s.lc' s.front.live s.back_live,
      bytes,
    )

-- `last_chain_with_data_` of an empty buffer is null, which the copy constructor goes past.
pub copy_buffer_of_empty : copy_buffer empty ≡ none
unfolding copy_buffer copy_chains
copy_buffer_of_empty = refl
