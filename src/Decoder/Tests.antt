-- ===== src/Decoder/Tests.antt =====
-- The decoder at concrete inputs: a little-endian machine, and messages whose first byte is not zero.
use unp.Base.{
  ℕ, zero, suc, ◌+◌, ◌*◌, ◌≡◌, refl, inl, Option, none, some, List, [], ◌∷◌, ◌++◌, arith, length,
  add64,
}
use unp.Buffer.Chain.{Chain, content}
use unp.Buffer.Store.{Buffer}
use unp.Buffer.Packed.{view, contents, packed, IsPacked, is_packed, IsLive}
use unp.Decoder.{Decoder, idle, completed, returned, decode}
use unp.Decoder.Rounds.{waiting, finished}
use unp.Decoder.Frame.{decode_frame, decode_partial, decode_resumed}
use unp.Decoder.Faults.{decode_bad_message}

abbrev little_endian : List ℕ → ℕ
little_endian [] = 0
little_endian (x ∷ xs) = x + 256 * little_endian xs

abbrev parse_bytes : List ℕ → Option (List ℕ)
parse_bytes [] = none
parse_bytes (zero ∷ xs) = none
parse_bytes (suc x ∷ xs) = some (suc x ∷ xs)

abbrev header : List ℕ
header = 3 ∷ 0 ∷ 0 ∷ 0 ∷ 0 ∷ 0 ∷ 0 ∷ 0 ∷ []

abbrev header_chain : Chain
header_chain = record { mem = header; capacity = 8; off = 8; misalign = 0 }

abbrev chain_of : ℕ → Chain
chain_of x = record { mem = x ∷ 6 ∷ 7 ∷ 8 ∷ []; capacity = 4; off = 4; misalign = 0 }

abbrev part_chain : Chain
part_chain = record { mem = 5 ∷ 6 ∷ []; capacity = 2; off = 2; misalign = 0 }

header_chain-IsLive : IsLive header_chain
header_chain-IsLive = record {
  chain = record { starts = omega arith; ends = omega arith; block = refl; word = omega arith };
  nonempty = omega arith;
}

chain_of-IsLive : (x : ℕ) → IsLive (chain_of x)
chain_of-IsLive x = record {
  chain = record { starts = omega arith; ends = omega arith; block = refl; word = omega arith };
  nonempty = omega arith;
}

part_chain-IsLive : IsLive part_chain
part_chain-IsLive = record {
  chain = record { starts = omega arith; ends = omega arith; block = refl; word = omega arith };
  nonempty = omega arith;
}

abbrev frame : ℕ → Buffer
frame x = packed (header_chain ∷ []) (chain_of x)

frame-IsPacked : (x : ℕ) → IsPacked (frame x)
frame-IsPacked x =
    is_packed (header_chain ∷ []) (chain_of x) (header_chain-IsLive, tt) (chain_of-IsLive x)

view-frame : (x : ℕ) → view (frame x) ≡ header ++ ((x ∷ 6 ∷ 7 ∷ []) ++ (8 ∷ []))
unfolding contents content
view-frame x = refl

length-frame : (x : ℕ) → length (view (frame x)) ≡ 12
unfolding contents content
length-frame x = refl

abbrev start : Decoder (List ℕ)
start = record { bytes_parsed = 0; bytes_remain = 0; state = idle; mess_len = 0; mess = none }

decode_frame_example :
    (b' : Buffer) × (n : ℕ) × (decode little_endian parse_bytes 3 start (frame 5)
      ≡ returned (finished n 3 (5 ∷ 6 ∷ 7 ∷ [])) b' 11)
    × IsPacked b'
    × (view b' ≡ 8 ∷ [])
decode_frame_example =
    decode_frame little_endian parse_bytes (frame 5) header (frame-IsPacked 5) refl
      (omega (arith, length-frame 5)) 0 start (5 ∷ 6 ∷ 7 ∷ []) (8 ∷ []) (5 ∷ 6 ∷ 7 ∷ []) (inl refl)
      (view-frame 5) refl (omega arith) (omega arith) refl

abbrev split_frame : Buffer
split_frame = packed (header_chain ∷ []) part_chain

view-split_frame : view split_frame ≡ header ++ (5 ∷ 6 ∷ [])
unfolding contents content
view-split_frame = refl

length-split_frame : length (view split_frame) ≡ 10
unfolding contents content
length-split_frame = refl

decode_partial_example :
    (b' : Buffer) × (n : ℕ) × (m : Option (List ℕ)) × (decode little_endian parse_bytes 2 start
        split_frame
      ≡ returned (waiting n 3 m) b' 8)
    × IsPacked b'
    × (view b' ≡ 5 ∷ 6 ∷ [])
decode_partial_example =
    decode_partial little_endian parse_bytes split_frame header
      (is_packed (header_chain ∷ []) part_chain (header_chain-IsLive, tt) part_chain-IsLive) refl
      (omega (arith, length-split_frame)) 0 start (5 ∷ 6 ∷ []) (inl refl) view-split_frame
      (omega arith) (omega arith)

abbrev body_only : Buffer
body_only = packed [] (chain_of 5)

view-body_only : view body_only ≡ (5 ∷ 6 ∷ 7 ∷ []) ++ (8 ∷ [])
unfolding contents content
view-body_only = refl

length-body_only : length (view body_only) ≡ 4
unfolding contents content
length-body_only = refl

decode_resumed_example :
    (b' : Buffer) × (decode little_endian parse_bytes 2 (waiting 8 3 none) body_only
      ≡ returned (finished (add64 8 3) 3 (5 ∷ 6 ∷ 7 ∷ [])) b' 3)
    × IsPacked b'
    × (view b' ≡ 8 ∷ [])
decode_resumed_example =
    decode_resumed little_endian parse_bytes 0 8 none body_only (5 ∷ 6 ∷ 7 ∷ []) (8 ∷ [])
      (5 ∷ 6 ∷ 7 ∷ []) (is_packed [] (chain_of 5) tt (chain_of-IsLive 5)) view-body_only
      (omega arith) (omega arith) (omega (arith, length-body_only)) refl

decode_bad_message_example :
    (b' : Buffer) × (decode little_endian parse_bytes 3 start (frame 0)
      ≡ returned
          (record {
            bytes_parsed = 0;
            bytes_remain = 0;
            state = completed;
            mess_len = 0;
            mess = none;
          })
          b'
          7)
    × IsPacked b'
    × (view b' ≡ 0 ∷ 6 ∷ 7 ∷ 8 ∷ [])
decode_bad_message_example =
    decode_bad_message little_endian parse_bytes (frame 0) (frame-IsPacked 0) 0 start header
      (0 ∷ 6 ∷ 7 ∷ []) (8 ∷ []) (inl refl) refl (omega (arith, length-frame 0)) (view-frame 0) refl
      (omega arith) (omega arith) refl
