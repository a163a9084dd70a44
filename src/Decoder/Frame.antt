-- ===== src/Decoder/Frame.antt =====
-- `decode(buffer&)` of src/proto/decoder.h on whole and on split frames.
use unp.Base.{
  ℕ, suc, ◌+◌, ◌^◌, ◌<◌, ◌≡◌, ap, ◌∙◌, Option, some, List, ◌++◌, arith, length, length-append,
  add64,
}
use unp.Buffer.Store.{Buffer}
use unp.Buffer.Packed.{view, IsPacked}
use unp.Buffer.Write.Append.{total_lem}
use unp.Decoder.{Decoder, returned, decode, decode_loop, len_size}
use unp.Decoder.Rounds.{waiting, finished, Starts, starts_lem, round_len, round_wait, round_message}

module _ {T : Type 0} (load : List ℕ → ℕ) (parse : List ℕ → Option T) where
  module _ (b : Buffer) (header : List ℕ) (p : IsPacked b) (eight : length header ≡ len_size)
      (small : length (view b) < 2 ^ 63) where
    -- A decoder that is idle or completed is given a packed buffer of fewer than 2 ^ 63 bytes that
    -- starts with a whole frame, a length of eight bytes and a body of that length above 0 and below 2
    -- ^ 31 that parses: three rounds end COMPLETED with the message, the frame's bytes are consumed and
    -- counted, and what follows the frame stays in the packed buffer.
    pub decode_frame :
        (fuel : ℕ) (d : Decoder T) (body rest : List ℕ) (message : T)
        → Starts d
        → view b ≡ header ++ (body ++ rest)
        → load header ≡ length body
        → 0 < length body
        → length body < 2 ^ 31
        → parse body ≡ some message
        → (b' : Buffer) × (n : ℕ) × (decode load parse (suc (suc (suc fuel))) d b
            ≡ returned (finished n (length body) message) b' (len_size + length body))
          × IsPacked b'
          × (view b' ≡ rest)
    decode_frame fuel d body rest message s v len pos short ok =
        let (n, r, l, m, e) = starts_lem load parse (suc (suc (suc fuel))) d b s in
        let (b1, e1, q1, v1) =
          round_len load parse (suc (suc fuel)) n r l m b header (body ++ rest) p v eight small in
        let (b2, e2, q2, v2) =
          round_message load parse fuel (add64 n len_size) len_size b.total m b1 body rest message
            q1 v1 pos short (omega (arith, counted b1 v v1)) (omega arith)
            (omega (arith, total_lem b p, counted b1 v v1)) ok in
        (
          b2,
          add64 (add64 n len_size) (length body),
          e
              ∙ e1
              ∙ ap
                  (λ k.
                    decode_loop load parse (suc (suc fuel)) (waiting (add64 n len_size) k m) b1
                      b.total len_size)
                  len
              ∙ e2,
          q2,
          v2,
        )
      where
        counted :
            (b1 : Buffer)
            → view b ≡ header ++ (body ++ rest)
            → view b1 ≡ body ++ rest
            → length (view b) ≡ len_size + length (view b1)
        counted b1 v v1 =
            omega (arith, ap length v, length-append header (body ++ rest), eight, ap length v1)

    -- A decoder that is idle or completed is given a packed buffer of fewer than 2 ^ 63 bytes, which
    -- has a length below 2 ^ 63 and less than the body that it announces: two rounds consume the eight
    -- bytes of the length and return 8, the decoder waits in LEN_DECODED for that many bytes, and what
    -- came of the body stays in the packed buffer.
    pub decode_partial :
        (fuel : ℕ) (d : Decoder T) (part : List ℕ)
        → Starts d
        → view b ≡ header ++ part
        → length part < load header
        → load header < 2 ^ 63
        → (b' : Buffer) × (n : ℕ) × (m : Option T) × (decode load parse (suc (suc fuel)) d b
            ≡ returned (waiting n (load header) m) b' len_size)
          × IsPacked b'
          × (view b' ≡ part)
    decode_partial fuel d part s v less word =
        let (n, r, l, m, e) = starts_lem load parse (suc (suc fuel)) d b s in
        let (b1, e1, q1, v1) =
          round_len load parse (suc fuel) n r l m b header part p v eight small in
        (
          b1,
          add64 n len_size,
          m,
          e
              ∙ e1
              ∙ round_wait load parse fuel (add64 n len_size) (load header) len_size b.total m b1
                  (omega arith)
                  (omega (arith, total_lem b p, ap length v, length-append header part, eight))
                  (omega (arith, total_lem b p))
                  (omega (arith, total_lem b p, ap length v, length-append header part, eight)),
          q1,
          v1,
        )

  -- A decoder that waits for a body of 1 to 2 ^ 31 - 1 bytes is given a packed buffer of fewer than 2 ^
  -- 63 bytes that starts with it, and it parses: two rounds end COMPLETED with the message, exactly the
  -- bytes of the body are consumed and counted, and what follows stays in the packed buffer.
  pub decode_resumed :
      (fuel total : ℕ) (mess : Option T) (b : Buffer) (body rest : List ℕ) (message : T)
      → IsPacked b
      → view b ≡ body ++ rest
      → 0 < length body
      → length body < 2 ^ 31
      → length (view b) < 2 ^ 63
      → parse body ≡ some message
      → (b' : Buffer) × (decode load parse (suc (suc fuel)) (waiting total (length body) mess) b
          ≡ returned (finished (add64 total (length body)) (length body) message) b' (length body))
        × IsPacked b'
        × (view b' ≡ rest)
  unfolding decode
  decode_resumed fuel total mess b body rest message p v pos short small ok =
      let (b', e, q, gone) =
        round_message load parse fuel total 0 b.total mess b body rest message p v pos short small
          (omega arith) (omega (arith, total_lem b p)) ok in
      let zero_count : 0 + length body ≡ length body = omega arith in
      (
        b',
        e
            ∙ ap (returned (finished (add64 total (length body)) (length body) message) b')
                zero_count,
        q,
        gone,
      )
