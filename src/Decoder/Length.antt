-- ===== src/Decoder/Length.antt =====
-- The two steps of src/proto/decoder.h on a packed buffer: the length, then the message.
use unp.Base.{
  ℕ, ◌-◌, ◌^◌, ◌≤◌, ◌<◌, ◌≡◌, refl, ap, ◌∙◌, Option, none, some, List, ◌++◌, arith, length,
  length-append, take, drop, take-append_left, take_all, le→ltb, lt→ltb, to_u32, add64, sub64,
  u64_mod, ◌==◌, true, drop-append_left, drop_all,
}
use unp.Buffer.Store.{Buffer}
use unp.Buffer.Packed.{view, IsPacked}
use unp.Buffer.Write.Append.{total_lem}
use unp.Base.Int.{pos}
use unp.Buffer.Read.{drain, pullup}
use unp.Buffer.Read.Remove.{drain-view}
use unp.Buffer.Read.Pullup.{read_value-view, pullup-view}
use unp.Decoder.{Decoder, DecodeState, decode_len, decode_remain, take_message, len_size, signed64}

-- The front of a sequence, and what is behind it.
pub take_prefix : (xs ys : List ℕ) → take (length xs) (xs ++ ys) ≡ xs
take_prefix xs ys =
    take-append_left (length xs) xs ys (omega arith) ∙ take_all (length xs) xs (omega arith)

pub drop_prefix : (xs ys : List ℕ) → drop (length xs) (xs ++ ys) ≡ ys
drop_prefix xs ys =
    drop-append_left (length xs) xs ys (omega arith)
    ∙ ap (λ t. t ++ ys) (drop_all (length xs) xs (omega arith))

module _ {T : Type 0} (load : List ℕ → ℕ) (parse : List ℕ → Option T) (d : Decoder T)
    (b : Buffer) where
  -- The length is read off the front of the view, and taken away.
  pub decode_len-view :
      (header rest : List ℕ)
      → IsPacked b
      → view b ≡ header ++ rest
      → length header ≡ len_size
      → length (view b) < 2 ^ 63
      → (b' : Buffer) × (decode_len load parse d b
          ≡ some (
            record d {
              mess_len = load header;
              bytes_parsed = add64 d.bytes_parsed len_size;
              bytes_remain = load header;
            },
            b',
            len_size,
          ))
        × IsPacked b'
        × (view b' ≡ rest)
  unfolding decode_len
  decode_len-view header rest p v eight small =
      let enough : len_size ≤ length (view b) =
        omega (arith, ap length v, length-append header rest) in
      let (b1, e, q, keeps) = read_value-view b len_size p (omega arith) enough (omega arith) in
      let (b2, e', q', gone) =
        drain-view b1 len_size q (omega arith) (omega (arith, ap length keeps)) (omega arith)
          (omega (arith, ap length keeps)) in
      let front : take len_size (view b) ≡ header = rw (v, ← eight) (take_prefix header rest) in
      (
        b2,
        rw (le→ltb b.total len_size (omega (arith, total_lem b p)), e, front, e') refl,
        q',
        gone ∙ rw (keeps, v, ← eight) (drop_prefix header rest),
      )

  module _ (body rest : List ℕ) (p : IsPacked b) (v : view b ≡ body ++ rest)
      (some_body : 0 < length body) (short : length body < 2 ^ 31)
      (small : length (view b) < 2 ^ 63) (want : d.mess_len ≡ length body)
      (left : d.bytes_remain ≡ length body) where
    enough : length body ≤ length (view b)
    enough = omega (arith, ap length v, length-append body rest)

    parsed_part :
        (b1 : Buffer) (bytes : List ℕ)
        → pullup b (signed64 d.mess_len) ≡ some (b1, some bytes)
        → take d.mess_len bytes ≡ body
        → decode_remain load parse d b ≡ take_message load parse d b1 body
    unfolding decode_remain
    parsed_part b1 bytes e front =
        rw (le→ltb b.total d.bytes_remain (omega (arith, enough, total_lem b p)), same_test, e)
          (ap (take_message load parse d b1) front)
      where
        same_test : (d.mess_len == d.bytes_remain) ≡ true
        same_test = ground arith

    signed_want : signed64 d.mess_len ≡ pos (length body)
    signed_want = rw want (rw (lt→ltb (length body) (2 ^ 63) (omega arith)) refl)

    -- Up to the parse nothing is lost, and the parser gets exactly the body.
    gathered :
        (b' : Buffer) × (decode_remain load parse d b ≡ take_message load parse d b' body)
        × IsPacked b'
        × (view b' ≡ view b)
    gathered =
        let (b1, bytes, e, q) = pullup-view b (length body) p some_body enough (omega arith) in
        let body_front : take d.mess_len bytes ≡ body =
          ap (λ k. take k bytes) want
          ∙ q.front
          ∙ ap (take (length body)) v
          ∙ take_prefix body rest in
        (b1, parsed_part b1 bytes (ap (pullup b) signed_want ∙ e) body_front, q.packed, q.keeps)

    -- A body that parses becomes the message, and is taken away.
    pub decode_remain-view :
        (message : T)
        → parse body ≡ some message
        → (b' : Buffer) × (decode_remain load parse d b
            ≡ some (
              record d {
                mess = some message;
                bytes_parsed = add64 d.bytes_parsed d.mess_len;
                bytes_remain = sub64 d.bytes_remain d.mess_len;
              },
              b',
              d.mess_len,
            ))
          × IsPacked b'
          × (view b' ≡ rest)
    unfolding take_message
    decode_remain-view message parsed =
        let (b1, e, q, keeps) = gathered in
        let word : to_u32 d.mess_len ≡ length body = omega arith in
        let (b2, e', q', gone) =
          drain-view b1 (length body) q some_body (omega (arith, enough, ap length keeps))
            (omega arith) (omega (arith, ap length keeps)) in
        let drained : drain b1 (to_u32 d.mess_len) ≡ some (b2, some (length body)) =
          ap (drain b1) word ∙ e' in
        (
          b2,
          e ∙ rw (parsed, take_message) (rw drained refl),
          q',
          gone ∙ rw (keeps, v) (drop_prefix body rest),
        )

    -- A body that does not parse stays in the buffer, and the decoder is reset.
    pub decode_remain_bad :
        parse body ≡ none
        → (b' : Buffer) × (decode_remain load parse d b
            ≡ some (
              record {
                bytes_parsed = 0;
                bytes_remain = 0;
                state = DecodeState.idle;
                mess_len = 0;
                mess = none;
              },
              b',
              u64_mod - 1,
            ))
          × IsPacked b'
          × (view b' ≡ view b)
    unfolding take_message
    decode_remain_bad bad =
        let (b1, e, q, keeps) = gathered in (b1, e ∙ rw (bad, take_message) refl, q, keeps)
