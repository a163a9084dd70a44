-- ===== src/Decoder/Rounds.antt =====
-- The rounds of the loop of `decode(buffer&)` of src/proto/decoder.h on a packed buffer.
use unp.Base.{
  ℕ, suc, ◌+◌, ◌^◌, ◌≤◌, ◌<◌, ◌≡◌, refl, ap, ◌⊎◌, inl, inr, Option, none, some, List, ◌++◌, arith,
  length, length-append, ltb, add64, sub64, ◌==◌, ◌||◌, true, false, Bool, Bool-cases,
}
use unp.Buffer.Store.{Buffer}
use unp.Buffer.Packed.{view, IsPacked}
use unp.Buffer.Write.Append.{total_lem}
use unp.Decoder.{
  Decoder, idle, len_decoded, completed, returned, decode, decode_loop, decode_remain, turn,
  turn_idle, turn_message, len_size,
}
use unp.Decoder.Length.{decode_len-view, decode_remain-view}

-- The decoder between the two parts of a frame.
abbrev pub waiting : {T : Type 0} → ℕ → ℕ → Option T → Decoder T
waiting total len mess = record {
  bytes_parsed = total;
  bytes_remain = len;
  state = len_decoded;
  mess_len = len;
  mess = mess;
}

abbrev pub finished : {T : Type 0} → ℕ → ℕ → T → Decoder T
finished total len message = record {
  bytes_parsed = total;
  bytes_remain = 0;
  state = completed;
  mess_len = len;
  mess = some message;
}

-- What is neither reading a message nor failed: the decoder starts a frame.
abbrev pub Starts : {T : Type 0} → Decoder T → Type 0
Starts d = (d.state ≡ idle) ⊎ (d.state ≡ completed)

module _ {T : Type 0} (load : List ℕ → ℕ) (parse : List ℕ → Option T) where
  -- The round that reads the length.
  pub round_len :
      (fuel bytes_parsed remain mess_len : ℕ) (mess : Option T) (b : Buffer) (header rest : List ℕ)
      → IsPacked b
      → view b ≡ header ++ rest
      → length header ≡ len_size
      → length (view b) < 2 ^ 63
      → (b' : Buffer) × (decode_loop load parse
            (suc fuel)
            (record {
              bytes_parsed = bytes_parsed;
              bytes_remain = remain;
              state = idle;
              mess_len = mess_len;
              mess = mess;
            })
            b
            b.total
            0
          ≡ decode_loop load parse fuel
              (waiting (add64 bytes_parsed len_size) (load header) mess)
              b'
              b.total
              len_size)
        × IsPacked b'
        × (view b' ≡ rest)
  unfolding decode_loop turn turn_idle
  round_len fuel bytes_parsed remain mess_len mess b header rest p v eight small =
      let d : Decoder T = record {
        bytes_parsed = bytes_parsed;
        bytes_remain = remain;
        state = idle;
        mess_len = mess_len;
        mess = mess;
      } in
      let (b', e, q, gone) = decode_len-view load parse d b header rest p v eight small in
      let some_bytes : (sub64 b.total 0 == 0) ≡ false = ground (arith, count, total_lem b p) in
      let enough : ltb b.total len_size ≡ false = ground (arith, count, total_lem b p) in
      (
        b',
        rw (some_bytes, decode_loop)
            (rw (enough, decode_loop, turn_idle) (rw (e, decode_loop, turn_idle) refl)),
        q,
        gone,
      )
    where
      count : length (view b) ≡ len_size + length rest
      count = omega (arith, ap length v, length-append header rest, eight)

  -- The round that finds the message too short, or nothing left.
  pub round_wait :
      (fuel total len parsed buf_len : ℕ) (mess : Option T) (b : Buffer)
      → 0 < len
      → parsed ≤ buf_len
      → buf_len < 2 ^ 64
      → buf_len < parsed + len
      → decode_loop load parse (suc fuel) (waiting total len mess) b buf_len parsed
        ≡ returned (waiting total len mess) b parsed
  unfolding decode_loop turn turn_message
  round_wait fuel total len parsed buf_len mess b pos le small less =
      elim (Bool-cases (sub64 buf_len parsed == 0)) [
        | inl none_left ↦ rw (none_left, decode_loop) refl
        | inr some_left ↦ rw (some_left, decode_loop) (rw (short, decode_loop, turn_message) refl)
      ]
    where
      short : ltb (sub64 buf_len parsed) len ≡ true
      short = ground arith

  -- The round that takes the message, and the one that finds the decoder completed.
  pub message_end :
      (fuel total parsed buf_len len : ℕ) (mess : Option T) (b b' : Buffer) (message : T)
      → 0 < len
      → parsed + len ≤ buf_len
      → buf_len < 2 ^ 64
      → parsed ≤ len_size
      → decode_remain load parse (waiting total len mess) b
        ≡ some (
          record {
            bytes_parsed = add64 total len;
            bytes_remain = sub64 len len;
            state = len_decoded;
            mess_len = len;
            mess = some message;
          },
          b',
          len,
        )
      → decode_loop load parse (suc (suc fuel)) (waiting total len mess) b buf_len parsed
        ≡ returned (finished (add64 total len) len message) b' (parsed + len)
  unfolding decode_loop turn turn_message
  message_end fuel total parsed buf_len len mess b b' message pos fits small low e =
      let nonzero : (sub64 buf_len parsed == 0) ≡ false = ground arith in
      let enough : ltb (sub64 buf_len parsed) len ≡ false = ground arith in
      let done : sub64 len len ≡ 0 = omega arith in
      let sum : add64 parsed len ≡ parsed + len = omega arith in
      rw (nonzero, decode_loop)
        (rw (enough, decode_loop, turn_message)
          (rw (e, decode_loop, turn_message)
            (rw (done, decode_loop) (rw (or_true _, decode_loop) (rw (done, sum) refl)))))
    where
      or_true : (c : Bool) → (c || true) ≡ true
      or_true c = ground arith

  pub round_message :
      (fuel total parsed buf_len : ℕ) (mess : Option T) (b : Buffer) (body rest : List ℕ)
      (message : T)
      → IsPacked b
      → view b ≡ body ++ rest
      → 0 < length body
      → length body < 2 ^ 31
      → length (view b) < 2 ^ 63
      → parsed ≤ len_size
      → buf_len ≡ parsed + length (view b)
      → parse body ≡ some message
      → (b' : Buffer) × (decode_loop load parse
            (suc (suc fuel))
            (waiting total (length body) mess)
            b
            buf_len
            parsed
          ≡ returned
              (finished (add64 total (length body)) (length body) message)
              b'
              (parsed + length body))
        × IsPacked b'
        × (view b' ≡ rest)
  round_message fuel total parsed buf_len mess b body rest message p v pos short small low counted
        ok =
      let (b', e, q, gone) =
        decode_remain-view load parse (waiting total (length body) mess) b body rest p v pos short
          small refl refl message ok in
      let enough : length body ≤ length (view b) =
        omega (arith, ap length v, length-append body rest) in
      (
        b',
        message_end fuel total parsed buf_len (length body) mess b b' message (omega arith)
            (omega arith) (omega arith) (omega arith) e,
        q,
        gone,
      )

  pub starts_lem :
      (fuel : ℕ) (d : Decoder T) (b : Buffer)
      → Starts d
      → (n r l : ℕ) × (m : Option T) × (decode load parse fuel d b
          ≡ decode_loop load parse fuel
              (record { bytes_parsed = n; bytes_remain = r; state = idle; mess_len = l; mess = m })
              b
              b.total
              0)
  unfolding decode
  starts_lem fuel d b (inl e) = (d.bytes_parsed, d.bytes_remain, d.mess_len, d.mess, rw e refl)
  starts_lem fuel d b (inr e) = (0, 0, 0, none, rw e refl)
