-- ===== src/Decoder/Faults.antt =====
-- What `decode(buffer&)` of src/proto/decoder.h does with a split length and with a bad message.
use unp.Base.{
  ℕ, zero, suc, ◌+◌, ◌-◌, ◌^◌, ◌≤◌, ◌<◌, ◌≡◌, refl, ap, ◌∙◌, Option, none, some, List, ◌++◌, arith,
  length, length-append, ltb, add64, sub64, ◌==◌, false, true, u64_mod,
}
use unp.Buffer.Store.{Buffer}
use unp.Buffer.Packed.{view, IsPacked}
use unp.Buffer.Write.Append.{total_lem}
use unp.Decoder.{
  Decoder, idle, completed, returned, running, decode, decode_loop, decode_remain, turn, turn_idle,
  turn_message, len_size,
}
use unp.Decoder.Length.{decode_remain_bad}
use unp.Decoder.Rounds.{waiting, Starts, starts_lem, round_len}

module _ {T : Type 0} (load : List ℕ → ℕ) (parse : List ℕ → Option T) (b : Buffer)
    (p : IsPacked b) where
  idle_stuck :
      (fuel n r l : ℕ) (m : Option T)
      → 0 < length (view b)
      → length (view b) < len_size
      → decode_loop load parse fuel
          (record { bytes_parsed = n; bytes_remain = r; state = idle; mess_len = l; mess = m })
          b
          b.total
          0
        ≡ running
  unfolding decode_loop turn turn_idle
  idle_stuck zero n r l m pos less = refl
  idle_stuck (suc fuel) n r l m pos less =
      rw (some_left, decode_loop)
        (rw (short, decode_loop, turn_idle) (idle_stuck fuel n r l m pos less))
    where
      some_left : (sub64 b.total 0 == 0) ≡ false
      some_left = ground (arith, total_lem b p)

      short : ltb b.total len_size ≡ true
      short = ground (arith, total_lem b p)

  -- A decoder that is idle or completed is given a packed buffer with one to seven bytes: the loop of
  -- `decode` never ends, whatever number of rounds it is given.
  pub decode_short_header :
      (fuel : ℕ) (d : Decoder T)
      → Starts d
      → 0 < length (view b)
      → length (view b) < len_size
      → decode load parse fuel d b ≡ running
  decode_short_header fuel d s pos less =
      let (n, r, l, m, e) = starts_lem load parse fuel d b s in e ∙ idle_stuck fuel n r l m pos less

  bad_end :
      (fuel total len buf_len : ℕ) (m : Option T) (b1 b2 : Buffer)
      → 0 < len
      → len_size + len ≤ buf_len
      → buf_len < 2 ^ 64
      → decode_remain load parse (waiting total len m) b1
        ≡ some (
          record { bytes_parsed = 0; bytes_remain = 0; state = idle; mess_len = 0; mess = none },
          b2,
          u64_mod - 1,
        )
      → decode_loop load parse (suc (suc fuel)) (waiting total len m) b1 buf_len len_size
        ≡ returned
            (record {
              bytes_parsed = 0;
              bytes_remain = 0;
              state = completed;
              mess_len = 0;
              mess = none;
            })
            b2
            7
  unfolding decode_loop turn turn_message
  bad_end fuel total len buf_len m b1 b2 pos fits small e =
      let nonzero : (sub64 buf_len len_size == 0) ≡ false = ground arith in
      let enough : ltb (sub64 buf_len len_size) len ≡ false = ground arith in
      let left : (sub64 buf_len 7 == 0) ≡ false = ground arith in
      rw (nonzero, decode_loop)
        (rw (enough, decode_loop, turn_message)
          (rw (e, decode_loop, turn_message) (rw (left, decode_loop) refl)))

  -- A decoder that is idle or completed is given a packed buffer of fewer than 2 ^ 63 bytes that starts
  -- with a whole frame, whose body of 1 to 2 ^ 31 - 1 bytes does not parse: it ends COMPLETED, not
  -- ERROR, with no message; the body stays in the buffer, and 7 is returned.
  pub decode_bad_message :
      (fuel : ℕ) (d : Decoder T) (header body rest : List ℕ)
      → Starts d
      → length header ≡ len_size
      → length (view b) < 2 ^ 63
      → view b ≡ header ++ (body ++ rest)
      → load header ≡ length body
      → 0 < length body
      → length body < 2 ^ 31
      → parse body ≡ none
      → (b' : Buffer) × (decode load parse (suc (suc (suc fuel))) d b
          ≡ returned
              (record {
                bytes_parsed = 0;
                bytes_remain = 0;
                state = completed;
                mess_len = 0;
                mess = none;
              })
              b'
              7)
        × IsPacked b'
        × (view b' ≡ body ++ rest)
  decode_bad_message fuel d header body rest s eight small v len pos short bad =
      let (n, r, l, m, e) = starts_lem load parse (suc (suc (suc fuel))) d b s in
      let (b1, e1, q1, v1) =
        round_len load parse (suc (suc fuel)) n r l m b header (body ++ rest) p v eight small in
      let counts : length (view b) ≡ len_size + length (view b1) = counted b1 v v1 eight in
      let fits : length (view b1) ≡ length body + length rest =
        ap length v1 ∙ length-append body rest in
      let (b2, e2, q2, v2) =
        decode_remain_bad load parse (waiting (add64 n len_size) (length body) m) b1 body rest q1 v1
          pos short (omega (arith, counts)) refl refl bad in
      (
        b2,
        e
            ∙ e1
            ∙ ap
                (λ k.
                  decode_loop load parse (suc (suc fuel)) (waiting (add64 n len_size) k m) b1
                    b.total len_size)
                len
            ∙ bad_end fuel (add64 n len_size) (length body) b.total m b1 b2 pos
                (omega (arith, counts, fits, total_lem b p)) (omega (arith, total_lem b p)) e2,
        q2,
        v2 ∙ v1,
      )
    where
      counted :
          (b1 : Buffer)
          → view b ≡ header ++ (body ++ rest)
          → view b1 ≡ body ++ rest
          → length header ≡ len_size
          → length (view b) ≡ len_size + length (view b1)
      counted b1 v v1 eight =
          omega (arith, ap length v, length-append header (body ++ rest), eight, ap length v1)
