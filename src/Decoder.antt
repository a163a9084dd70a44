-- ===== src/Decoder.antt =====
-- `reactor::Decoder<T, int64_t>` of src/proto/decoder.h over the chained buffer: a length of eight bytes,
-- then that many bytes of a message. A Len_T is its 64-bit pattern. The machine's reading of a length
-- (`load`) and protobuf's `ParseFromArray` (`parse`) are parameters; logging is left out.
pub mod Length
pub mod Rounds
pub mod Frame
pub mod Faults
mod Tests
use unp.Base.{
  ℕ, zero, suc, ◌-◌, ◌^◌, Bool, true, false, ◌||◌, Option, none, some, List, take, ltb, ◌==◌,
  if◌then◌else◌, to_u32, add64, sub64, u64_mod,
}
use unp.Base.Int.{ℤ, pos, negsuc}
use unp.Buffer.Chain.{◌>>=◌}
use unp.Buffer.Store.{Buffer}
use unp.Buffer.Read.{drain, pullup, read_value}

pub data DecodeState : Type 0 where
  idle len_decoded partialy_parsed completed error : DecodeState

pub record Decoder (T : Type 0) : Type 0 where
  pub bytes_parsed : ℕ
  pub bytes_remain : ℕ
  pub state : DecodeState
  pub mess_len : ℕ
  pub mess : Option T

abbrev pub len_size : ℕ
len_size = 8

-- The `int64_t` of a bit pattern.
abbrev pub signed64 : ℕ → ℤ
signed64 n = if ltb n (2 ^ 63) then pos n else negsuc (u64_mod - 1 - n)

abbrev pub is_completed : DecodeState → Bool
is_completed completed = true
is_completed _ = false

-- What one round of the loop of `decode` does: it returns, or goes on with `bytesParsed`.
pub data Turn (T : Type 0) : Type 0 where
  stop : Decoder T → Buffer → ℕ → Turn T
  again : Decoder T → Buffer → ℕ → Turn T
  crash : Turn T

pub data Decoded (T : Type 0) : Type 0 where
  returned : Decoder T → Buffer → ℕ → Decoded T
  running : Decoded T
  fault : Decoded T

module _ {T : Type 0} (load : List ℕ → ℕ) (parse : List ℕ → Option T) where
  unfoldable pub reset : Decoder T → Decoder T
  reset d = record { bytes_parsed = 0; bytes_remain = 0; state = idle; mess_len = 0; mess = none }

  unfoldable pub decode_len : Decoder T → Buffer → Option (Decoder T × Buffer × ℕ)
  decode_len d b = if ltb b.total len_size then some (d, b, 0) else (do
    (b', value) ← read_value b len_size
    elim value [
      | none ↦ some (record d { mess_len = 0 }, b', 0)
      | some bytes ↦ do
        (b'', n) ← drain b' len_size
        some (
          record d {
            mess_len = load bytes;
            bytes_parsed = add64 d.bytes_parsed len_size;
            bytes_remain = load bytes;
          },
          b'',
          len_size,
        )
    ])

  -- A message that does not parse sets ERROR, then resets the decoder, and the result is -1.
  unfoldable pub take_message : Decoder T → Buffer → List ℕ → Option (Decoder T × Buffer × ℕ)
  unfolding reset
  take_message d b bytes = elim (parse bytes) [
    | none ↦ some (reset (record d { state = error }), b, u64_mod - 1)
    | some message ↦ do
      (b', n) ← drain b (to_u32 d.mess_len)
      some (
        record d {
          mess = some message;
          bytes_parsed = add64 d.bytes_parsed d.mess_len;
          bytes_remain = sub64 d.bytes_remain d.mess_len;
        },
        b',
        d.mess_len,
      )
  ]

  unfoldable pub decode_remain : Decoder T → Buffer → Option (Decoder T × Buffer × ℕ)
  decode_remain d b =
      if ltb b.total d.bytes_remain
      then some (d, b, 0)
      else if d.mess_len == d.bytes_remain
      then (do
        (b', start) ← pullup b (signed64 d.mess_len)
        elim start [
          | none ↦ some (d, b', 0)
          | some bytes ↦ take_message d b' (take d.mess_len bytes)
        ])
      else none

  unfoldable pub turn_idle : Decoder T → Buffer → ℕ → ℕ → Turn T
  turn_idle d b buf_len parsed =
      if ltb buf_len len_size then again d b parsed else (elim (decode_len d b) [
        | none ↦ crash
        | some (d', b', n) ↦
            again (record d' { state = if n == len_size then len_decoded else d'.state }) b' n
      ])

  unfoldable pub turn_message : Decoder T → Buffer → ℕ → ℕ → Turn T
  turn_message d b buf_len parsed =
      if ltb (sub64 buf_len parsed) d.bytes_remain
      then stop d b parsed
      else (elim (decode_remain d b) [
        | none ↦ crash
        | some (d', b', n) ↦
            again (record d' { state = if d'.bytes_remain == 0 then completed else d'.state }) b'
              (add64 parsed n)
      ])

  -- The body of the loop, by the state.
  unfoldable pub turn : DecodeState → Decoder T → Buffer → ℕ → ℕ → Turn T
  turn idle d b buf_len parsed = turn_idle d b buf_len parsed
  turn len_decoded d b buf_len parsed = turn_message d b buf_len parsed
  turn partialy_parsed d b buf_len parsed = turn_message d b buf_len parsed
  turn completed d b buf_len parsed = again d b parsed
  turn error d b buf_len parsed = stop d b 0

  unfoldable pub decode_loop : ℕ → Decoder T → Buffer → ℕ → ℕ → Decoded T
  decode_loop zero d b buf_len parsed = running
  decode_loop (suc fuel) d b buf_len parsed =
      elim (sub64 buf_len parsed == 0 || is_completed d.state) [
        | true ↦ returned d b parsed
        | false ↦ elim (turn d.state d b buf_len parsed) [
          | stop d' b' n ↦ returned d' b' n
          | again d' b' n ↦ decode_loop fuel d' b' buf_len n
          | crash ↦ fault
        ]
      ]

  -- `decode(buffer&)`
  unfoldable pub decode : ℕ → Decoder T → Buffer → Decoded T
  unfolding reset
  decode fuel d b = decode_loop fuel (if is_completed d.state then reset d else d) b b.total 0
