-- ===== src/Buffer/Queue.antt =====
-- What `reactor::buffer` of src/reactor/buffer.h promises to those who append and read: a queue of bytes.
-- `step` makes one call of the buffer, and `queue_step` says what the call does to the bytes alone.
mod Refine
mod Tests
use unp.Base.{
  ℕ, ◌+◌, Bool, true, false, ◌||◌, Option, none, some, List, [], ◌∷◌, ◌++◌, length, take, drop, ltb,
  ◌==◌,
}
use unp.Buffer.Chain.{◌>>=◌}
use unp.Buffer.Store.{Buffer}
use unp.Buffer.Write.{append_data, append_value}
use unp.Buffer.Read.{remove, drain, read_value}

-- The calls: `append(data, len)`, `append<T>(value)`, `remove`, `drain`, and `read_T`.
pub data Call : Type 0 where
  put : List ℕ → Call
  put_value : ℕ → List ℕ → Call
  get : ℕ → Call
  skip : ℕ → Call
  look : ℕ → Call

-- What a call returns: -1, a count, or the bytes that it copied out.
pub data Answer : Type 0 where
  refused : Answer
  count : ℕ → Answer
  bytes : List ℕ → Answer

abbrev pub counted : Option ℕ → Answer
counted none = refused
counted (some n) = count n

abbrev pub copied : Option (List ℕ) → Answer
copied none = refused
copied (some xs) = bytes xs

unfoldable pub step : Call → Buffer → Option (Buffer × Answer)
step (put xs) b = do (b', n) ← append_data b (some xs); some (b', counted n)
step (put_value x xs) b = do (b', n) ← append_value b (x ∷ xs); some (b', counted n)
step (get n) b = do (b', out) ← remove b false n; some (b', copied out)
step (skip n) b = do (b', out) ← drain b n; some (b', counted out)
step (look n) b = do (b', out) ← read_value b n; some (b', copied out)

unfoldable pub run : List Call → Buffer → Option (Buffer × List Answer)
run [] b = some (b, [])
run (call ∷ calls) b = do
  (b', answer) ← step call b
  (b'', answers) ← run calls b'
  some (b'', answer ∷ answers)

-- Whether a read of `n` bytes is refused.
abbrev pub short : ℕ → List ℕ → Bool
short n queue = n == 0 || ltb (length queue) n

abbrev pub queue_step : Call → List ℕ → List ℕ × Answer
queue_step (put []) queue = (queue, refused)
queue_step (put (x ∷ xs)) queue = (queue ++ x ∷ xs, count (length (x ∷ xs)))
queue_step (put_value x xs) queue = (queue ++ x ∷ xs, count (length (x ∷ xs)))
queue_step (get n) queue = elim (short n queue) [
  | true ↦ (queue, refused)
  | false ↦ (drop n queue, bytes (take n queue))
]
queue_step (skip n) queue = elim (short n queue) [
  | true ↦ (queue, refused)
  | false ↦ (drop n queue, count n)
]
queue_step (look n) queue = elim (short n queue) [
  | true ↦ (queue, refused)
  | false ↦ (queue, bytes (take n queue))
]

abbrev pub queue_run : List Call → List ℕ → List ℕ × List Answer
queue_run [] queue = (queue, [])
queue_run (call ∷ calls) queue =
    let (queue', answer) = queue_step call queue in
    let (queue'', answers) = queue_run calls queue' in (queue'', answer ∷ answers)

-- The size that a call names, a `uint32_t` or below it.
abbrev pub call_size : Call → ℕ
call_size (put xs) = length xs
call_size (put_value x xs) = length (x ∷ xs)
call_size (get n) = n
call_size (skip n) = n
call_size (look n) = n

abbrev pub bytes_put : Call → ℕ
bytes_put (put xs) = length xs
bytes_put (put_value x xs) = length (x ∷ xs)
bytes_put _ = 0

abbrev pub all_put : List Call → ℕ
all_put [] = 0
all_put (call ∷ calls) = bytes_put call + all_put calls

-- A predicate that holds of each call.
abbrev pub All : (Call → Type 0) → List Call → Type 0
All P [] = Unit
All P (call ∷ calls) = P call × All P calls
