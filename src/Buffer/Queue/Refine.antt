-- ===== src/Buffer/Queue/Refine.antt =====
-- The buffer of src/reactor/buffer.cpp refines the queue of bytes.
use unp.Base.{
  ℕ, ◌+◌, ◌^◌, ◌≤◌, ◌<◌, ◌≡◌, refl, ap, ◌∙◌, ◌⊎◌, inl, inr, true, false, Option, none, some, List,
  [], ◌∷◌, arith, length, length-append, length-drop, Bool-cases,
}
use unp.Buffer.Chain.{◌>>=◌}
use unp.Buffer.Store.{Buffer}
use unp.Buffer.Packed.{view, IsPacked}
use unp.Buffer.Write.{append_data}
use unp.Buffer.Write.Append.{append_data-view, append_value-view, total_lem}
use unp.Buffer.Read.{drain, pullup, read_value}
use unp.Buffer.Read.Remove.{remove-view, remove_refused, drain-view}
use unp.Buffer.Read.Pullup.{read_value-view}
use unp.Buffer.Queue.{
  Call, put, put_value, get, skip, look, step, run, short, queue_step, queue_run, call_size,
  bytes_put, all_put, All,
}

-- A run of the code that gives what the queue gives.
abbrev pub Refines : {A : Type 0} → Option (Buffer × A) → List ℕ × A → Type 0
Refines result spec =
    (b' : Buffer) × (result ≡ some (b', spec.1)) × IsPacked b' × (view b' ≡ spec.0)

-- A call adds no more bytes than it puts.
queue_bytes :
    (call : Call) (queue : List ℕ)
    → length (queue_step call queue).0 ≤ length queue + bytes_put call
queue_bytes (put []) queue = omega arith
queue_bytes (put (x ∷ xs)) queue = omega (arith, length-append queue (x ∷ xs))
queue_bytes (put_value x xs) queue = omega (arith, length-append queue (x ∷ xs))
queue_bytes (get n) queue = elim (Bool-cases (short n queue)) [
  | inl h ↦ rw (h, queue_step) (omega arith)
  | inr h ↦ rw (h, queue_step) (omega (arith, length-drop n queue))
]
queue_bytes (skip n) queue = elim (Bool-cases (short n queue)) [
  | inl h ↦ rw (h, queue_step) (omega arith)
  | inr h ↦ rw (h, queue_step) (omega (arith, length-drop n queue))
]
queue_bytes (look n) queue = elim (Bool-cases (short n queue)) [
  | inl h ↦ rw (h, queue_step) (omega arith)
  | inr h ↦ rw (h, queue_step) (omega arith)
]

module _ (b : Buffer) (p : IsPacked b) where
  refusal : (n : ℕ) → short n (view b) ≡ true → (n ≡ 0) ⊎ (length (view b) < n)
  refusal n h = ground arith

  wanted : (n : ℕ) → short n (view b) ≡ false → (0 < n) × (n ≤ length (view b))
  wanted n h = (ground arith, ground arith)

  read_refused : (n : ℕ) → short n (view b) ≡ true → read_value b n ≡ some (b, none)
  unfolding read_value pullup
  read_refused n h = ground (arith, total_lem b p)

  step-Refines :
      (call : Call)
      → call_size call < 2 ^ 32
      → length (view b) + bytes_put call < 2 ^ 63
      → Refines (step call b) (queue_step call (view b))
  unfolding step append_data drain
  step-Refines (put []) word small = (b, refl, p, refl)
  step-Refines (put (x ∷ xs)) word small =
      let (b', e, q, v) = append_data-view b (x ∷ xs) p (omega arith) word (omega arith) in
      (b', rw (e, ◌>>=◌) refl, q, v)
  step-Refines (put_value x xs) word small =
      let (b', e, q, v) = append_value-view b (x ∷ xs) p (omega arith) word (omega arith) in
      (b', rw (e, ◌>>=◌) refl, q, v)
  step-Refines (get n) word small = elim (Bool-cases (short n (view b))) [
    | inl h ↦ rw (h, queue_step) (b, rw (remove_refused b n p (refusal n h), ◌>>=◌) refl, p, refl)
    | inr h ↦
        let (pos_n, fits) = wanted n h in
        let (b', e, q, v) = remove-view b n p pos_n fits word (omega arith) in
        rw (h, queue_step) (b', rw (e, ◌>>=◌) refl, q, v)
  ]
  step-Refines (skip n) word small = elim (Bool-cases (short n (view b))) [
    | inl h ↦ rw (h, queue_step) (b, rw (remove_refused b n p (refusal n h), ◌>>=◌) refl, p, refl)
    | inr h ↦
        let (pos_n, fits) = wanted n h in
        let (b', e, q, v) = drain-view b n p pos_n fits word (omega arith) in
        rw (h, queue_step) (b', rw (e, ◌>>=◌) refl, q, v)
  ]
  step-Refines (look n) word small = elim (Bool-cases (short n (view b))) [
    | inl h ↦ rw (h, queue_step) (b, rw (read_refused n h, ◌>>=◌) refl, p, refl)
    | inr h ↦
        let (pos_n, fits) = wanted n h in
        let (b', e, q, v) = read_value-view b n p pos_n fits word in
        rw (h, queue_step) (b', rw (e, ◌>>=◌) refl, q, v)
  ]

-- Any sequence of append, append<T>, remove, drain and read_T on a packed buffer, with sizes below 2 ^
-- 32 and fewer than 2 ^ 63 bytes held and appended in all, runs without a fault: the answers, -1
-- included, and the bytes that are left are those of a queue of bytes, and the buffer is packed at the
-- end.
pub run-Refines :
    (calls : List Call) (b : Buffer)
    → IsPacked b
    → All (λ call. call_size call < 2 ^ 32) calls
    → length (view b) + all_put calls < 2 ^ 63
    → Refines (run calls b) (queue_run calls (view b))
unfolding run
run-Refines [] b p words small = (b, refl, p, refl)
run-Refines (call ∷ calls) b p words small =
    let (b1, e, q, v) = step-Refines b p call words.0 (omega arith) in
    let (b2, e', q', v') = run-Refines calls b1 q words.1 (room call (view b) (view b1) v small) in
    (
      b2,
      rw (e, ◌>>=◌)
          (rw (e', ◌>>=◌)
            (ap (λ t. some (b2, (queue_step call (view b)).1 ∷ (queue_run calls t).1)) v)),
      q',
      v' ∙ ap (λ t. (queue_run calls t).0) v,
    )
  where
    room :
        (call : Call) (old new : List ℕ)
        → new ≡ (queue_step call old).0
        → length old + (bytes_put call + all_put calls) < 2 ^ 63
        → length new + all_put calls < 2 ^ 63
    room call old new v small = omega (arith, ap length v, queue_bytes call old)
