-- ===== src/Thread/Pool/Wakeups.antt =====
-- The notifications of src/thread/thread_pool.cpp: while a worker waits, each task that is queued has
-- a worker that competes for the mutex and then tests for tasks.
use unp.Base.{
  ℕ, zero, suc, ◌+◌, ◌≤◌, ◌≡◌, refl, sym, ap, ◌∙◌, Bool, true, false, List, [], ◌∷◌, ◌++◌, map,
  replicate, false≢true, ◌⊎◌, inl, inr, arith, length, length-append,
}
use unp.Thread.Pool.{
  Worker, checking, locking, waiting, executing, finished, Pool, wake, Becomes, here, there,
  Notified, nobody, woken, Step, Reach, fresh, next, any_waiting, start, stop, set_num_of_threads,
  arrive, push, block, spurious_adder, enter, leave, sleep, spurious_worker, take, finish,
}

module _ {T : Type 0} where
  -- How many workers compete for the mutex before their test for tasks.
  abbrev pub locking_count : List (Worker T) → ℕ
  locking_count [] = 0
  locking_count (locking ∷ ws) = suc (locking_count ws)
  locking_count (_ ∷ ws) = locking_count ws

  abbrev IsAwake : Pool T → Type 0
  IsAwake p = (any_waiting p.workers ≡ false) ⊎ (length p.tasks ≤ locking_count p.workers)

  -- What one worker counts for.
  abbrev weight : Worker T → ℕ
  weight locking = 1
  weight _ = 0

  abbrev is_waiting : Worker T → Bool
  is_waiting waiting = true
  is_waiting _ = false

  count_cons :
      (w : Worker T) (ws : List (Worker T)) → locking_count (w ∷ ws) ≡ weight w + locking_count ws
  count_cons checking ws = omega arith
  count_cons locking ws = omega arith
  count_cons waiting ws = omega arith
  count_cons (executing t) ws = omega arith
  count_cons finished ws = omega arith

  locking_count-Becomes :
      (w w' : Worker T) {ws ws' : List (Worker T)}
      → Becomes w w' ws ws'
      → locking_count ws' + weight w ≡ locking_count ws + weight w'
  locking_count-Becomes w w' (here {cs = cs}) = omega (arith, count_cons w cs, count_cons w' cs)
  locking_count-Becomes w w' (there {b = b} {bs = bs} {bs' = bs'} c) =
      omega (arith, count_cons b bs, count_cons b bs', locking_count-Becomes w w' c)

  locking_count-start :
      (ws : List (Worker T)) (n : ℕ) → locking_count (ws ++ replicate n checking) ≡ locking_count ws
  locking_count-start [] zero = refl
  locking_count-start [] (suc n) = locking_count-start [] n
  locking_count-start (locking ∷ ws) n = ap suc (locking_count-start ws n)
  locking_count-start (checking ∷ ws) n = locking_count-start ws n
  locking_count-start (executing t ∷ ws) n = locking_count-start ws n
  locking_count-start (waiting ∷ ws) n = locking_count-start ws n
  locking_count-start (finished ∷ ws) n = locking_count-start ws n

  -- Nobody waits before or after another worker is added in front.
  any_waiting_cons :
      (w : Worker T) (ws : List (Worker T))
      → any_waiting (w ∷ ws) ≡ false
      → (is_waiting w ≡ false) × (any_waiting ws ≡ false)
  any_waiting_cons checking ws e = (refl, e)
  any_waiting_cons locking ws e = (refl, e)
  any_waiting_cons waiting ws e = absurd (false≢true (sym e))
  any_waiting_cons (executing t) ws e = (refl, e)
  any_waiting_cons finished ws e = (refl, e)

  cons-any_waiting :
      (w : Worker T) (ws : List (Worker T))
      → is_waiting w ≡ false
      → any_waiting ws ≡ false
      → any_waiting (w ∷ ws) ≡ false
  cons-any_waiting checking ws i e = e
  cons-any_waiting locking ws i e = e
  cons-any_waiting waiting ws i e = absurd (false≢true (sym i))
  cons-any_waiting (executing t) ws i e = e
  cons-any_waiting finished ws i e = e

  any_waiting-Becomes :
      (w w' : Worker T) {ws ws' : List (Worker T)}
      → is_waiting w' ≡ false
      → Becomes w w' ws ws'
      → any_waiting ws ≡ false
      → any_waiting ws' ≡ false
  any_waiting-Becomes w w' i (here {cs = cs}) e =
      cons-any_waiting w' cs i (any_waiting_cons w cs e).1
  any_waiting-Becomes w w' i (there {b = b} {bs = bs} {bs' = bs'} c) e =
      let (front, rest) = any_waiting_cons b bs e in
      cons-any_waiting b bs' front (any_waiting-Becomes w w' i c rest)

  any_waiting-start :
      (ws : List (Worker T)) (n : ℕ)
      → any_waiting ws ≡ false
      → any_waiting (ws ++ replicate n checking) ≡ false
  any_waiting-start [] zero e = refl
  any_waiting-start [] (suc n) e = any_waiting-start [] n e
  any_waiting-start (w ∷ ws) n e =
      let (front, rest) = any_waiting_cons w ws e in
      cons-any_waiting w (ws ++ replicate n checking) front (any_waiting-start ws n rest)

  any_waiting-wake : (ws : List (Worker T)) → any_waiting (map wake ws) ≡ false
  any_waiting-wake [] = refl
  any_waiting-wake (waiting ∷ ws) = any_waiting-wake ws
  any_waiting-wake (checking ∷ ws) = any_waiting-wake ws
  any_waiting-wake (locking ∷ ws) = any_waiting-wake ws
  any_waiting-wake (executing t ∷ ws) = any_waiting-wake ws
  any_waiting-wake (finished ∷ ws) = any_waiting-wake ws

  -- A worker that changes to one that does not wait, while the tasks stay as they are or one is taken.
  Becomes-IsAwake :
      (w w' : Worker T) {ws ws' : List (Worker T)} (queued queued' : ℕ)
      → is_waiting w' ≡ false
      → queued' + weight w ≤ queued + weight w'
      → Becomes w w' ws ws'
      → (any_waiting ws ≡ false) ⊎ (queued ≤ locking_count ws)
      → (any_waiting ws' ≡ false) ⊎ (queued' ≤ locking_count ws')
  Becomes-IsAwake w w' queued queued' i le c (inl none_waits) =
      inl (any_waiting-Becomes w w' i c none_waits)
  Becomes-IsAwake w w' queued queued' i le c (inr enough) =
      inr (omega (arith, le, enough, locking_count-Becomes w w' c))

  -- A task is pushed.
  Notified-IsAwake :
      {ws ws' : List (Worker T)} (queued : ℕ)
      → Notified ws ws'
      → (any_waiting ws ≡ false) ⊎ (queued ≤ locking_count ws)
      → (any_waiting ws' ≡ false) ⊎ (queued + 1 ≤ locking_count ws')
  Notified-IsAwake queued (nobody n e) a = inl (ap any_waiting e ∙ n)
  Notified-IsAwake queued (woken c) a =
      Becomes-IsAwake waiting locking queued (queued + 1) refl (omega arith) c a

  Step-IsAwake : {p q : Pool T} → Step p q → IsAwake p → IsAwake q
  Step-IsAwake {p = p} start (inl none_waits) =
      inl (any_waiting-start p.workers p.number none_waits)
  Step-IsAwake {p = p} start (inr enough) =
      inr (omega (arith, enough, locking_count-start p.workers p.number))
  Step-IsAwake {p = p} stop a = inl (any_waiting-wake p.workers)
  Step-IsAwake (set_num_of_threads n) a = a
  Step-IsAwake (arrive t) a = a
  Step-IsAwake {p = p} (push t adders workers space l n) a =
      rw (length-append p.tasks (t ∷ [])) (Notified-IsAwake (length p.tasks) n a)
  Step-IsAwake (block t adders full c) a = a
  Step-IsAwake (spurious_adder t adders c) a = a
  Step-IsAwake {p = p} (enter workers r c) a =
      Becomes-IsAwake checking locking (length p.tasks) (length p.tasks) refl (omega arith) c a
  Step-IsAwake {p = p} (leave workers r c) a =
      Becomes-IsAwake checking finished (length p.tasks) (length p.tasks) refl (omega arith) c a
  Step-IsAwake (sleep workers e c) a = inr (omega (arith, ap length e))
  Step-IsAwake {p = p} (spurious_worker workers c) a =
      Becomes-IsAwake waiting locking (length p.tasks) (length p.tasks) refl (omega arith) c a
  Step-IsAwake {p = p} (take t tasks workers adders e c s) a =
      Becomes-IsAwake locking (executing t) (length p.tasks) (length tasks) refl
        (omega (arith, ap length e)) c a
  Step-IsAwake {p = p} (finish t workers c) a =
      Becomes-IsAwake (executing t) checking (length p.tasks) (length p.tasks) refl (omega arith) c
        a

  Reach-IsAwake : {n : ℕ} {p : Pool T} → Reach n p → IsAwake p
  Reach-IsAwake fresh = inl refl
  Reach-IsAwake (next r s) = Step-IsAwake s (Reach-IsAwake r)

  -- No wake-up is lost: in every state that a pool comes to from its construction, while a worker waits
  -- for a task, the workers that compete for the mutex before their test for tasks are at least as many
  -- as the tasks in the queue.
  pub Reach-locking_count :
      {n : ℕ} {p : Pool T}
      → Reach n p
      → any_waiting p.workers ≡ true
      → length p.tasks ≤ locking_count p.workers
  Reach-locking_count r waits = elim (Reach-IsAwake r) [
    | inl none_waits ↦ absurd (false≢true (sym none_waits ∙ waits))
    | inr enough ↦ enough
  ]
