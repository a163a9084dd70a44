-- ===== src/Thread/Pool/Fifo.antt =====
-- The queue of src/thread/thread_pool.cpp: its bound, its order, and what becomes of each task.
use unp.Base.{
  ℕ, zero, suc, ◌+◌, ◌≤◌, ◌≡◌, refl, sym, ap, ◌∙◌, List, [], ◌∷◌, ◌++◌, map, length, length-append,
  replicate, append_assoc, arith, ltb→le,
}
use unp.Thread.Pool.{
  Worker, checking, locking, waiting, executing, finished, Pool, wake, Becomes, here, there,
  Notified, nobody, woken, Step, Reach, fresh, next, start, stop, set_num_of_threads, arrive, push,
  block, spurious_adder, enter, leave, sleep, spurious_worker, take, finish,
}

module _ {T : Type 0} where
  abbrev IsBounded : Pool T → Type 0
  IsBounded p = length p.tasks ≤ 1001

  Step-IsBounded : {p q : Pool T} → Step p q → IsBounded p → IsBounded q
  Step-IsBounded start b = b
  Step-IsBounded stop b = b
  Step-IsBounded (set_num_of_threads n) b = b
  Step-IsBounded (arrive t) b = b
  Step-IsBounded {p = p} (push t adders workers space l n) b =
      omega (arith, length-append p.tasks (t ∷ []), ltb→le 1000 (length p.tasks) space)
  Step-IsBounded (block t adders full c) b = b
  Step-IsBounded (spurious_adder t adders c) b = b
  Step-IsBounded (enter workers r c) b = b
  Step-IsBounded (leave workers r c) b = b
  Step-IsBounded (sleep workers e c) b = b
  Step-IsBounded (spurious_worker workers c) b = b
  Step-IsBounded (take t tasks workers adders e c s) b = omega (arith, ap length e)
  Step-IsBounded (finish t workers c) b = b

  -- In every state that a pool comes to, the queue has at most 1001 tasks.
  pub Reach-length : {n : ℕ} {p : Pool T} → Reach n p → length p.tasks ≤ 1001
  Reach-length fresh = omega arith
  Reach-length (next r s) = Step-IsBounded s (Reach-length r)

  -- How many workers execute a task.
  abbrev pub executing_count : List (Worker T) → ℕ
  executing_count [] = 0
  executing_count (executing t ∷ ws) = suc (executing_count ws)
  executing_count (_ ∷ ws) = executing_count ws

  record Accounted (p : Pool T) : Type 0 where
    order : p.taken ++ p.tasks ≡ p.added
    count : length p.taken ≡ length p.done + executing_count p.workers

  -- New workers execute nothing.
  count-start :
      (ws : List (Worker T)) (n : ℕ)
      → executing_count (ws ++ replicate n checking) ≡ executing_count ws
  count-start [] zero = refl
  count-start [] (suc n) = count-start [] n
  count-start (executing t ∷ ws) n = ap suc (count-start ws n)
  count-start (checking ∷ ws) n = count-start ws n
  count-start (locking ∷ ws) n = count-start ws n
  count-start (waiting ∷ ws) n = count-start ws n
  count-start (finished ∷ ws) n = count-start ws n

  count-wake : (ws : List (Worker T)) → executing_count (map wake ws) ≡ executing_count ws
  count-wake [] = refl
  count-wake (executing t ∷ ws) = ap suc (count-wake ws)
  count-wake (checking ∷ ws) = count-wake ws
  count-wake (locking ∷ ws) = count-wake ws
  count-wake (waiting ∷ ws) = count-wake ws
  count-wake (finished ∷ ws) = count-wake ws

  -- What one worker counts for.
  abbrev weight : Worker T → ℕ
  weight (executing t) = 1
  weight _ = 0

  count_cons :
      (w : Worker T) (ws : List (Worker T))
      → executing_count (w ∷ ws) ≡ weight w + executing_count ws
  count_cons checking ws = omega arith
  count_cons locking ws = omega arith
  count_cons waiting ws = omega arith
  count_cons (executing t) ws = omega arith
  count_cons finished ws = omega arith

  count-Becomes :
      (w w' : Worker T) {ws ws' : List (Worker T)}
      → Becomes w w' ws ws'
      → executing_count ws' + weight w ≡ executing_count ws + weight w'
  count-Becomes w w' (here {cs = cs}) = omega (arith, count_cons w cs, count_cons w' cs)
  count-Becomes w w' (there {b = b} {bs = bs} {bs' = bs'} c) =
      omega (arith, count_cons b bs, count_cons b bs', count-Becomes w w' c)

  count-Notified :
      {ws ws' : List (Worker T)} → Notified ws ws' → executing_count ws' ≡ executing_count ws
  count-Notified (nobody n e) = ap executing_count e
  count-Notified (woken c) = omega (arith, count-Becomes waiting locking c)

  Step-Accounted : {p q : Pool T} → Step p q → Accounted p → Accounted q
  Step-Accounted {p = p} start a = record {
    order = a.order;
    count = omega (arith, a.count, count-start p.workers p.number);
  }
  Step-Accounted {p = p} stop a = record {
    order = a.order;
    count = omega (arith, a.count, count-wake p.workers);
  }
  Step-Accounted (set_num_of_threads n) a = record { order = a.order; count = a.count }
  Step-Accounted (arrive t) a = record { order = a.order; count = a.count }
  Step-Accounted {p = p} (push t adders workers space l n) a = record {
    order = sym (append_assoc p.taken p.tasks (t ∷ [])) ∙ ap (λ xs. xs ++ t ∷ []) a.order;
    count = omega (arith, a.count, count-Notified n);
  }
  Step-Accounted (block t adders full c) a = record { order = a.order; count = a.count }
  Step-Accounted (spurious_adder t adders c) a = record { order = a.order; count = a.count }
  Step-Accounted (enter workers r c) a = record {
    order = a.order;
    count = omega (arith, a.count, count-Becomes checking locking c);
  }
  Step-Accounted (leave workers r c) a = record {
    order = a.order;
    count = omega (arith, a.count, count-Becomes checking finished c);
  }
  Step-Accounted (sleep workers e c) a = record {
    order = a.order;
    count = omega (arith, a.count, count-Becomes locking waiting c);
  }
  Step-Accounted (spurious_worker workers c) a = record {
    order = a.order;
    count = omega (arith, a.count, count-Becomes waiting locking c);
  }
  Step-Accounted {p = p} (take t tasks workers adders e c s) a = record {
    order = append_assoc p.taken (t ∷ []) tasks ∙ ap (λ xs. p.taken ++ xs) (sym e) ∙ a.order;
    count =
        omega
          (arith, a.count, length-append p.taken (t ∷ []), count-Becomes locking (executing t) c);
  }
  Step-Accounted {p = p} (finish t workers c) a = record {
    order = a.order;
    count =
        omega
          (arith, a.count, length-append p.done (t ∷ []), count-Becomes (executing t) checking c);
  }

  Reach-Accounted : {n : ℕ} {p : Pool T} → Reach n p → Accounted p
  Reach-Accounted fresh = record { order = refl; count = refl }
  Reach-Accounted (next r s) = Step-Accounted s (Reach-Accounted r)

  -- In every state that a pool comes to, the tasks taken followed by those in the queue are the tasks
  -- added, in their order, and those taken are as many as those that are finished and those that
  -- workers execute.
  pub Reach-fifo :
      {n : ℕ} {p : Pool T}
      → Reach n p
      → (p.taken ++ p.tasks ≡ p.added)
        × (length p.taken ≡ length p.done + executing_count p.workers)
  Reach-fifo r = let a = Reach-Accounted r in (a.order, a.count)
