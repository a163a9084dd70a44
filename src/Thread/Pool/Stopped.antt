-- ===== src/Thread/Pool/Stopped.antt =====
-- What `stop` of src/thread/thread_pool.cpp leaves behind.
use unp.Base.{◌≡◌, refl, sym, ap, Bool, true, false, List, [], ◌∷◌, map, arith, length, false≢true}
use unp.Thread.Pool.{
  Worker, checking, locking, waiting, executing, finished, Adder, Pool, wake, wake_adder, Becomes,
  here, there, Leaves, first, later, Step, start, stop, set_num_of_threads, arrive, push, block,
  spurious_adder, enter, leave, sleep, spurious_worker, take, finish,
}

module _ {T : Type 0} where
  -- All workers wait for a task or for the mutex.
  abbrev pub AllIdle : List (Worker T) → Type 0
  AllIdle [] = Unit
  AllIdle (waiting ∷ ws) = AllIdle ws
  AllIdle (locking ∷ ws) = AllIdle ws
  AllIdle (_ ∷ ws) = ⊥

  -- A stopped pool without tasks, that no call of `add_task` is in, and whose workers are all idle.
  pub record IsStopped (p : Pool T) : Type 0 where
    pub off : p.running ≡ false
    pub no_tasks : p.tasks ≡ []
    pub no_adders : p.adders ≡ []
    pub idle : AllIdle p.workers

  -- A step from outside: the pool is started, or a task comes.
  abbrev pub from_outside : {p q : Pool T} → Step p q → Bool
  from_outside start = true
  from_outside (arrive t) = true
  from_outside _ = false

  -- What comes later, unless something comes from outside.
  pub data Later (p : Pool T) : Pool T → Type 0 where
    now : Later p p
    after : {q r : Pool T} → Later p q → (s : Step q r) → from_outside s ≡ false → Later p r

  Leaves-empty : {a : Adder T} {bs cs : List (Adder T)} → Leaves a bs cs → bs ≡ [] → ⊥
  Leaves-empty first e = omega (arith, ap length e)
  Leaves-empty (later l) e = omega (arith, ap length e)

  Becomes-empty : {a a' : Adder T} {bs cs : List (Adder T)} → Becomes a a' bs cs → bs ≡ [] → ⊥
  Becomes-empty here e = omega (arith, ap length e)
  Becomes-empty (there c) e = omega (arith, ap length e)

  -- Idle workers do not stand at the test of `_running`, nor in a task.
  no_checking : {w : Worker T} {ws vs : List (Worker T)} → Becomes checking w ws vs → AllIdle ws → ⊥
  no_checking here i = i
  no_checking (there {b = waiting} c) i = no_checking c i
  no_checking (there {b = locking} c) i = no_checking c i
  no_checking (there {b = checking} c) i = i
  no_checking (there {b = executing t} c) i = i
  no_checking (there {b = finished} c) i = i

  no_executing :
      {t : T} {w : Worker T} {ws vs : List (Worker T)}
      → Becomes (executing t) w ws vs
      → AllIdle ws
      → ⊥
  no_executing here i = i
  no_executing (there {b = waiting} c) i = no_executing c i
  no_executing (there {b = locking} c) i = no_executing c i
  no_executing (there {b = checking} c) i = i
  no_executing (there {b = executing t} c) i = i
  no_executing (there {b = finished} c) i = i

  slept : {ws vs : List (Worker T)} → Becomes locking waiting ws vs → AllIdle ws → AllIdle vs
  slept here i = i
  slept (there {b = waiting} c) i = slept c i
  slept (there {b = locking} c) i = slept c i
  slept (there {b = checking} c) i = absurd i
  slept (there {b = executing t} c) i = absurd i
  slept (there {b = finished} c) i = absurd i

  woke : {ws vs : List (Worker T)} → Becomes waiting locking ws vs → AllIdle ws → AllIdle vs
  woke here i = i
  woke (there {b = waiting} c) i = woke c i
  woke (there {b = locking} c) i = woke c i
  woke (there {b = checking} c) i = absurd i
  woke (there {b = executing t} c) i = absurd i
  woke (there {b = finished} c) i = absurd i

  wake-AllIdle : (ws : List (Worker T)) → AllIdle ws → AllIdle (map wake ws)
  wake-AllIdle [] i = i
  wake-AllIdle (waiting ∷ ws) i = wake-AllIdle ws i
  wake-AllIdle (locking ∷ ws) i = wake-AllIdle ws i
  wake-AllIdle (checking ∷ ws) i = i
  wake-AllIdle (executing t ∷ ws) i = i
  wake-AllIdle (finished ∷ ws) i = i

  no_cons : {t : T} {ts us : List T} → us ≡ [] → us ≡ t ∷ ts → ⊥
  no_cons e f = omega (arith, ap length e, ap length f)

  Step-IsStopped :
      {p q : Pool T} (s : Step p q) → from_outside s ≡ false → IsStopped p → IsStopped q
  Step-IsStopped start e h = absurd (false≢true (sym e))
  Step-IsStopped (arrive t) e h = absurd (false≢true (sym e))
  Step-IsStopped {p = p} stop e h = record {
    off = refl;
    no_tasks = h.no_tasks;
    no_adders = ap (map wake_adder) h.no_adders;
    idle = wake-AllIdle p.workers h.idle;
  }
  Step-IsStopped (set_num_of_threads n) e h = record {
    off = h.off;
    no_tasks = h.no_tasks;
    no_adders = h.no_adders;
    idle = h.idle;
  }
  Step-IsStopped (push t adders workers space l n) e h = absurd (Leaves-empty l h.no_adders)
  Step-IsStopped (block t adders full c) e h = absurd (Becomes-empty c h.no_adders)
  Step-IsStopped (spurious_adder t adders c) e h = absurd (Becomes-empty c h.no_adders)
  Step-IsStopped (enter workers r c) e h = absurd (no_checking c h.idle)
  Step-IsStopped (leave workers r c) e h = absurd (no_checking c h.idle)
  Step-IsStopped (sleep workers z c) e h = record {
    off = h.off;
    no_tasks = h.no_tasks;
    no_adders = h.no_adders;
    idle = slept c h.idle;
  }
  Step-IsStopped (spurious_worker workers c) e h = record {
    off = h.off;
    no_tasks = h.no_tasks;
    no_adders = h.no_adders;
    idle = woke c h.idle;
  }
  Step-IsStopped (take t tasks workers adders z c s) e h = absurd (no_cons h.no_tasks z)
  Step-IsStopped (finish t workers c) e h = absurd (no_executing c h.idle)

  Later-IsStopped : {p q : Pool T} → IsStopped p → Later p q → IsStopped q
  Later-IsStopped h now = h
  Later-IsStopped h (after l s e) = Step-IsStopped s e (Later-IsStopped h l)

  abbrev pub stopped : Pool T → Pool T
  stopped p = record p {
    running = false;
    workers = map wake p.workers;
    adders = map wake_adder p.adders;
  }

  -- A pool is stopped with no task in the queue, no call of add_task under way, and all workers waiting
  -- for a task or the mutex: whatever steps follow, without a new start or a new task, all workers
  -- still wait, so that none of them ends.
  pub stop-AllIdle :
      (p q : Pool T)
      → p.tasks ≡ []
      → p.adders ≡ []
      → AllIdle p.workers
      → Later (stopped p) q
      → (q.tasks ≡ []) × AllIdle q.workers
  stop-AllIdle p q no_tasks no_adders idle l =
      let h =
        Later-IsStopped
          (record {
            off = refl;
            no_tasks = no_tasks;
            no_adders = ap (map wake_adder) no_adders;
            idle = wake-AllIdle p.workers idle;
          })
          l in
      (h.no_tasks, h.idle)
