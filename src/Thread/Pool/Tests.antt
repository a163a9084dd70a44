-- ===== src/Thread/Pool/Tests.antt =====
-- Runs of the thread pool of src/thread/thread_pool.cpp.
use unp.Base.{ℕ, ◌+◌, ◌≤◌, ◌≡◌, refl, true, [], ◌∷◌, ◌++◌, length}
use unp.Thread.Pool.{
  checking, locking, waiting, executing, Pool, here, there, first, nobody, woken, no_adder, Reach,
  fresh, next, start, arrive, push, enter, sleep, take,
}
use unp.Thread.Pool.Fifo.{Reach-fifo, executing_count}
use unp.Thread.Pool.Wakeups.{Reach-locking_count, locking_count}
use unp.Thread.Pool.Stopped.{AllIdle, now, after, stopped, stop-AllIdle}

abbrev idle_run : Pool ℕ
idle_run = record {
  number = 1;
  running = true;
  tasks = [];
  workers = waiting ∷ [];
  adders = [];
  added = [];
  taken = [];
  done = [];
}

-- One thread that waits, then two tasks come, and the first is executed.
abbrev busy : Pool ℕ
busy = record {
  number = 1;
  running = true;
  tasks = 8 ∷ [];
  workers = executing 7 ∷ [];
  adders = [];
  added = 7 ∷ 8 ∷ [];
  taken = 7 ∷ [];
  done = [];
}

idle_reached : Reach 1 idle_run
idle_reached =
    next (next (next fresh start) (enter (locking ∷ []) refl here)) (sleep (waiting ∷ []) refl here)

busy_reached : Reach 1 busy
busy_reached =
    let first_added =
      next (next idle_reached (arrive 7)) (push 7 [] (locking ∷ []) refl first (woken here)) in
    let both =
      next (next first_added (arrive 8)) (push 8 [] (locking ∷ []) refl first (nobody refl refl)) in
    next both (take 7 (8 ∷ []) (executing 7 ∷ []) [] refl here (no_adder refl refl))

Reach-fifo_example :
    (busy.taken ++ busy.tasks ≡ busy.added)
    × (length busy.taken ≡ length busy.done + executing_count busy.workers)
Reach-fifo_example = Reach-fifo busy_reached

-- Two threads that wait, and a task that comes.
abbrev two_wait : Pool ℕ
two_wait = record idle_run { number = 2; workers = waiting ∷ waiting ∷ [] }

abbrev one_woken : Pool ℕ
one_woken = record two_wait { tasks = 7 ∷ []; workers = locking ∷ waiting ∷ []; added = 7 ∷ [] }

two_wait_reached : Reach 2 two_wait
two_wait_reached =
    let first_waits =
      next (next (next fresh start) (enter (locking ∷ checking ∷ []) refl here))
        (sleep (waiting ∷ checking ∷ []) refl here) in
    next (next first_waits (enter (waiting ∷ locking ∷ []) refl (there here)))
      (sleep (waiting ∷ waiting ∷ []) refl (there here))

one_woken_reached : Reach 2 one_woken
one_woken_reached =
    next (next two_wait_reached (arrive 7))
      (push 7 [] (locking ∷ waiting ∷ []) refl first (woken here))

Reach-locking_count_example : length one_woken.tasks ≤ locking_count one_woken.workers
Reach-locking_count_example = Reach-locking_count one_woken_reached refl

-- The woken worker waits again.
abbrev stopped_run : Pool ℕ
stopped_run = record (stopped idle_run) { workers = waiting ∷ [] }

stop-AllIdle_example : (stopped_run.tasks ≡ []) × AllIdle stopped_run.workers
stop-AllIdle_example =
    stop-AllIdle idle_run stopped_run refl refl _ (after now (sleep (waiting ∷ []) refl here) refl)
