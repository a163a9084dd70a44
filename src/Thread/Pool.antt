-- ===== src/Thread/Pool.antt =====
-- `thread_pool` of src/thread/thread_pool.h and src/thread/thread_pool.cpp as a step relation: `add_task`, `start`,
-- `stop` and the workers' `default_routine`. What a thread does while it owns `_mutex` is one step, since
-- all that touches `_tasks` owns it; `_running` is read and written outside it. A thread that is woken
-- from a wait, by a notification or of itself, competes for the mutex again.
pub mod Fifo
pub mod Wakeups
pub mod Stopped
mod Tests
use unp.Base.{ℕ, ◌+◌, ◌≡◌, Bool, true, false, List, [], ◌∷◌, ◌++◌, map, length, replicate, ltb}

-- Where a worker stands in `default_routine`.
pub data Worker (T : Type 0) : Type 0 where
  checking : Worker T
  locking : Worker T
  waiting : Worker T
  executing : T → Worker T
  finished : Worker T

-- A call of `add_task` that has not returned: it competes for the mutex, or waits for space.
pub data Adder (T : Type 0) : Type 0 where
  adding : T → Adder T
  blocked : T → Adder T

-- `added`, `taken` and `done` record the tasks in the order in which they were pushed, popped and finished.
pub record Pool (T : Type 0) : Type 0 where
  pub number : ℕ
  pub running : Bool
  pub tasks : List T
  pub workers : List (Worker T)
  pub adders : List (Adder T)
  pub added : List T
  pub taken : List T
  pub done : List T

-- `thread_pool(number_of_threads)`
abbrev pub idle_pool : {T : Type 0} → ℕ → Pool T
idle_pool n = record {
  number = n;
  running = false;
  tasks = [];
  workers = [];
  adders = [];
  added = [];
  taken = [];
  done = [];
}

abbrev pub deque_full : {T : Type 0} → List T → Bool
deque_full tasks = ltb 1000 (length tasks)

-- What `notify_all` does to a thread.
abbrev pub wake : {T : Type 0} → Worker T → Worker T
wake waiting = locking
wake w = w

abbrev pub wake_adder : {T : Type 0} → Adder T → Adder T
wake_adder (blocked t) = adding t
wake_adder a = a

-- One member of a list changes.
pub data Becomes {A : Type 0} (a : A) (a' : A) : List A → List A → Type 0 where
  here : {cs : List A} → Becomes a a' (a ∷ cs) (a' ∷ cs)
  there : {b : A} {bs bs' : List A} → Becomes a a' bs bs' → Becomes a a' (b ∷ bs) (b ∷ bs')

-- One member leaves a list.
pub data Leaves {A : Type 0} (a : A) : List A → List A → Type 0 where
  first : {cs : List A} → Leaves a (a ∷ cs) cs
  later : {b : A} {bs bs' : List A} → Leaves a bs bs' → Leaves a (b ∷ bs) (b ∷ bs')

abbrev pub any_waiting : {T : Type 0} → List (Worker T) → Bool
any_waiting [] = false
any_waiting (waiting ∷ ws) = true
any_waiting (_ ∷ ws) = any_waiting ws

abbrev pub any_blocked : {T : Type 0} → List (Adder T) → Bool
any_blocked [] = false
any_blocked (blocked _ ∷ ws) = true
any_blocked (_ ∷ ws) = any_blocked ws

-- `_has_task_cv.notify_one()`: a waiting worker wakes up, if there is one.
pub data Notified {T : Type 0} (ws ws' : List (Worker T)) : Type 0 where
  nobody : any_waiting ws ≡ false → ws' ≡ ws → Notified ws ws'
  woken : Becomes waiting locking ws ws' → Notified ws ws'

-- `_deque_full_cv.notify_one()`
pub data Spaced {T : Type 0} (bs cs : List (Adder T)) : Type 0 where
  no_adder : any_blocked bs ≡ false → cs ≡ bs → Spaced bs cs
  spaced : (t : T) → Becomes (blocked t) (adding t) bs cs → Spaced bs cs

-- One step of one thread, or a call from outside.
pub data Step {T : Type 0} (p : Pool T) : Pool T → Type 0 where
  start : Step p (record p { running = true; workers = p.workers ++ replicate p.number checking })
  stop :
      Step p (record p {
        running = false;
        workers = map wake p.workers;
        adders = map wake_adder p.adders;
      })
  set_num_of_threads : (n : ℕ) → Step p (record p { number = n })
  -- `add_task` is called.
  arrive : (t : T) → Step p (record p { adders = adding t ∷ p.adders })
  -- It owns the mutex, and there is space.
  push :
      (t : T) (adders : List (Adder T)) (workers : List (Worker T))
      → deque_full p.tasks ≡ false
      → Leaves (adding t) p.adders adders
      → Notified p.workers workers
      → Step p (record p {
        tasks = p.tasks ++ t ∷ [];
        added = p.added ++ t ∷ [];
        adders = adders;
        workers = workers;
      })
  -- It owns the mutex, and there is none.
  block :
      (t : T) (adders : List (Adder T))
      → deque_full p.tasks ≡ true
      → Becomes (adding t) (blocked t) p.adders adders
      → Step p (record p { adders = adders })
  spurious_adder :
      (t : T) (adders : List (Adder T))
      → Becomes (blocked t) (adding t) p.adders adders
      → Step p (record p { adders = adders })
  -- `while(_running)`
  enter :
      (workers : List (Worker T))
      → p.running ≡ true
      → Becomes checking locking p.workers workers
      → Step p (record p { workers = workers })
  leave :
      (workers : List (Worker T))
      → p.running ≡ false
      → Becomes checking finished p.workers workers
      → Step p (record p { workers = workers })
  -- A worker owns the mutex, and there is no task.
  sleep :
      (workers : List (Worker T))
      → p.tasks ≡ []
      → Becomes locking waiting p.workers workers
      → Step p (record p { workers = workers })
  spurious_worker :
      (workers : List (Worker T))
      → Becomes waiting locking p.workers workers
      → Step p (record p { workers = workers })
  -- It owns the mutex, and pops the first task.
  take :
      (t : T) (tasks : List T) (workers : List (Worker T)) (adders : List (Adder T))
      → p.tasks ≡ t ∷ tasks
      → Becomes locking (executing t) p.workers workers
      → Spaced p.adders adders
      → Step p (record p {
        tasks = tasks;
        taken = p.taken ++ t ∷ [];
        workers = workers;
        adders = adders;
      })
  -- The task has returned.
  finish :
      (t : T) (workers : List (Worker T))
      → Becomes (executing t) checking p.workers workers
      → Step p (record p { done = p.done ++ t ∷ []; workers = workers })

-- What a fresh pool of `n` threads comes to.
pub data Reach {T : Type 0} (n : ℕ) : Pool T → Type 0 where
  fresh : Reach n (idle_pool n)
  next : {p q : Pool T} → Reach n p → Step p q → Reach n q
