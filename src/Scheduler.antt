-- ===== src/Scheduler.antt =====
-- class TaskScheduler (include/icelander.hpp, src/async.cpp): `n` workers, any number of threads that
-- schedule tasks, and one thread that starts and stops the scheduler, interleaved in any order.
-- A task is a number. `running_` is atomic and is read and written outside the mutex.
pub mod Invariant
pub mod Tasks
pub mod LostWakeup
pub mod Attendance
pub mod Turn
use icelander.Prelude.{
  ℕ, ◌+◌, ◌<◌, ◌≡◌, ◌≢◌, List, [], ◌∷◌, ◌++◌, Option, none, some, Bool, true, false, not, ◌||◌, ltb,
  if◌then◌else◌, update,
}

-- `threadCount`, from `hardware_concurrency()`
unfoldable pub thread_count : ℕ → ℕ
thread_count hw = if ltb 1 hw then hw else 1

-- Where a worker stands in `workerLoop`.
pub data Pc : Type 0 where
  head : Pc  -- before the test of the loop
  locking : Pc  -- waits for the mutex, at first or after a wake-up
  checking : Pc  -- holds the mutex, before the predicate of `wait`
  blocking : Pc  -- holds the mutex, the predicate was false
  asleep : Pc  -- in `wait`, without the mutex
  woken : Pc  -- holds the mutex, `wait` has returned
  holding : ℕ → Pc  -- has taken a task and released the mutex
  exited : Pc  -- has left the loop, or was not started

-- Where the thread stands that calls `start` and `stop`.
pub data Control : Type 0 where
  down : Control  -- not started, or `stop` has returned
  starting : ℕ → Control  -- in `start`, so many workers are made and `running_` is true
  up : Control  -- `start` has returned or thrown
  stopping : Control  -- in `stop`, `running_` is false
  joining : Control  -- in `stop`, all were notified

pub record State : Type 0 where
  pub running : Bool
  pub mutex : Option ℕ  -- the worker that holds it
  pub queue : List ℕ
  pub worker : ℕ → Pc
  pub control : Control
  pub signals : ℕ  -- calls of `schedule` that have yet to notify
  -- what happened, for the theorems: tasks scheduled, taken from the queue, and run, oldest first
  pub pushed : List ℕ
  pub taken : List ℕ
  pub executed : List ℕ

unfoldable pub init : State
init = record {
  running = false;
  mutex = none;
  queue = [];
  worker = λ _. exited;
  control = down;
  signals = 0;
  pushed = [];
  taken = [];
  executed = [];
}

unfoldable pub is_empty : List ℕ → Bool
is_empty [] = true
is_empty (t ∷ q) = false

-- The predicate of `wait`.
unfoldable pub wait_over : State → Bool
unfolding is_empty
wait_over s = not (is_empty s.queue) || not s.running

-- A notified worker goes for the mutex.
unfoldable pub wake : Pc → Pc
wake asleep = locking
wake p = p

-- One step. A worker does one access to `running_` or one critical section at a time.
pub data Step (n : ℕ) (s : State) : State → Type 0 where
  -- `while (running_)`
  enter :
      (i : ℕ)
      → i < n
      → s.worker i ≡ head
      → s.running ≡ true
      → Step n s (record s { worker = update s.worker i locking })
  leave :
      (i : ℕ)
      → i < n
      → s.worker i ≡ head
      → s.running ≡ false
      → Step n s (record s { worker = update s.worker i exited })
  -- `unique_lock`, or the return of `wait` to the mutex
  acquire :
      (i : ℕ)
      → i < n
      → s.worker i ≡ locking
      → s.mutex ≡ none
      → Step n s (record s { mutex = some i; worker = update s.worker i checking })
  -- the predicate, true and false
  ready :
      (i : ℕ)
      → i < n
      → s.worker i ≡ checking
      → wait_over s ≡ true
      → Step n s (record s { worker = update s.worker i woken })
  unready :
      (i : ℕ)
      → i < n
      → s.worker i ≡ checking
      → wait_over s ≡ false
      → Step n s (record s { worker = update s.worker i blocking })
  sleep :
      (i : ℕ)
      → i < n
      → s.worker i ≡ blocking
      → Step n s (record s { mutex = none; worker = update s.worker i asleep })
  -- A condition variable may wake a thread for no reason.
  spurious :
      (i : ℕ)
      → i < n
      → s.worker i ≡ asleep
      → Step n s (record s { worker = update s.worker i locking })
  -- `if (!running_) break`
  quit :
      (i : ℕ)
      → i < n
      → s.worker i ≡ woken
      → s.running ≡ false
      → Step n s (record s { mutex = none; worker = update s.worker i exited })
  -- `front` and `pop`
  pop :
      (i t : ℕ) (q : List ℕ)
      → i < n
      → s.worker i ≡ woken
      → s.running ≡ true
      → s.queue ≡ t ∷ q
      → Step n s (record s {
        mutex = none;
        queue = q;
        worker = update s.worker i (holding t);
        taken = s.taken ++ t ∷ [];
      })
  -- no task: the test `if (task)` fails
  pass :
      (i : ℕ)
      → i < n
      → s.worker i ≡ woken
      → s.running ≡ true
      → s.queue ≡ []
      → Step n s (record s { mutex = none; worker = update s.worker i head })
  -- `task()`
  execute :
      (i t : ℕ)
      → i < n
      → s.worker i ≡ holding t
      → Step n s (record s { worker = update s.worker i head; executed = s.executed ++ t ∷ [] })
  -- `schedule`: the push under the mutex, and then `notify_one`, which wakes one sleeper if there is one
  schedule :
      (t : ℕ)
      → s.mutex ≡ none
      → Step n s (record s {
        queue = s.queue ++ t ∷ [];
        signals = s.signals + 1;
        pushed = s.pushed ++ t ∷ [];
      })
  notify_one :
      (i k : ℕ)
      → s.signals ≡ k + 1
      → i < n
      → s.worker i ≡ asleep
      → Step n s (record s { signals = k; worker = update s.worker i locking })
  notify_nobody :
      (k : ℕ)
      → s.signals ≡ k + 1
      → ((i : ℕ) → i < n → s.worker i ≢ asleep)
      → Step n s (record s { signals = k })
  -- `start`: returns at once while running, and else sets the flag and makes the workers one by one.
  start_again : s.running ≡ true → Step n s s
  start :
      s.control ≡ down
      → s.running ≡ false
      → Step n s (record s { running = true; control = starting 0 })
  spawn :
      (k : ℕ)
      → s.control ≡ starting k
      → k < n
      → Step n s (record s { control = starting (k + 1); worker = update s.worker k head })
  started : s.control ≡ starting n → Step n s (record s { control = up })
  -- The constructor of `std::thread` throws: the flag stays set, with the workers made so far.
  start_fails : (k : ℕ) → s.control ≡ starting k → k < n → Step n s (record s { control = up })
  -- `stop`: returns at once while not running
  stop_again : s.running ≡ false → Step n s s
  stop :
      s.control ≡ up
      → s.running ≡ true
      → Step n s (record s { running = false; control = stopping })
  notify_all :
      s.control ≡ stopping
      → Step n s (record s { control = joining; worker = λ i. wake (s.worker i) })
  join :
      s.control ≡ joining
      → ((i : ℕ) → i < n → s.worker i ≡ exited)
      → Step n s (record s { control = down })

pub data Reach (n : ℕ) : State → Type 0 where
  here : Reach n init
  next : {s t : State} → Reach n s → Step n s t → Reach n t
