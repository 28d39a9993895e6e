-- ===== src/Examples/Schedulers.antt =====
-- One worker and two tasks: the first is run, the second stays in the queue when `stop` returns.
use icelander.Prelude.{
  ℕ, zero, suc, ◌+◌, ◌<◌, ◌≡◌, ◌≢◌, ◌⊎◌, none, ltb, if◌then◌else◌, true, refl, [], ◌∷◌, arith,
}
use icelander.Scheduler.{
  State, Control, head, asleep, exited, init, Reach, here, next, wait_over, is_empty, wake, enter,
  leave, acquire, ready, pop, execute, schedule, start, spawn, started, stop, notify_all, join,
  joining,
}
use icelander.Scheduler.Tasks.{tasks_conserved, count, total, holds}
use icelander.Scheduler.Attendance.{task_attended}
use icelander.Scheduler.Turn.{OwnSteps, drain_lem}
use icelander.Scheduler.LostWakeup.{stop_hangs, Quietly}

first : 0 < 1
first = omega arith

below_one : (P : ℕ → Type 0) → P 0 → (i : ℕ) → i < 1 → P i
below_one P p zero h = p
below_one P p (suc i) h = absurd (omega arith)

record Run : Type 0 where
  state : State
  reach : Reach 1 state

-- The worker has left `wait` and finds the first task.
awake : Run
unfolding init wait_over is_empty
awake =
    let pushed = next (next here (schedule 7 refl)) (schedule 8 refl) in
    let begun = next pushed (start refl refl) in
    let made = next begun (spawn 0 refl first) in
    let up = next made (started refl) in
    let entered = next up (enter 0 first refl refl) in
    let locked = next entered (acquire 0 first refl refl) in
    record { state = _; reach = next locked (ready 0 first refl refl) }

stopped : Run
unfolding awake wake
stopped =
    let popped = next awake.reach (pop 0 7 (8 ∷ []) first refl refl refl) in
    let done = next popped (execute 0 7 first refl) in
    let halted = next done (stop refl refl) in
    let left = next halted (leave 0 first refl refl) in
    let notified = next left (notify_all refl) in
    record { state = _; reach = next notified (join refl (below_one (λ i. _ ≡ exited) refl)) }

tasks_conserved_example :
    (count 8 stopped.state.pushed
      ≡ count 8 stopped.state.executed
        + total (holds 8) 1 stopped.state.worker
        + count 8 stopped.state.queue)
    × (stopped.state.control ≡ Control.down
        → count 8 stopped.state.pushed
          ≡ count 8 stopped.state.executed + count 8 stopped.state.queue)
tasks_conserved_example = tasks_conserved 8 stopped.reach

stopped_queue : stopped.state.queue ≡ 8 ∷ []
unfolding stopped
stopped_queue = refl

awake_runs : awake.state.running ≡ true
unfolding awake
awake_runs = refl

awake_full : awake.state.queue ≢ []
unfolding awake init
awake_full = λ q. ground arith

awake_made : awake.state.worker 0 ≢ exited
unfolding awake init
awake_made = λ q. ground arith

task_attended_example :
    (0 < awake.state.signals)
    ⊎ ((i : ℕ) × (i < 1) × (awake.state.worker i ≢ asleep) × (awake.state.worker i ≢ exited))
task_attended_example = task_attended awake.reach awake_runs awake_full 0 first awake_made

stop_hangs_example :
    (s : State) × Reach 2 s
    × (s.control ≡ joining)
    × ((t : State) → Quietly 2 s t → t.control ≡ joining)
stop_hangs_example = stop_hangs 2 (omega arith)

abbrev idle_worker : State
idle_worker = record {
  running = true;
  mutex = none;
  queue = 7 ∷ 8 ∷ [];
  worker = λ i. if ltb i 1 then head else exited;
  control = Control.up;
  signals = 2;
  pushed = 7 ∷ 8 ∷ [];
  taken = [];
  executed = [];
}

drain_lem_example :
    (t : State) × OwnSteps 1 0 idle_worker t
    × (t.queue ≡ [])
    × (t.executed ≡ 7 ∷ 8 ∷ [])
    × (t.mutex ≡ none)
    × (t.running ≡ true)
    × (t.worker 0 ≡ head)
drain_lem_example = drain_lem 1 0 (7 ∷ 8 ∷ []) idle_worker first refl refl refl refl
