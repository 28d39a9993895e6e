-- ===== src/Scheduler/LostWakeup.antt =====
-- `stop` clears `running_` and notifies without the mutex. A worker that has found the predicate of
-- its `wait` false and is not yet asleep misses both.
use icelander.Prelude.{ℕ, zero, suc, ◌+◌, ◌-◌, ◌<◌, ◌≡◌, refl, ◌∙◌, ap, arith}
use icelander.Scheduler.{
  asleep, joining, starting, up, State, init, wake, wait_over, is_empty, Step, enter, leave,
  acquire, ready, unready, sleep, spurious, quit, pop, pass, execute, schedule, notify_one,
  notify_nobody, start_again, start, spawn, started, start_fails, stop_again, stop, notify_all,
  join, Reach, here, next,
}

-- Every step but a wake-up for no reason and a new task.
abbrev pub IsQuiet : {n : ℕ} {s t : State} → Step n s t → Type 0
IsQuiet (spurious i h p) = ⊥
IsQuiet (schedule v m) = ⊥
IsQuiet _ = Unit {0}

pub data Quietly (n : ℕ) (s : State) : State → Type 0 where
  rest : Quietly n s s
  on : {t u : State} → Quietly n s t → (st : Step n t u) → IsQuiet st → Quietly n s u

-- `stop` waits for a worker that sleeps, and nobody is about to notify it.
pub record Lost (s : State) : Type 0 where
  pub asleep_one : s.worker 0 ≡ asleep
  pub waits : s.control ≡ joining
  pub no_signal : s.signals ≡ 0

Step-Lost : {n : ℕ} {s t : State} → 0 < n → Lost s → (st : Step n s t) → IsQuiet st → Lost t
unfolding wake
Step-Lost pos l (enter i h p r) q = ground (arith, l.asleep_one)
Step-Lost pos l (leave i h p r) q = ground (arith, l.asleep_one)
Step-Lost pos l (acquire i h p r) q = ground (arith, l.asleep_one)
Step-Lost pos l (ready i h p r) q = ground (arith, l.asleep_one)
Step-Lost pos l (unready i h p r) q = ground (arith, l.asleep_one)
Step-Lost pos l (sleep i h p) q = ground (arith, l.asleep_one)
Step-Lost pos l (spurious i h p) q = absurd q
Step-Lost pos l (quit i h p r) q = ground (arith, l.asleep_one)
Step-Lost pos l (pop i v k h p r e) q = ground (arith, l.asleep_one)
Step-Lost pos l (pass i h p r e) q = ground (arith, l.asleep_one)
Step-Lost pos l (execute i v h p) q = ground (arith, l.asleep_one)
Step-Lost pos l (schedule v m) q = absurd q
Step-Lost pos l (notify_one i k e h p) q = absurd (omega arith)
Step-Lost pos l (notify_nobody k e h) q = absurd (omega arith)
Step-Lost pos l (start_again r) q = l
Step-Lost pos l (start c r) q = cc
Step-Lost pos l (spawn k c h) q = cc
Step-Lost pos l (started c) q = cc
Step-Lost pos l (start_fails k c h) q = cc
Step-Lost pos l (stop_again r) q = l
Step-Lost pos l (stop c r) q = cc
Step-Lost pos l (notify_all c) q = cc
Step-Lost pos l (join c h) q = absurd (cc (h 0 pos))

Quietly-Lost : {n : ℕ} {s t : State} → 0 < n → Lost s → Quietly n s t → Lost t
Quietly-Lost pos l rest = l
Quietly-Lost pos l (on r st q) = Step-Lost pos (Quietly-Lost pos l r) st q

-- The rest of `start` after the first workers: one of them stays where it is.
spawn_rest :
    {n : ℕ} (d k : ℕ) (s : State)
    → k + d ≡ n
    → 0 < k
    → Reach n s
    → s.control ≡ starting k
    → (t : State) × Reach n t
      × (t.control ≡ up)
      × (t.worker 0 ≡ s.worker 0)
      × (t.running ≡ s.running)
      × (t.signals ≡ s.signals)
spawn_rest {n} zero k s q pos r c =
    let last : k ≡ n = omega (arith, q) in
    (_, next r (started (c ∙ ap starting last)), refl, refl, refl, refl)
spawn_rest (suc d) k s q pos r c =
    let (t, r', c', same, runs, quiet) =
      spawn_rest d (k + 1) _ (omega (arith, q)) (omega arith)
        (next r (spawn k c (omega (arith, q)))) refl in
    (t, r', c', same ∙ ground arith, runs, quiet)

-- The first worker is about to sleep before the others are made.
Reach-Lost : (n : ℕ) → 0 < n → (s : State) × Reach n s × Lost s
unfolding init wait_over wake is_empty
Reach-Lost n pos =
    let begun = next here (start refl refl) in
    let made = next begun (spawn 0 refl pos) in
    let entered = next made (enter 0 pos (ground arith) refl) in
    let locked = next entered (acquire 0 pos (ground arith) refl) in
    let refused = next locked (unready 0 pos (ground arith) refl) in
    let (s, begun_all, c, same, runs, quiet) =
      spawn_rest (n - 1) 1 _ (omega (arith, pos)) (omega arith) refused refl in
    let stopped = next begun_all (stop c runs) in
    let notified = next stopped (notify_all refl) in
    let slept = next notified (sleep 0 pos (rw same (ground arith))) in
    (_, slept, record { asleep_one = ground arith; waits = refl; no_signal = quiet })

-- With any positive number of workers the scheduler can reach a state in which `stop` waits for
-- a worker and never returns, whatever the threads do from there, unless the condition variable
-- wakes for no reason or somebody schedules a task.
pub stop_hangs :
    (n : ℕ)
    → 0 < n
    → (s : State) × Reach n s
      × (s.control ≡ joining)
      × ((t : State) → Quietly n s t → t.control ≡ joining)
stop_hangs n pos =
    let (s, r, l) = Reach-Lost n pos in (s, r, l.waits, λ t q. (Quietly-Lost pos l q).waits)
