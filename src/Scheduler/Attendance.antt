-- ===== src/Scheduler/Attendance.antt =====
-- `schedule` of src/async.cpp pushes under the mutex and notifies afterwards: once a worker has been made,
-- the lost wake-up of `stop` has no counterpart here.
use icelander.Prelude.{
  ℕ, ◌<◌, ◌≡◌, ◌≢◌, refl, ◌⊎◌, inl, inr, List, [], ◌∷◌, true, false, not, ◌||◌, arith,
}
use icelander.Scheduler.{
  asleep, blocking, exited, State, init, wake, wait_over, is_empty, Step, enter, leave, acquire,
  ready, unready, sleep, spurious, quit, pop, pass, execute, schedule, notify_one, notify_nobody,
  start_again, start, spawn, started, start_fails, stop_again, stop, notify_all, join, Reach, here,
  next,
}
use icelander.Scheduler.Invariant.{Inv, Reach-Inv}

wait_over-empty : (s : State) → wait_over s ≡ false → s.queue ≡ []
unfolding wait_over is_empty
wait_over-empty s h = go s.queue h
  where
    go : (q : List ℕ) → not (is_empty q) || not s.running ≡ false → q ≡ []
    go [] h = refl
    go (t ∷ q) h = cc

-- Either somebody has yet to notify, or a worker is awake in its loop.
abbrev Attended : ℕ → State → Type 0
Attended n s = (0 < s.signals) ⊎ ((i : ℕ) × (i < n) × (s.worker i ≢ asleep) × (s.worker i ≢ exited))

module _ {n : ℕ} where
  -- A worker that is about to sleep has seen the queue empty, and still holds the mutex.
  Step-blocked :
      {s t : State}
      → Inv n s
      → ((i : ℕ) → s.worker i ≡ blocking → s.queue ≡ [])
      → Step n s t
      → (j : ℕ) → t.worker j ≡ blocking
      → t.queue ≡ []
  unfolding wake
  Step-blocked inv old (enter i h p r) j q = ground (arith, old j)
  Step-blocked inv old (leave i h p r) j q = ground (arith, old j)
  Step-blocked inv old (acquire i h p r) j q = ground (arith, old j)
  Step-blocked inv old (ready i h p r) j q = ground (arith, old j)
  Step-blocked inv old (unready i h p r) j q = ground (arith, old j, wait_over-empty _ r)
  Step-blocked inv old (sleep i h p) j q = ground (arith, old j)
  Step-blocked inv old (spurious i h p) j q = ground (arith, old j)
  Step-blocked inv old (quit i h p r) j q = ground (arith, old j)
  Step-blocked inv old (pop i v l h p r e) j q =
      absurd (ground (arith, old j, inv.owner j, inv.owner i))
  Step-blocked inv old (pass i h p r e) j q = ground (arith, old j)
  Step-blocked inv old (execute i v h p) j q = ground (arith, old j)
  Step-blocked inv old (schedule v m) j q = absurd (ground (arith, inv.owner j))
  Step-blocked inv old (notify_one i k e h p) j q = ground (arith, old j)
  Step-blocked inv old (notify_nobody k e h) j q = old j q
  Step-blocked inv old (start_again r) j q = old j q
  Step-blocked inv old (start c r) j q = old j q
  Step-blocked inv old (spawn k c h) j q = ground (arith, old j)
  Step-blocked inv old (started c) j q = old j q
  Step-blocked inv old (start_fails k c h) j q = old j q
  Step-blocked inv old (stop_again r) j q = old j q
  Step-blocked inv old (stop c r) j q = old j q
  Step-blocked inv old (notify_all c) j q = ground (arith, old j)
  Step-blocked inv old (join c h) j q = old j q

  Step-Attended :
      {s t : State}
      → Inv n s
      → ((i : ℕ) → s.worker i ≡ blocking → s.queue ≡ [])
      → (s.running ≡ true → s.queue ≢ [] → (j : ℕ) → j < n → s.worker j ≢ exited → Attended n s)
      → Step n s t
      → t.running ≡ true
      → t.queue ≢ []
      → (j : ℕ) → j < n
      → t.worker j ≢ exited
      → Attended n t
  Step-Attended inv none_left old (enter i h p r) on full j lt q =
      inr (i, h, (λ z. ground arith), λ z. ground arith)
  Step-Attended inv none_left old (acquire i h p r) on full j lt q =
      inr (i, h, (λ z. ground arith), λ z. ground arith)
  Step-Attended inv none_left old (ready i h p r) on full j lt q =
      inr (i, h, (λ z. ground arith), λ z. ground arith)
  Step-Attended inv none_left old (unready i h p r) on full j lt q =
      inr (i, h, (λ z. ground arith), λ z. ground arith)
  Step-Attended inv none_left old (spurious i h p) on full j lt q =
      inr (i, h, (λ z. ground arith), λ z. ground arith)
  Step-Attended inv none_left old (pop i v l h p r e) on full j lt q =
      inr (i, h, (λ z. ground arith), λ z. ground arith)
  Step-Attended inv none_left old (pass i h p r e) on full j lt q =
      inr (i, h, (λ z. ground arith), λ z. ground arith)
  Step-Attended inv none_left old (execute i v h p) on full j lt q =
      inr (i, h, (λ z. ground arith), λ z. ground arith)
  Step-Attended inv none_left old (notify_one i k e h p) on full j lt q =
      inr (i, h, (λ z. ground arith), λ z. ground arith)
  Step-Attended inv none_left old (leave i h p r) on full j lt q = absurd (cc)
  Step-Attended inv none_left old (quit i h p r) on full j lt q = absurd (cc)
  Step-Attended inv none_left old (sleep i h p) on full j lt q = absurd (full (none_left i p))
  Step-Attended inv none_left old (schedule v m) on full j lt q = inl (omega arith)
  Step-Attended inv none_left old (notify_nobody k e h) on full j lt q = inr (j, lt, h j lt, q)
  Step-Attended inv none_left old (start_again r) on full j lt q = old on full j lt q
  Step-Attended inv none_left old (start c r) on full j lt q = absurd (q (inv.ended c j lt))
  Step-Attended inv none_left old (spawn k c h) on full j lt q =
      inr (k, h, (λ z. ground arith), λ z. ground arith)
  Step-Attended inv none_left old (started c) on full j lt q = old on full j lt q
  Step-Attended inv none_left old (start_fails k c h) on full j lt q = old on full j lt q
  Step-Attended inv none_left old (stop_again r) on full j lt q = old on full j lt q
  Step-Attended inv none_left old (stop c r) on full j lt q = absurd (cc)
  Step-Attended inv none_left old (notify_all c) on full j lt q = absurd (cc (inv.flag))
  Step-Attended inv none_left old (join c h) on full j lt q = absurd (q (h j lt))

  Reach-blocked : {s : State} → Reach n s → (i : ℕ) → s.worker i ≡ blocking → s.queue ≡ []
  unfolding init
  Reach-blocked here i q = refl
  Reach-blocked (next r st) i q = Step-blocked (Reach-Inv r) (Reach-blocked r) st i q

  -- While the scheduler runs, some worker has been made and a task is in the queue, a call of
  -- `schedule` has yet to notify, or a worker is awake in its loop.
  pub task_attended :
      {s : State}
      → Reach n s
      → s.running ≡ true
      → s.queue ≢ []
      → (j : ℕ) → j < n
      → s.worker j ≢ exited
      → (0 < s.signals) ⊎ ((i : ℕ) × (i < n) × (s.worker i ≢ asleep) × (s.worker i ≢ exited))
  unfolding init
  task_attended here on full j lt q = absurd (full refl)
  task_attended (next r st) on full j lt q =
      Step-Attended (Reach-Inv r) (Reach-blocked r) (task_attended r) st on full j lt q
