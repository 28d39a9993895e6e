-- ===== src/Scheduler/Tasks.antt =====
-- What becomes of the tasks: taken in the order in which they were scheduled, each run at most once,
-- and none lost.
use icelander.Prelude.{
  ℕ, zero, suc, ◌+◌, ◌<◌, ◌≡◌, refl, sym, ap, List, [], ◌∷◌, ◌++◌, true, ◌==◌, if◌then◌else◌,
  update, arith, Bool-cases, inl, inr,
}
use mathlib.Core.List.{append_assoc}
use icelander.Scheduler.{
  Pc, head, locking, checking, blocking, asleep, woken, holding, exited, down, State, init, wake,
  Step, enter, leave, acquire, ready, unready, sleep, spurious, quit, pop, pass, execute, schedule,
  notify_one, notify_nobody, start_again, start, spawn, started, start_fails, stop_again, stop,
  notify_all, join, Reach, here, next,
}
use icelander.Scheduler.Invariant.{Inv, Reach-Inv, critical}

-- Tasks leave the queue in the order of `schedule`.
Step-fifo :
    {n : ℕ} {s t : State}
    → s.taken ++ s.queue ≡ s.pushed
    → Step n s t
    → t.taken ++ t.queue ≡ t.pushed
Step-fifo {s} h (enter i lt p r) = h
Step-fifo {s} h (leave i lt p r) = h
Step-fifo {s} h (acquire i lt p r) = h
Step-fifo {s} h (ready i lt p r) = h
Step-fifo {s} h (unready i lt p r) = h
Step-fifo {s} h (sleep i lt p) = h
Step-fifo {s} h (spurious i lt p) = h
Step-fifo {s} h (quit i lt p r) = h
Step-fifo {s} h (pop i v l lt p r e) = rw (← h, e) (append_assoc s.taken (v ∷ []) l)
Step-fifo {s} h (pass i lt p r e) = h
Step-fifo {s} h (execute i v lt p) = h
Step-fifo {s} h (schedule v m) = rw (← h) (sym (append_assoc s.taken s.queue (v ∷ [])))
Step-fifo {s} h (notify_one i k e lt p) = h
Step-fifo {s} h (notify_nobody k e g) = h
Step-fifo {s} h (start_again r) = h
Step-fifo {s} h (start c r) = h
Step-fifo {s} h (spawn k c lt) = h
Step-fifo {s} h (started c) = h
Step-fifo {s} h (start_fails k c lt) = h
Step-fifo {s} h (stop_again r) = h
Step-fifo {s} h (stop c r) = h
Step-fifo {s} h (notify_all c) = h
Step-fifo {s} h (join c g) = h

-- In every reachable state the tasks taken so far, in their order, and the queue make up the tasks
-- scheduled so far, in theirs.
pub Reach-fifo : {n : ℕ} {s : State} → Reach n s → s.taken ++ s.queue ≡ s.pushed
unfolding init
Reach-fifo here = refl
Reach-fifo (next r st) = Step-fifo (Reach-fifo r) st

-- In every reachable state a worker is in its critical section alone.
pub mutual_exclusion :
    {n : ℕ} {s : State}
    → Reach n s
    → (i j : ℕ) → critical (s.worker i) ≡ true
    → critical (s.worker j) ≡ true
    → i ≡ j
mutual_exclusion r i j p q = let inv = Reach-Inv r in ground (arith, inv.owner i p, inv.owner j q)

abbrev pub count : ℕ → List ℕ → ℕ
count v [] = 0
count v (x ∷ xs) = (if x == v then 1 else 0) + count v xs

count-append : (v : ℕ) (xs ys : List ℕ) → count v (xs ++ ys) ≡ count v xs + count v ys
count-append v [] ys = omega arith
count-append v (x ∷ xs) ys = omega (arith, count-append v xs ys)

count-push :
    (v : ℕ) (xs : List ℕ) (x : ℕ) → count v (xs ++ x ∷ []) ≡ count v xs + (if x == v then 1 else 0)
count-push v xs x = omega (arith, count-append v xs (x ∷ []))

-- 1 for a worker that holds the task.
abbrev pub holds : ℕ → Pc → ℕ
holds v (holding x) = if x == v then 1 else 0
holds v _ = 0

abbrev pub total : (Pc → ℕ) → ℕ → (ℕ → Pc) → ℕ
total w zero f = 0
total w (suc n) f = total w n f + w (f n)

total-cong :
    (w : Pc → ℕ) (n : ℕ) (f g : ℕ → Pc)
    → ((i : ℕ) → i < n → w (f i) ≡ w (g i))
    → total w n f ≡ total w n g
total-cong w zero f g h = refl
total-cong w (suc n) f g h =
    omega (arith, total-cong w n f g (λ i lt. h i (omega arith)), h n (omega arith))

total-update :
    (w : Pc → ℕ) (n : ℕ) (f : ℕ → Pc) (i : ℕ) (p : Pc)
    → i < n
    → total w n (update f i p) + w (f i) ≡ total w n f + w p
total-update w zero f i p h = absurd (omega arith)
total-update w (suc n) f i p h = elim (Bool-cases (i == n)) [
  | inl last ↦ ground (arith, total-cong w n (update f i p) f (λ j lt. ground arith))
  | inr below ↦ ground (arith, total-update w n f i p (ground arith))
]

total_exited : (v n : ℕ) (f : ℕ → Pc) → ((i : ℕ) → i < n → f i ≡ exited) → total (holds v) n f ≡ 0
total_exited v zero f h = refl
total_exited v (suc n) f h =
    ground (arith, total_exited v n f (λ i lt. h i (omega arith)), h n (omega arith))

-- Every task taken was run or is in the hand of a worker.
Step-conserved :
    {n : ℕ} {s t : State} (v' : ℕ)
    → Inv n s
    → count v' s.taken ≡ count v' s.executed + total (holds v') n s.worker
    → Step n s t
    → count v' t.taken ≡ count v' t.executed + total (holds v') n t.worker
unfolding wake
Step-conserved {n} {s} v' inv kept (enter i h p r) =
    ground (arith, total-update (holds v') n s.worker i locking h)
Step-conserved {n} {s} v' inv kept (leave i h p r) =
    ground (arith, total-update (holds v') n s.worker i exited h)
Step-conserved {n} {s} v' inv kept (acquire i h p r) =
    ground (arith, total-update (holds v') n s.worker i checking h)
Step-conserved {n} {s} v' inv kept (ready i h p r) =
    ground (arith, total-update (holds v') n s.worker i woken h)
Step-conserved {n} {s} v' inv kept (unready i h p r) =
    ground (arith, total-update (holds v') n s.worker i blocking h)
Step-conserved {n} {s} v' inv kept (sleep i h p) =
    ground (arith, total-update (holds v') n s.worker i asleep h)
Step-conserved {n} {s} v' inv kept (spurious i h p) =
    ground (arith, total-update (holds v') n s.worker i locking h)
Step-conserved {n} {s} v' inv kept (quit i h p r) =
    ground (arith, total-update (holds v') n s.worker i exited h)
Step-conserved {n} {s} v' inv kept (pop i v l h p r e) =
    ground (arith, total-update (holds v') n s.worker i (holding v) h, count-push v' s.taken v)
Step-conserved {n} {s} v' inv kept (pass i h p r e) =
    ground (arith, total-update (holds v') n s.worker i head h)
Step-conserved {n} {s} v' inv kept (execute i v h p) =
    ground (arith, total-update (holds v') n s.worker i head h, count-push v' s.executed v)
Step-conserved {n} {s} v' inv kept (schedule v m) = kept
Step-conserved {n} {s} v' inv kept (notify_one i k e h p) =
    ground (arith, total-update (holds v') n s.worker i locking h)
Step-conserved {n} {s} v' inv kept (notify_nobody k e h) = kept
Step-conserved {n} {s} v' inv kept (start_again r) = kept
Step-conserved {n} {s} v' inv kept (start c r) = kept
Step-conserved {n} {s} v' inv kept (spawn k c h) =
    ground (arith, total-update (holds v') n s.worker k head h, inv.unborn k c k)
Step-conserved {n} {s} v' inv kept (started c) = kept
Step-conserved {n} {s} v' inv kept (start_fails k c h) = kept
Step-conserved {n} {s} v' inv kept (stop_again r) = kept
Step-conserved {n} {s} v' inv kept (stop c r) = kept
Step-conserved {n} {s} v' inv kept (notify_all c) =
    omega (arith, total-cong (holds v') n s.worker (λ i. wake (s.worker i)) (λ i lt. ground arith))
Step-conserved {n} {s} v' inv kept (join c h) = kept

Reach-conserved :
    {n : ℕ} {s : State} (v : ℕ)
    → Reach n s
    → count v s.taken ≡ count v s.executed + total (holds v) n s.worker
unfolding init
Reach-conserved {n} v here = omega (arith, total_exited v n (λ _. exited) (λ i lt. refl))
Reach-conserved v (next r st) = Step-conserved v (Reach-Inv r) (Reach-conserved v r) st

-- Each scheduled task is queued, in the hand of one worker, or was run, as often as it was scheduled;
-- and once `stop` has returned no worker has one.
pub tasks_conserved :
    {n : ℕ} {s : State} (v : ℕ)
    → Reach n s
    → (count v s.pushed ≡ count v s.executed + total (holds v) n s.worker + count v s.queue)
      × (s.control ≡ down → count v s.pushed ≡ count v s.executed + count v s.queue)
tasks_conserved {n} {s} v r = (whole, λ c. omega (arith, whole, idle c))
  where
    whole : count v s.pushed ≡ count v s.executed + total (holds v) n s.worker + count v s.queue
    whole =
        omega
          (arith, ap (count v) (Reach-fifo r), count-append v s.taken s.queue, Reach-conserved v r)

    idle : s.control ≡ down → total (holds v) n s.worker ≡ 0
    idle c = total_exited v n s.worker ((Reach-Inv r).ended c)
