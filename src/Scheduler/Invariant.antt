-- ===== src/Scheduler/Invariant.antt =====
-- The mutex, the flag and the phases of `start` and `stop`: true at first and kept by every step.
use icelander.Prelude.{
  ℕ, ◌≤◌, ◌<◌, ◌≡◌, ◌⊎◌, inl, inr, refl, ap, Bool-cases, ltb, some, Bool, true, false, arith,
}
use icelander.Scheduler.{
  Pc, checking, blocking, woken, exited, Control, down, up, starting, State, init, wake, Step,
  enter, leave, acquire, ready, unready, sleep, spurious, quit, pop, pass, execute, schedule,
  notify_one, notify_nobody, start_again, start, spawn, started, start_fails, stop_again, stop,
  notify_all, join, Reach, here, next,
}

-- Between taking the mutex and releasing it.
abbrev pub critical : Pc → Bool
critical checking = true
critical blocking = true
critical woken = true
critical _ = false

abbrev pub running_in : Control → Bool
running_in up = true
running_in (starting k) = true
running_in _ = false

pub record Inv (n : ℕ) (s : State) : Type 0 where
  -- the mutex is held by exactly the worker that is in a critical section
  pub owner : (i : ℕ) → critical (s.worker i) ≡ true → s.mutex ≡ some i
  pub held : (i : ℕ) → s.mutex ≡ some i → critical (s.worker i) ≡ true
  -- the flag is set exactly between `start` and `stop`
  pub flag : s.running ≡ running_in s.control
  -- `start` makes the workers in order
  pub unborn : (k : ℕ) → s.control ≡ starting k → (i : ℕ) → k ≤ i → s.worker i ≡ exited
  -- there are no workers but the first `n`, and none while the scheduler is down
  pub absent : (i : ℕ) → n ≤ i → s.worker i ≡ exited
  pub ended : s.control ≡ down → (i : ℕ) → i < n → s.worker i ≡ exited

Inv-init : (n : ℕ) → Inv n init
unfolding init
Inv-init n = record {
  owner = λ i q. cc;
  held = λ i q. cc;
  flag = refl;
  unborn = λ k q i h. refl;
  absent = λ i h. refl;
  ended = λ q i h. refl;
}

starting-injective : {a b : ℕ} → starting a ≡ starting b → a ≡ b
starting-injective q = ap (λ c. elim c [ starting k ↦ k | _ ↦ 0 ]) q

module _ {n : ℕ} where
  le_total_lt : (j : ℕ) → (n ≤ j) ⊎ (j < n)
  le_total_lt j = elim (Bool-cases (ltb j n)) [
    | inl below ↦ inr (ground arith)
    | inr above ↦ inl (ground arith)
  ]

  Step-owner :
      {s t : State}
      → Inv n s
      → Step n s t
      → (j : ℕ) → critical (t.worker j) ≡ true
      → t.mutex ≡ some j
  unfolding wake
  Step-owner inv (enter i h p r) j q = ground (arith, inv.owner j)
  Step-owner inv (leave i h p r) j q = ground (arith, inv.owner j)
  Step-owner inv (acquire i h p r) j q = ground (arith, inv.owner j)
  Step-owner inv (ready i h p r) j q = ground (arith, inv.owner j, inv.owner i)
  Step-owner inv (unready i h p r) j q = ground (arith, inv.owner j, inv.owner i)
  Step-owner inv (sleep i h p) j q = ground (arith, inv.owner j, inv.owner i)
  Step-owner inv (spurious i h p) j q = ground (arith, inv.owner j)
  Step-owner inv (quit i h p r) j q = ground (arith, inv.owner j, inv.owner i)
  Step-owner inv (pop i t l h p r e) j q = ground (arith, inv.owner j, inv.owner i)
  Step-owner inv (pass i h p r e) j q = ground (arith, inv.owner j, inv.owner i)
  Step-owner inv (execute i t h p) j q = ground (arith, inv.owner j)
  Step-owner inv (schedule t m) j q = inv.owner j q
  Step-owner inv (notify_one i k e h p) j q = ground (arith, inv.owner j)
  Step-owner inv (notify_nobody k e h) j q = inv.owner j q
  Step-owner inv (start_again r) j q = inv.owner j q
  Step-owner inv (start c r) j q = inv.owner j q
  Step-owner inv (spawn k c h) j q = ground (arith, inv.owner j)
  Step-owner inv (started c) j q = inv.owner j q
  Step-owner inv (start_fails k c h) j q = inv.owner j q
  Step-owner inv (stop_again r) j q = inv.owner j q
  Step-owner inv (stop c r) j q = inv.owner j q
  Step-owner inv (notify_all c) j q = ground (arith, inv.owner j)
  Step-owner inv (join c h) j q = inv.owner j q

  Step-held :
      {s t : State}
      → Inv n s
      → Step n s t
      → (j : ℕ) → t.mutex ≡ some j
      → critical (t.worker j) ≡ true
  unfolding wake
  Step-held inv (enter i h p r) j q = ground (arith, inv.held j, inv.owner i)
  Step-held inv (leave i h p r) j q = ground (arith, inv.held j, inv.owner i)
  Step-held inv (acquire i h p r) j q = ground (arith, inv.held j, inv.owner i)
  Step-held inv (ready i h p r) j q = ground (arith, inv.held j, inv.owner i)
  Step-held inv (unready i h p r) j q = ground (arith, inv.held j, inv.owner i)
  Step-held inv (sleep i h p) j q = ground (arith, inv.held j, inv.owner i)
  Step-held inv (spurious i h p) j q = ground (arith, inv.held j, inv.owner i)
  Step-held inv (quit i h p r) j q = ground (arith, inv.held j, inv.owner i)
  Step-held inv (pop i t l h p r e) j q = ground (arith, inv.held j, inv.owner i)
  Step-held inv (pass i h p r e) j q = ground (arith, inv.held j, inv.owner i)
  Step-held inv (execute i t h p) j q = ground (arith, inv.held j, inv.owner i)
  Step-held inv (schedule t m) j q = inv.held j q
  Step-held inv (notify_one i k e h p) j q = ground (arith, inv.held j, inv.owner i)
  Step-held inv (notify_nobody k e h) j q = inv.held j q
  Step-held inv (start_again r) j q = inv.held j q
  Step-held inv (start c r) j q = inv.held j q
  Step-held inv (spawn k c h) j q = ground (arith, inv.held j, inv.unborn k c k)
  Step-held inv (started c) j q = inv.held j q
  Step-held inv (start_fails k c h) j q = inv.held j q
  Step-held inv (stop_again r) j q = inv.held j q
  Step-held inv (stop c r) j q = inv.held j q
  Step-held inv (notify_all c) j q = ground (arith, inv.held j)
  Step-held inv (join c h) j q = inv.held j q

  Step-flag : {s t : State} → Inv n s → Step n s t → t.running ≡ running_in t.control
  unfolding wake
  Step-flag inv (enter i h p r) = inv.flag
  Step-flag inv (leave i h p r) = inv.flag
  Step-flag inv (acquire i h p r) = inv.flag
  Step-flag inv (ready i h p r) = inv.flag
  Step-flag inv (unready i h p r) = inv.flag
  Step-flag inv (sleep i h p) = inv.flag
  Step-flag inv (spurious i h p) = inv.flag
  Step-flag inv (quit i h p r) = inv.flag
  Step-flag inv (pop i t l h p r e) = inv.flag
  Step-flag inv (pass i h p r e) = inv.flag
  Step-flag inv (execute i t h p) = inv.flag
  Step-flag inv (schedule t m) = inv.flag
  Step-flag inv (notify_one i k e h p) = inv.flag
  Step-flag inv (notify_nobody k e h) = inv.flag
  Step-flag inv (start_again r) = inv.flag
  Step-flag inv (start c r) = refl
  Step-flag inv (spawn k c h) = rw c at inv.flag
  Step-flag inv (started c) = rw c at inv.flag
  Step-flag inv (start_fails k c h) = rw c at inv.flag
  Step-flag inv (stop_again r) = inv.flag
  Step-flag inv (stop c r) = refl
  Step-flag inv (notify_all c) = rw c at inv.flag
  Step-flag inv (join c h) = rw c at inv.flag

  Step-unborn :
      {s t : State}
      → Inv n s
      → Step n s t
      → (k : ℕ) → t.control ≡ starting k
      → (j : ℕ) → k ≤ j
      → t.worker j ≡ exited
  unfolding wake
  Step-unborn inv (enter i h p r) k q j le = ground (arith, inv.unborn k q j le)
  Step-unborn inv (leave i h p r) k q j le = ground (arith, inv.unborn k q j le)
  Step-unborn inv (acquire i h p r) k q j le = ground (arith, inv.unborn k q j le)
  Step-unborn inv (ready i h p r) k q j le = ground (arith, inv.unborn k q j le)
  Step-unborn inv (unready i h p r) k q j le = ground (arith, inv.unborn k q j le)
  Step-unborn inv (sleep i h p) k q j le = ground (arith, inv.unborn k q j le)
  Step-unborn inv (spurious i h p) k q j le = ground (arith, inv.unborn k q j le)
  Step-unborn inv (quit i h p r) k q j le = ground (arith, inv.unborn k q j le)
  Step-unborn inv (pop i v l h p r e) k q j le = ground (arith, inv.unborn k q j le)
  Step-unborn inv (pass i h p r e) k q j le = ground (arith, inv.unborn k q j le)
  Step-unborn inv (execute i v h p) k q j le = ground (arith, inv.unborn k q j le)
  Step-unborn inv (notify_one i k' e h p) k q j le = ground (arith, inv.unborn k q j le)
  Step-unborn inv (schedule v m) k q j le = inv.unborn k q j le
  Step-unborn inv (notify_nobody k' e h) k q j le = inv.unborn k q j le
  Step-unborn inv (start_again r) k q j le = inv.unborn k q j le
  Step-unborn {s} inv (start c r) k q j le = elim (le_total_lt j) [
    | inl out ↦ inv.absent j out
    | inr lt ↦ inv.ended c j lt
  ]
  Step-unborn inv (spawn k' c h) k q j le = ground (arith, inv.unborn k' c j, starting-injective q)
  Step-unborn inv (started c) k q j le = cc
  Step-unborn inv (start_fails k' c h) k q j le = cc
  Step-unborn inv (stop_again r) k q j le = inv.unborn k q j le
  Step-unborn inv (stop c r) k q j le = cc
  Step-unborn inv (notify_all c) k q j le = cc
  Step-unborn inv (join c h) k q j le = cc

  Step-absent : {s t : State} → Inv n s → Step n s t → (j : ℕ) → n ≤ j → t.worker j ≡ exited
  unfolding wake
  Step-absent inv (enter i h p r) j q = ground (arith, inv.absent j q)
  Step-absent inv (leave i h p r) j q = ground (arith, inv.absent j q)
  Step-absent inv (acquire i h p r) j q = ground (arith, inv.absent j q)
  Step-absent inv (ready i h p r) j q = ground (arith, inv.absent j q)
  Step-absent inv (unready i h p r) j q = ground (arith, inv.absent j q)
  Step-absent inv (sleep i h p) j q = ground (arith, inv.absent j q)
  Step-absent inv (spurious i h p) j q = ground (arith, inv.absent j q)
  Step-absent inv (quit i h p r) j q = ground (arith, inv.absent j q)
  Step-absent inv (pop i t l h p r e) j q = ground (arith, inv.absent j q)
  Step-absent inv (pass i h p r e) j q = ground (arith, inv.absent j q)
  Step-absent inv (execute i t h p) j q = ground (arith, inv.absent j q)
  Step-absent inv (schedule t m) j q = inv.absent j q
  Step-absent inv (notify_one i k e h p) j q = ground (arith, inv.absent j q)
  Step-absent inv (notify_nobody k e h) j q = inv.absent j q
  Step-absent inv (start_again r) j q = inv.absent j q
  Step-absent inv (start c r) j q = inv.absent j q
  Step-absent inv (spawn k c h) j q = ground (arith, inv.absent j q)
  Step-absent inv (started c) j q = inv.absent j q
  Step-absent inv (start_fails k c h) j q = inv.absent j q
  Step-absent inv (stop_again r) j q = inv.absent j q
  Step-absent inv (stop c r) j q = inv.absent j q
  Step-absent inv (notify_all c) j q = ground (arith, inv.absent j q)
  Step-absent inv (join c h) j q = inv.absent j q

  Step-ended :
      {s t : State}
      → Inv n s
      → Step n s t
      → t.control ≡ down
      → (j : ℕ) → j < n
      → t.worker j ≡ exited
  unfolding wake
  Step-ended inv (enter i h p r) q j lt = ground (arith, inv.ended q i h)
  Step-ended inv (leave i h p r) q j lt = ground (arith, inv.ended q i h)
  Step-ended inv (acquire i h p r) q j lt = ground (arith, inv.ended q i h)
  Step-ended inv (ready i h p r) q j lt = ground (arith, inv.ended q i h)
  Step-ended inv (unready i h p r) q j lt = ground (arith, inv.ended q i h)
  Step-ended inv (sleep i h p) q j lt = ground (arith, inv.ended q i h)
  Step-ended inv (spurious i h p) q j lt = ground (arith, inv.ended q i h)
  Step-ended inv (quit i h p r) q j lt = ground (arith, inv.ended q i h)
  Step-ended inv (pop i t l h p r e) q j lt = ground (arith, inv.ended q i h)
  Step-ended inv (pass i h p r e) q j lt = ground (arith, inv.ended q i h)
  Step-ended inv (execute i t h p) q j lt = ground (arith, inv.ended q i h)
  Step-ended inv (schedule t m) q j lt = inv.ended q j lt
  Step-ended inv (notify_one i k e h p) q j lt = ground (arith, inv.ended q i h)
  Step-ended inv (notify_nobody k e h) q j lt = inv.ended q j lt
  Step-ended inv (start_again r) q j lt = inv.ended q j lt
  Step-ended inv (start c r) q j lt = cc
  Step-ended inv (spawn k c h) q j lt = cc
  Step-ended inv (started c) q j lt = cc
  Step-ended inv (start_fails k c h) q j lt = cc
  Step-ended inv (stop_again r) q j lt = inv.ended q j lt
  Step-ended inv (stop c r) q j lt = cc
  Step-ended inv (notify_all c) q j lt = cc
  Step-ended inv (join c h) q j lt = h j lt

  -- Every step keeps the invariant.
  Step-Inv : {s t : State} → Inv n s → Step n s t → Inv n t
  Step-Inv inv st = record {
    owner = Step-owner inv st;
    held = Step-held inv st;
    flag = Step-flag inv st;
    unborn = Step-unborn inv st;
    absent = Step-absent inv st;
    ended = Step-ended inv st;
  }

  -- So it holds in every reachable state: the mutex excludes, and after `stop` no worker runs.
  pub Reach-Inv : {s : State} → Reach n s → Inv n s
  Reach-Inv here = Inv-init n
  Reach-Inv (next r st) = Step-Inv (Reach-Inv r) st
