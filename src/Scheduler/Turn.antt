-- ===== src/Scheduler/Turn.antt =====
-- One turn of the loop in `workerLoop`.
use mathlib.Core.List.{append-nil, append_assoc}
use icelander.Prelude.{ℕ, ◌<◌, ◌≡◌, refl, sym, ◌∙◌, List, [], ◌∷◌, ◌++◌, none, true, arith}
use icelander.Scheduler.{
  State, head, wait_over, is_empty, Step, enter, leave, acquire, ready, unready, sleep, quit, pop,
  pass, execute,
}

-- A step of the worker `i` in its loop: not of another worker, and of no other thread.
abbrev pub IsOwn : {n : ℕ} {s t : State} → ℕ → Step n s t → Type 0
IsOwn i (enter j h p r) = j ≡ i
IsOwn i (leave j h p r) = j ≡ i
IsOwn i (acquire j h p r) = j ≡ i
IsOwn i (ready j h p r) = j ≡ i
IsOwn i (unready j h p r) = j ≡ i
IsOwn i (sleep j h p) = j ≡ i
IsOwn i (quit j h p r) = j ≡ i
IsOwn i (pop j v q h p r e) = j ≡ i
IsOwn i (pass j h p r e) = j ≡ i
IsOwn i (execute j v h p) = j ≡ i
IsOwn i _ = ⊥

-- Any number of steps of the worker `i` alone.
pub data OwnSteps (n i : ℕ) (s : State) : State → Type 0 where
  stay : OwnSteps n i s s
  step : {t u : State} → OwnSteps n i s t → (st : Step n t u) → IsOwn i st → OwnSteps n i s u

-- A worker at the head of its loop that finds the scheduler running, the mutex free and a task can, by
-- its own steps alone, take the oldest task and run it; the mutex is free again, the queue has lost
-- just that task, and every worker stands where it stood.
pub turn_lem :
    (n i v : ℕ) (q : List ℕ) (s : State)
    → i < n
    → s.worker i ≡ head
    → s.running ≡ true
    → s.mutex ≡ none
    → s.queue ≡ v ∷ q
    → (t : State) × OwnSteps n i s t
      × (t.executed ≡ s.executed ++ v ∷ [])
      × (t.queue ≡ q)
      × (t.mutex ≡ none)
      × ((j : ℕ) → t.worker j ≡ s.worker j)
      × (t.running ≡ s.running)
unfolding wait_over is_empty
turn_lem n i v q s lt at_head on free full =
    let entered = step stay (enter i lt at_head on) refl in
    let locked = step entered (acquire i lt (ground arith) free) refl in
    let found = step locked (ready i lt (ground arith) (rw full refl)) refl in
    let popped = step found (pop i v q lt (ground arith) on full) refl in
    let ran = step popped (execute i v lt (ground arith)) refl in
    (_, ran, refl, refl, refl, (λ j. ground arith), refl)

OwnSteps-trans : {n i : ℕ} {s t u : State} → OwnSteps n i s t → OwnSteps n i t u → OwnSteps n i s u
OwnSteps-trans p stay = p
OwnSteps-trans p (step q r own) = step (OwnSteps-trans p q) r own

-- One worker at the head of its loop, the scheduler running and the mutex free, can by steps of
-- its own loop alone, with no step of another worker or thread and no wake-up, empty the queue,
-- whatever tasks it holds; it runs them in the order of the queue and is at the head of its loop
-- again.
pub drain_lem :
    (n i : ℕ) (q : List ℕ) (s : State)
    → i < n
    → s.worker i ≡ head
    → s.running ≡ true
    → s.mutex ≡ none
    → s.queue ≡ q
    → (t : State) × OwnSteps n i s t
      × (t.queue ≡ [])
      × (t.executed ≡ s.executed ++ q)
      × (t.mutex ≡ none)
      × (t.running ≡ true)
      × (t.worker i ≡ head)
drain_lem n i [] s lt at_head on free empty =
    (s, stay, empty, sym (append-nil s.executed), free, on, at_head)
drain_lem n i (v ∷ q) s lt at_head on free full =
    let (t, one, ran, left, free', same, on') = turn_lem n i v q s lt at_head on free full in
    let (u, more, empty, ran', free'', on'', at_head') =
      drain_lem n i q t lt (same i ∙ at_head) (on' ∙ on) free' left in
    (
      u,
      OwnSteps-trans one more,
      empty,
      ran' ∙ rw ran (append_assoc s.executed (v ∷ []) q),
      free'',
      on'',
      at_head',
    )
