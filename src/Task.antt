-- ===== src/Task.antt =====
-- async::Task (include/icelander.hpp), for a result that is not void, and what `scheduleTask` puts in
-- the queue.
use icelander.Prelude.{Bool, true}

pub record Task (T : Type 0) : Type 0 where
  pub result : T

module _ {T : Type 0} where
  -- `T result_{}`
  unfoldable pub new : T → Task T
  new default = record { result = default }

  -- The defaulted moves, by the moves of `T`: what the left side holds then, and what `other` does.
  unfoldable pub move_construct : (T → T × T) → Task T → Task T × Task T
  move_construct moved other =
      let (result, left) = moved other.result in
      (record { result = result }, record { result = left })

  unfoldable pub move_assign : (T → T → T × T) → Task T → Task T → Task T × Task T
  move_assign assigned t other =
      let (result, left) = assigned t.result other.result in
      (record { result = result }, record { result = left })

  unfoldable pub get : Task T → T
  get t = t.result

  unfoldable pub is_done : Task T → Bool
  is_done t = true

  unfoldable pub resume : Task T → Task T
  resume t = t

  -- The function that `scheduleTask` schedules, on the task that it has captured.
  unfoldable pub scheduled : Task T → Task T
  unfolding resume
  scheduled t = resume t
