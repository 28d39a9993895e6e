-- ===== src/Apps/Programs.antt =====
-- The programs under examples/ from the start of `main` to the end of the process: the library, the
-- hosts with their service threads, the scheduler, and what an exception leaves of them. What ENet, the
-- network and the threads do is an argument; what is printed on the way is left out but for the errors
-- and the last line.
pub mod Failures
pub mod Resets
pub mod Echoes
pub mod Demo
pub mod Bench
pub mod Rounds
use icelander.Prelude.{
  ℕ, ◌+◌, ◌-◌, Bool, true, false, ◌||◌, List, [], ◌∷◌, ◌++◌, Option, none, some, ◌==◌,
  if◌then◌else◌, Error,
}
use icelander.Types.{Endpoint, HostConfig}

-- What `initialize` answers, and what the calls throw: the creation of a host, given which one it is,
-- where it is bound, and its configuration; and `connect`. Whether the service thread of a host calls
-- `std::terminate` before it is joined, which an exception that leaves its function does; and whether
-- `TaskScheduler::stop` returns.
pub record Outside : Type 0 where
  pub starts : Bool
  pub creates : ℕ → Option Endpoint → HostConfig → Option Error
  pub connects : ℕ → Endpoint → Option Error
  pub crashes : ℕ → Bool
  pub stops : Bool

-- A host, by whether its service thread runs.
pub data Service : Type 0 where
  idle serving : Service

-- The lines that show how a program ends.
pub data Report : Type 0 where
  not_initialized finished : Report
  failed : Error → Report

-- `initialized_` of Library; the hosts that were made and not destroyed; whether the threads of the
-- scheduler run; whether a host lost its last reference while its service thread ran; and the members
-- of the program.
pub record Process (A : Type 0) : Type 0 where
  pub initialized : Bool
  pub live : ℕ
  pub scheduler : Bool
  pub careless : Bool
  pub reports : List Report
  pub members : A

-- A result, an exception, `std::terminate`, a call that never returns, or a use of ENet that its documentation excludes.
pub data Run (W A : Type 0) : Type 0 where
  done : A → W → Run W A
  thrown : Error → W → Run W A
  terminated : W → Run W A
  hung : W → Run W A
  misused : Run W A

abbrev pub Act : Type 0 → Type 0 → Type 0
Act W A = W → Run W A

infixl 5 ◌>>=◌ ◌>>◌
abbrev pub ◌>>=◌ : {W A B : Type 0} → Act W A → (A → Act W B) → Act W B
◌>>=◌ m f w = elim (m w) [
  | done a u ↦ f a u
  | thrown x u ↦ thrown x u
  | terminated u ↦ terminated u
  | hung u ↦ hung u
  | misused ↦ misused
]

abbrev pub ◌>>◌ : {W B : Type 0} → Act W (Unit {0}) → Act W B → Act W B
m >> k = m >>= λ _. k

abbrev pub pure : {W A : Type 0} → A → Act W A
pure a w = done a w

abbrev pub throw_if : {W : Type 0} → Option Error → Act W (Unit {0})
throw_if none w = done tt w
throw_if (some x) w = thrown x w

-- An exception that leaves the function of a thread.
abbrev pub terminate_if : {W : Type 0} → Option Error → Act W (Unit {0})
terminate_if none w = done tt w
terminate_if (some x) w = terminated w

-- `try { … } catch (const std::exception& e) { … }`
abbrev pub catching : {W A : Type 0} → Act W A → (Error → Act W A) → Act W A
catching m k w = elim (m w) [
  | done a u ↦ done a u
  | thrown x u ↦ k x u
  | terminated u ↦ terminated u
  | hung u ↦ hung u
  | misused ↦ misused
]

-- `startServiceThread` on a host of the thread that calls it. A thread that calls `std::terminate` at any
-- time before it is joined does so here.
unfoldable pub start_service_thread : {W : Type 0} → Bool → Service → Act W Service
start_service_thread crashes h s = if crashes then terminated s else done serving s

-- `stopServiceThread`
unfoldable pub stop_service_thread : Service → Service
stop_service_thread h = idle

abbrev pub is_serving : Service → Bool
is_serving idle = false
is_serving serving = true

module _ {A : Type 0} where
  abbrev pub start : A → Process A
  start members = record {
    initialized = false;
    live = 0;
    scheduler = false;
    careless = false;
    reports = [];
    members = members;
  }

  abbrev pub report : Report → Act (Process A) (Unit {0})
  report r s = done tt (record s { reports = s.reports ++ r ∷ [] })

  -- `Library::initialize` and `Library::deinitialize`: no host may be left.
  unfoldable pub initialize : Bool → Act (Process A) Bool
  initialize starts s =
      if s.initialized then done true s else done starts (record s { initialized = starts })

  unfoldable pub deinitialize : Act (Process A) (Unit {0})
  deinitialize s =
      if s.initialized
      then (if s.live == 0 then done tt (record s { initialized = false }) else misused)
      else done tt s

  -- `createServer` and `createClient`: ENet must be initialized.
  unfoldable pub create : Option Error → Act (Process A) Service
  create answer s =
      if s.initialized
      then elim answer [ none ↦ done idle (record s { live = s.live + 1 }) | some x ↦ thrown x s ]
      else misused

  -- The last reference to a host ends.
  unfoldable pub destroy : Service → Act (Process A) (Unit {0})
  destroy h s = done tt (record s { live = s.live - 1; careless = s.careless || is_serving h })

  -- `reset` of a `shared_ptr`
  unfoldable pub reset : Option Service → Act (Process A) (Unit {0})
  unfolding destroy
  reset none = pure tt
  reset (some h) = destroy h

  -- A block with a local reference to `h`, which ends if an exception leaves the block.
  abbrev pub holding : {B : Type 0} → Service → Act (Process A) B → Act (Process A) B
  holding h m s = elim (m s) [
    | done b t ↦ done b t
    | thrown x t ↦ (destroy h >>= λ _ u. thrown x u) t
    | terminated t ↦ terminated t
    | hung t ↦ hung t
    | misused ↦ misused
  ]

  -- `TaskScheduler::instance().start()` and `stop()`
  unfoldable pub start_scheduler : Act (Process A) (Unit {0})
  start_scheduler s = done tt (record s { scheduler = true })

  unfoldable pub stop_scheduler : Bool → Act (Process A) (Unit {0})
  stop_scheduler stops s = if stops then done tt (record s { scheduler = false }) else hung s

  -- After `main`: an exception that it throws terminates the program, and so does the destructor of the
  -- static TaskScheduler, whose threads are joinable unless `stop` has joined them.
  unfoldable pub exit_process : Run (Process A) ℕ → Run (Process A) ℕ
  exit_process (done code s) = if s.scheduler then terminated s else done code s
  exit_process (thrown x s) = terminated s
  exit_process (terminated s) = terminated s
  exit_process (hung s) = hung s
  exit_process misused = misused
