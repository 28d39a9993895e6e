-- ===== src/Host/Thread.antt =====
-- The service thread of class Host (src/host.cpp): `startServiceThread`, `stopServiceThread`,
-- `serviceThreadLoop` and the destructor, as steps of that thread and of the one thread of the
-- application that owns the host. No handler stops or destroys the host from the service thread.
pub mod Stop
use icelander.Prelude.{ℕ, ◌≡◌, Option, none, some, Bool, true, false, Error, ℤ, done, thrown}
use icelander.Enet.{Enet}
use icelander.Dispatcher.{EventDispatcher}
use icelander.Host.Refs
use icelander.Host.Events.{service}
use icelander.Host.Calls.{close}

-- Where the service thread stands in `serviceThreadLoop`.
pub data Pc : Type 0 where
  testing serving ended : Pc

-- Where the application stands: in no call, in `stopServiceThread` before the end of `join`, or past
-- the destructor.
pub data Control : Type 0 where
  idle joining closed : Control

module _ (e : Enet) {A : Type 0} (d : EventDispatcher (Refs.State e A)) where
  -- `serviceThreadRunning_`, `serviceThread_`, the rest of the host, and whether `std::terminate` was
  -- called.
  pub record State : Type 0 where
    pub running : Bool
    pub thread : Option Pc
    pub control : Control
    pub terminated : Bool
    pub host : Refs.State e A

  unfoldable pub init : Refs.State e A → State
  init h = record { running = false; thread = none; control = idle; terminated = false; host = h }

  pub data Step (s : State) : State → Type 0 where
    start_again : s.control ≡ idle → s.running ≡ true → Step s s
    start :
        s.control ≡ idle
        → s.running ≡ false
        → s.thread ≡ none
        → Step s (record s { running = true; thread = some testing })
    -- The assignment to `serviceThread_` destroys a thread that nobody has joined.
    start_over :
        (p : Pc)
        → s.control ≡ idle
        → s.running ≡ false
        → s.thread ≡ some p
        → Step s (record s { terminated = true })
    enter : s.thread ≡ some testing → s.running ≡ true → Step s (record s { thread = some serving })
    leave : s.thread ≡ some testing → s.running ≡ false → Step s (record s { thread = some ended })
    serve :
        (result : ℤ) (h : Refs.State e A)
        → s.thread ≡ some serving
        → service e d 10 s.host ≡ done result h
        → Step s (record s { thread = some testing; host = h })
    -- An exception leaves the function of the thread.
    escape :
        (x : Error) (h : Refs.State e A)
        → s.thread ≡ some serving
        → service e d 10 s.host ≡ thrown x h
        → Step s (record s { terminated = true; host = h })
    stop_again : s.control ≡ idle → s.running ≡ false → Step s s
    stop :
        s.control ≡ idle
        → s.running ≡ true
        → Step s (record s { running = false; control = joining })
    join :
        s.control ≡ joining
        → s.thread ≡ some ended
        → Step s (record s { thread = none; control = idle })
    join_nobody : s.control ≡ joining → s.thread ≡ none → Step s (record s { control = idle })
    -- `~Host`, in which `stopServiceThread` has returned
    closes :
        s.control ≡ idle
        → s.running ≡ false
        → Step s (record s { control = closed; host = record s.host { world = close e s.host } })

  -- After `std::terminate` nothing runs.
  pub data Reach (h : Refs.State e A) : State → Type 0 where
    here : Reach h (init h)
    next : {s t : State} → Reach h s → s.terminated ≡ false → Step s t → Reach h t
