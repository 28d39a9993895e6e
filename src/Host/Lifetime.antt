-- ===== src/Host/Lifetime.antt =====
-- The end of a Host (src/host.cpp) that its owner holds by `shared_ptr`s while the service thread makes
-- one of its own: `processEvent` calls `shared_from_this` at every CONNECT event. Steps of the service
-- thread and of the one thread of the owner, interleaved in any order; what ENet returns is free. The
-- handlers return or throw, and neither keep a `shared_ptr` to the host nor stop it.
pub mod Safety
pub mod Danger
use icelander.Prelude.{ℕ, suc, ◌+◌, ◌-◌, ◌<◌, ◌≡◌, Option, none, some, Bool, true, false}

-- Where the service thread stands: before the test of the loop, in `service`, in `processEvent` before
-- `shared_from_this`, behind it with a reference, or past the loop.
pub data Pc : Type 0 where
  testing serving connecting sharing ended : Pc

-- Where the owner stands: in no call, in `join` of `stopServiceThread`, in `join` of the destructor, past
-- the destructor, or without a reference while the service thread has one.
pub data Owner : Type 0 where
  owning stopping closing closed gone : Owner

-- What calls `std::terminate`: an exception that `processEvent` throws on the service thread, of a look-up
-- of an address, of memory or of a handler; the `bad_weak_ptr` of `shared_from_this`; the destructor that
-- joins its own thread; or the end of a thread object that is not joined.
pub data Cause : Type 0 where
  nothing escaped bad_weak_ptr self_join unjoined : Cause

-- `serviceThreadRunning_` and `serviceThread_`; the references of the owner, and all strong references,
-- those that `weak_ptr`s and `shared_from_this` look at.
pub record State : Type 0 where
  pub running : Bool
  pub thread : Option Pc
  pub owner : Owner
  pub owned : ℕ
  pub strong : ℕ
  pub terminated : Bool
  pub cause : Cause

-- As `createServer` and `createClient` return it.
unfoldable pub init : State
init = record {
  running = false;
  thread = none;
  owner = owning;
  owned = 1;
  strong = 1;
  terminated = false;
  cause = nothing;
}

-- Where `careful` is true, the owner gives up its last reference only while no service thread runs.
pub data Step (careful : Bool) (s : State) : State → Type 0 where
  -- `startServiceThread`
  start_again : s.owner ≡ owning → s.running ≡ true → Step careful s s
  start :
      s.owner ≡ owning
      → s.running ≡ false
      → s.thread ≡ none
      → Step careful s (record s { running = true; thread = some testing })
  -- `serviceThreadLoop`: the test, and `service` without a CONNECT event
  enter :
      s.thread ≡ some testing
      → s.running ≡ true
      → Step careful s (record s { thread = some serving })
  leave :
      s.thread ≡ some testing
      → s.running ≡ false
      → Step careful s (record s { thread = some ended })
  quiet : s.thread ≡ some serving → Step careful s (record s { thread = some testing })
  connect : s.thread ≡ some serving → Step careful s (record s { thread = some connecting })
  -- `shared_from_this`: a new reference, or `bad_weak_ptr`, which leaves the function of the thread
  share :
      s.thread ≡ some connecting
      → 0 < s.strong
      → Step careful s (record s { thread = some sharing; strong = s.strong + 1 })
  expired :
      s.thread ≡ some connecting
      → s.strong ≡ 0
      → Step careful s (record s { terminated = true; cause = bad_weak_ptr })
  -- Another exception of `processEvent`, at this event or at any other
  escape :
      s.thread ≡ some serving → Step careful s (record s { terminated = true; cause = escaped })
  escape_sharing :
      s.thread ≡ some sharing → Step careful s (record s { terminated = true; cause = escaped })
  -- The end of that reference. Where it is the last one, the destructor runs on the service thread, whose
  -- `join` of itself throws out of the destructor.
  unshare :
      (k : ℕ)
      → s.thread ≡ some sharing
      → s.strong ≡ suc (suc k)
      → Step careful s (record s { thread = some testing; strong = s.strong - 1 })
  unshare_last :
      s.thread ≡ some sharing
      → s.strong ≡ 1
      → Step careful s (record s { strong = 0; terminated = true; cause = self_join })
  -- `stopServiceThread`
  stop_again : s.owner ≡ owning → s.running ≡ false → Step careful s s
  stop :
      s.owner ≡ owning
      → s.running ≡ true
      → Step careful s (record s { running = false; owner = stopping })
  join :
      s.owner ≡ stopping
      → s.thread ≡ some ended
      → Step careful s (record s { thread = none; owner = owning })
  -- a copy of a `shared_ptr`, and the end of one that is not the last of the owner
  copy : s.owner ≡ owning → Step careful s (record s { owned = s.owned + 1; strong = s.strong + 1 })
  drop :
      (k : ℕ)
      → s.owner ≡ owning
      → s.owned ≡ suc (suc k)
      → Step careful s (record s { owned = s.owned - 1; strong = s.strong - 1 })
  -- The last reference of the owner ends: while the service thread has one,
  give_up_shared :
      (k : ℕ)
      → s.owner ≡ owning
      → s.owned ≡ 1
      → s.strong ≡ suc (suc k)
      → (careful ≡ true → s.running ≡ false)
      → Step careful s (record s { owned = 0; strong = s.strong - 1; owner = gone })
  -- or as the last of all, so that the destructor runs on the thread of the owner: the service thread
  -- runs and is joined, there is none, or there is one that nobody has joined.
  give_up_running :
      s.owner ≡ owning
      → s.owned ≡ 1
      → s.strong ≡ 1
      → s.running ≡ true
      → careful ≡ false
      → Step careful s (record s { running = false; owned = 0; strong = 0; owner = closing })
  give_up_idle :
      s.owner ≡ owning
      → s.owned ≡ 1
      → s.strong ≡ 1
      → s.running ≡ false
      → s.thread ≡ none
      → Step careful s (record s { owned = 0; strong = 0; owner = closed })
  give_up_unjoined :
      (p : Pc)
      → s.owner ≡ owning
      → s.owned ≡ 1
      → s.strong ≡ 1
      → s.running ≡ false
      → s.thread ≡ some p
      → Step careful s (record s { owned = 0; strong = 0; terminated = true; cause = unjoined })
  join_closing :
      s.owner ≡ closing
      → s.thread ≡ some ended
      → Step careful s (record s { thread = none; owner = closed })

-- After `std::terminate` nothing runs.
pub data Steps (careful : Bool) (s : State) : State → Type 0 where
  here : Steps careful s s
  next :
      {t u : State}
      → Steps careful s t
      → t.terminated ≡ false
      → Step careful t u
      → Steps careful s u
