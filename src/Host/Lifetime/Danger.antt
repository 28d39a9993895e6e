-- ===== src/Host/Lifetime/Danger.antt =====
-- What can become of an owner that gives up its last reference while the service thread runs.
use icelander.Prelude.{
  ℕ, zero, suc, ◌+◌, ◌-◌, ◌<◌, ◌≡◌, refl, Option, none, some, Bool, true, false, arith,
}
use icelander.Host.Lifetime.{
  Pc, testing, serving, connecting, sharing, ended, owning, closing, State, Step, Steps, init, here,
  next, enter, connect, expired, bad_weak_ptr, unshare, drop, give_up_running,
}
use icelander.Host.Lifetime.Safety.{Steps-Inv, Fits, held}

Steps-append : {c : Bool} {s t u : State} → Steps c s t → Steps c t u → Steps c s u
Steps-append r here = r
Steps-append r (next q a st) = next (Steps-append r q) a st

abbrev Fatal : State → Type 0
Fatal s = (t : State) × Steps false s t × (t.terminated ≡ true) × (t.cause ≡ bad_weak_ptr)

and_ends : {s t : State} → s.terminated ≡ false → Step false s t → Fatal t → Fatal s
and_ends a st (u, r, e, c) = (u, Steps-append (next here a st) r, e, c)

-- The owner has one reference, and the thread stands at `p`.
record Alone (p : Option Pc) (s : State) : Type 0 where
  alive : s.terminated ≡ false
  owns : s.owner ≡ owning
  runs : s.running ≡ true
  single : s.owned ≡ 1
  counted : s.strong ≡ 1 + held p
  stands : s.thread ≡ p

at_connecting : (s : State) → Alone (some connecting) s → Fatal s
at_connecting s h =
    let u : State = record s { running = false; owned = 0; strong = 0; owner = closing } in
    and_ends h.alive (give_up_running h.owns h.single h.counted h.runs refl) (
      and_ends h.alive (expired h.stands refl)
        (record u { terminated = true; cause = bad_weak_ptr }, here, refl, refl))

at_serving : (s : State) → Alone (some serving) s → Fatal s
at_serving s h =
    and_ends h.alive (connect h.stands)
      (at_connecting (record s { thread = some connecting }) (ground arith))

at_testing : (s : State) → Alone (some testing) s → Fatal s
at_testing s h =
    and_ends h.alive (enter h.stands h.runs)
      (at_serving (record s { thread = some serving }) (ground arith))

at_sharing : (s : State) → Alone (some sharing) s → Fatal s
at_sharing s h =
    and_ends h.alive (unshare 0 h.stands h.counted)
      (at_testing (record s { thread = some testing; strong = s.strong - 1 }) (ground arith))

at_any : (p : Option Pc) (s : State) → Alone p s → Fits owning true p 1 → Fatal s
at_any (some testing) s h f = at_testing s h
at_any (some serving) s h f = at_serving s h
at_any (some connecting) s h f = at_connecting s h
at_any (some sharing) s h f = at_sharing s h
at_any (some ended) s h f = absurd f
at_any none s h f = absurd f

-- The other references of the owner go first.
after_drops :
    (k : ℕ) (s : State)
    → s.terminated ≡ false
    → s.owner ≡ owning
    → s.running ≡ true
    → s.owned ≡ suc k
    → s.strong ≡ s.owned + held s.thread
    → Fits owning true s.thread 1
    → Fatal s
after_drops zero s a o r n z f =
    at_any s.thread s
      (record {
        alive = a;
        owns = o;
        runs = r;
        single = n;
        counted = omega (arith, n, z);
        stands = refl;
      })
      f
after_drops (suc k) s a o r n z f = and_ends a (drop k o n) (
    after_drops k (record s { owned = s.owned - 1; strong = s.strong - 1 }) a o r (omega (arith, n))
      (omega (arith, n, z)) f)

Fits-one : (p : Option Pc) (n : ℕ) → Fits owning true p n → Fits owning true p 1 × (0 < n)
Fits-one p n f = ground arith

-- From every reachable state in which the owner has references and the service thread runs, the
-- program can end in `std::terminate`: the owner gives its references up, and a CONNECT event that the
-- service thread is given before it sees `serviceThreadRunning_` finds no host to share, so that
-- `shared_from_this` throws `bad_weak_ptr` out of the function of the thread.
pub give_up_terminates :
    {s : State}
    → Steps false init s
    → s.terminated ≡ false
    → s.owner ≡ owning
    → s.running ≡ true
    → (t : State) × Steps false s t × (t.terminated ≡ true) × (t.cause ≡ bad_weak_ptr)
give_up_terminates {s} q a o r =
    let i = Steps-Inv q in
    let f : Fits owning true s.thread s.owned = rw (← o) (rw (← r) (i.fits a)) in
    let (one, some_owned) = Fits-one s.thread s.owned f in
    after_drops (s.owned - 1) s a o r (omega (arith, some_owned)) (i.counted a) one
