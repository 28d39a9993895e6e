-- ===== src/Host/Thread/Stop.antt =====
-- The service thread is joined before the host is reused or destroyed, and `stopServiceThread` returns.
use icelander.Prelude.{
  ℕ, ◌<◌, ◌≡◌, ◌≢◌, fault, Outcome, refl, ◌⊎◌, inl, inr, Option, none, some, Bool, true, false, ℤ,
  done, thrown, arith,
}
use icelander.Enet.{Enet}
use icelander.Dispatcher.{EventDispatcher}
use icelander.Host.Refs
use icelander.Host.Events.{service}
use icelander.Host.Thread.{
  Pc, testing, serving, ended, Control, idle, joining, closed, State, Step, Reach, init, here, next,
  start_again, start, start_over, enter, leave, serve, escape, stop_again, stop, join, join_nobody,
  closes,
}

-- Which thread there can be.
abbrev Fits : Control → Bool → Option Pc → Type 0
Fits idle true (some testing) = Unit {0}
Fits idle true (some serving) = Unit {0}
Fits idle false none = Unit {0}
Fits joining false (some p) = Unit {0}
Fits closed false none = Unit {0}
Fits _ _ _ = ⊥

-- How far the thread is from its end once `running` is false.
abbrev pub distance : Option Pc → ℕ
distance none = 0
distance (some ended) = 0
distance (some testing) = 1
distance (some serving) = 2

Fits-serving : (c : Control) (r : Bool) → Fits c r (some testing) → Fits c r (some serving)
Fits-serving idle true h = tt
Fits-serving joining false h = tt
Fits-serving idle false h = h
Fits-serving joining true h = h
Fits-serving closed true h = h
Fits-serving closed false h = h

Fits-testing : (c : Control) (r : Bool) → Fits c r (some serving) → Fits c r (some testing)
Fits-testing idle true h = tt
Fits-testing joining false h = tt
Fits-testing idle false h = h
Fits-testing joining true h = h
Fits-testing closed true h = h
Fits-testing closed false h = h

Fits-ended : (c : Control) → Fits c false (some testing) → Fits c false (some ended)
Fits-ended idle h = h
Fits-ended joining h = tt
Fits-ended closed h = h

Fits-joining : (p : Option Pc) → Fits idle true p → Fits joining false p
Fits-joining none h = h
Fits-joining (some p) h = tt

Fits-joined : (r : Bool) (p : Option Pc) → Fits joining r p → Fits idle r none
Fits-joined true p h = h
Fits-joined false p h = tt

Fits-nobody : (r : Bool) → Fits joining r none → Fits idle r none
Fits-nobody true h = h
Fits-nobody false h = tt

Fits-closed : (p : Option Pc) → Fits idle false p → Fits closed false p
Fits-closed none h = tt
Fits-closed (some p) h = h

-- No thread is left where the application may start one, or has destroyed the host.
Fits-none : (p : Option Pc) → Fits idle false p → p ≡ none
Fits-none none h = refl
Fits-none (some p) h = absurd h

closed_none : (r : Bool) (p : Option Pc) → Fits closed r p → p ≡ none
closed_none false none h = refl
closed_none false (some p) h = absurd h
closed_none true p h = absurd h

-- In `stopServiceThread` there is a thread, and it was told to end.
joining_some :
    (r : Bool) (p : Option Pc) → Fits joining r p → (r ≡ false) × ((q : Pc) × (p ≡ some q))
joining_some false none h = absurd h
joining_some false (some q) h = (refl, (q, refl))
joining_some true p h = absurd h

module _ {e : Enet} {A : Type 0} {d : EventDispatcher (Refs.State e A)} where
  abbrev IsFit : State e d → Type 0
  IsFit s = Fits s.control s.running s.thread

  Step-IsFit : {s t : State e d} → IsFit s → Step e d s t → IsFit t
  Step-IsFit {s} h (start_again c r) = h
  Step-IsFit {s} h (start c r f) = rw c tt
  Step-IsFit {s} h (start_over p c r f) = h
  Step-IsFit {s} h (enter f r) = Fits-serving s.control s.running (rw f at h)
  Step-IsFit {s} h (leave f r) = rw r (Fits-ended s.control (rw r at (rw f at h)))
  Step-IsFit {s} h (serve result k f v) = Fits-testing s.control s.running (rw f at h)
  Step-IsFit {s} h (escape x k f v) = h
  Step-IsFit {s} h (stop_again c r) = h
  Step-IsFit {s} h (stop c r) = Fits-joining s.thread (rw (c, r) at h)
  Step-IsFit {s} h (join c f) = Fits-joined s.running s.thread (rw c at h)
  Step-IsFit {s} h (join_nobody c f) = rw f (Fits-nobody s.running (rw f at (rw c at h)))
  Step-IsFit {s} h (closes c r) = rw r (Fits-closed s.thread (rw (c, r) at h))

  Reach-IsFit : {k : Refs.State e A} {s : State e d} → Reach e d k s → IsFit s
  unfolding init
  Reach-IsFit here = tt
  Reach-IsFit (next r live st) = Step-IsFit (Reach-IsFit r) st

  -- `startServiceThread` never drops a thread that was not joined, and the host is destroyed only
  -- once no thread serves it.
  pub thread_joined :
      {k : Refs.State e A} {s : State e d}
      → Reach e d k s
      → (s.control ≡ idle → s.running ≡ false → s.thread ≡ none)
        × (s.control ≡ closed → s.thread ≡ none)
  thread_joined {k} {s} r =
      let h = Reach-IsFit r in
      (λ c f. Fits-none s.thread (rw (c, f) at h), λ c. closed_none s.running s.thread (rw c at h))

  -- Some step inside `stopServiceThread`.
  progress :
      {s : State e d} (q : Pc)
      → s.control ≡ joining
      → s.running ≡ false
      → s.thread ≡ some q
      → service e d 10 s.host ≢ fault
      → (t : State e d) × Step e d s t
  progress {s} testing c r f fine = (_, leave f r)
  progress {s} serving c r f fine = go (service e d 10 s.host) refl
    where
      go :
          (o : Outcome (Refs.State e A) ℤ)
          → service e d 10 s.host ≡ o
          → (t : State e d) × Step e d s t
      go (done result h) v = (_, serve result h f v)
      go (thrown x h) v = (_, escape x h f v)
      go fault v = absurd (fine v)
  progress {s} ended c r f fine = (_, join c f)

  nearer :
      {s t : State e d}
      → s.control ≡ joining
      → s.running ≡ false
      → Step e d s t
      → (t.terminated ≡ true)
        ⊎ ((t.control ≡ idle) × (t.thread ≡ none))
        ⊎ ((t.control ≡ joining) × (distance t.thread < distance s.thread))
  nearer c r (start_again c' r') = absurd (ground arith)
  nearer c r (start c' r' f) = absurd (ground arith)
  nearer c r (start_over p c' r' f) = inl refl
  nearer c r (enter f r') = absurd (ground arith)
  nearer c r (leave f r') = inr (inr (c, rw f (omega arith)))
  nearer c r (serve result h f v) = inr (inr (c, rw f (omega arith)))
  nearer c r (escape x h f v) = inl refl
  nearer c r (stop_again c' r') = absurd (ground arith)
  nearer c r (stop c' r') = absurd (ground arith)
  nearer c r (join c' f) = inr (inl (refl, refl))
  nearer c r (join_nobody c' f) = inr (inl (refl, f))
  nearer c r (closes c' r') = absurd (ground arith)

  -- From any state inside `stopServiceThread` every step brings the thread nearer to its end or
  -- returns from the call, unless an exception of `service` terminates the program; and there is
  -- such a step, if `service` does not fault.
  pub stop_returns :
      {k : Refs.State e A} {s : State e d}
      → Reach e d k s
      → s.control ≡ joining
      → service e d 10 s.host ≢ fault
      → ((t : State e d) × Step e d s t)
        × ((t : State e d)
            → Step e d s t
            → (t.terminated ≡ true)
              ⊎ ((t.control ≡ idle) × (t.thread ≡ none))
              ⊎ ((t.control ≡ joining) × (distance t.thread < distance s.thread)))
  stop_returns {k} {s} r c fine =
      let (off, (q, there)) = joining_some s.running s.thread (rw c at (Reach-IsFit r)) in
      (progress q c off there fine, λ t st. nearer c off st)
