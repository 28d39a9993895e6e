-- ===== src/Host/Unheard.antt =====
-- A host whose application holds no Peer object: which handlers its events can reach.
use icelander.Prelude.{
  ℕ, ◌≡◌, refl, sym, ap, ◌∙◌, inl, inr, List, [], ◌∷◌, ◌++◌, update, none, some, length, ◌==◌,
  Bool-cases, Option-cases, arith, Outcome, done, thrown, fault, Exec, ◌>>=◌, ◌>>◌, Leaves,
}
use icelander.Types.{EventType, connect, disconnect, receive}
use icelander.Enet.{Enet, NativeEvent}
use icelander.Peer
use icelander.Dispatcher.{EventDispatcher, dispatch_connect}
use icelander.Host.Refs.{State, retain, make_peer, retain_ref, on_world, finally}
use icelander.Host.Peers.{first_native, find_peer_by_native}
use icelander.Host.Events.{
  remote_of, process_connect, process_disconnect, process_receive, process_event,
}
use icelander.Host.Lookup.{live_of, find_peer_by_native_lem}
use icelander.Host.Delivery.{
  process_all, KeepsNothing, Forgotten, process_connect-Forgotten, process_event-connect,
}

-- The dispatcher with its connect handlers alone.
abbrev pub connect_only : {S : Type 0} → EventDispatcher S → EventDispatcher S
connect_only d = record d { disconnect_handlers = []; receive_handlers = []; channel_handlers = [] }

live_of_none : (strong : ℕ → ℕ) (is : List ℕ) → ((j : ℕ) → strong j ≡ 0) → live_of strong is ≡ []
live_of_none strong [] h = refl
live_of_none strong (i ∷ is) h = rw (h i) (live_of_none strong is h)

module _ (e : Enet) {A : Type 0} (d : EventDispatcher (State e A)) where
  -- No object has a reference.
  abbrev pub NoneHeld : State e A → Type 0
  NoneHeld s = (j : ℕ) → s.strong j ≡ 0

  nobody_found :
      (native : ℕ) (s : State e A)
      → NoneHeld s
      → find_peer_by_native native s ≡ (none, record s { peers = [] })
  unfolding first_native
  nobody_found native s none_held =
      find_peer_by_native_lem native s ∙ rw (live_of_none s.strong s.peers none_held) refl

  process_connect-connect_only :
      (v : NativeEvent) (s : State e A)
      → process_connect e (connect_only d) v s ≡ process_connect e d v s
  unfolding process_connect remote_of dispatch_connect
  process_connect-connect_only v s = refl

  still_none : (native : ℕ) (s t : State e A) → NoneHeld s → Forgotten e d native s t → NoneHeld t
  still_none native s t none_held f j = elim (Bool-cases (j == length s.objects)) [
    | inl same ↦ ground (arith, f.gone)
    | inr other ↦ f.kept j (λ q. ground (arith, q)) ∙ none_held j
  ]

  disconnect_unheard :
      (v : NativeEvent) (s : State e A)
      → v.kind ≡ disconnect
      → NoneHeld s
      → process_event e d v s ≡ done tt (record s { peers = [] })
  unfolding process_event process_disconnect
  disconnect_unheard v s k none_held =
      let f = nobody_found v.peer s none_held in
      rw (k, process_event) (rw (ap (λ r. r.0) f, process_disconnect) (rw (ap (λ r. r.1) f) refl))

  receive_unheard :
      (v : NativeEvent) (s : State e A)
      → v.kind ≡ receive
      → NoneHeld s
      → process_event e d v s ≡ done tt (record s { peers = [] })
  unfolding process_event process_receive
  receive_unheard v s k none_held =
      let f = nobody_found v.peer s none_held in
      rw (k, process_event) (rw (ap (λ r. r.0) f, process_receive) (rw (ap (λ r. r.1) f) refl))

  remote_gone :
      (native : ℕ) (s : State e A)
      → e.peer_at s.world native ≡ none
      → remote_of e d native s ≡ fault
  unfolding remote_of Peer.deref on_world
  remote_gone native s gone = rw (gone, ◌>>=◌, Peer.deref, on_world) refl

  gone_peer :
      (v : NativeEvent) (s : State e A)
      → e.peer_at s.world v.peer ≡ none
      → process_connect e d v s ≡ fault
  unfolding process_connect finally make_peer retain_ref
  gone_peer v s gone =
      rw
        (
          remote_gone v.peer
              (record s {
                peers = s.peers ++ length s.objects ∷ [];
                objects = s.objects ++ Peer.new (some v.peer) s.native_host ∷ [];
                strong = retain (length s.objects) (update s.strong (length s.objects) 1);
              })
              gone,
          ◌>>=◌,
          finally,
        )
        refl

module _ (e : Enet) {A : Type 0} (d : EventDispatcher (State e A)) where
  -- No object has a reference if the call returns.
  abbrev Quiet : Outcome (State e A) (Unit {0}) → Type 0
  Quiet (done _ t) = NoneHeld e d t
  Quiet (thrown _ t) = Unit {0}
  Quiet fault = Unit {0}

  Leaves-Quiet :
      (o : Outcome (State e A) (Unit {0})) (P : State e A → Type 0)
      → Leaves P o
      → ((t : State e A) → P t → NoneHeld e d t)
      → Quiet o
  Leaves-Quiet (done _ t) P h f = f t h
  Leaves-Quiet (thrown _ t) P h f = tt
  Leaves-Quiet fault P h f = tt

  connect-Quiet :
      (v : NativeEvent) (s : State e A)
      → KeepsNothing e d
      → NoneHeld e d s
      → Quiet (process_connect e d v s)
  connect-Quiet v s quiet none_held = elim (Option-cases (e.peer_at s.world v.peer)) [
    | inl gone ↦ rw (gone_peer e d v s gone) tt
    | inr (n, alive) ↦
        Leaves-Quiet (process_connect e d v s) (Forgotten e d v.peer s)
          (process_connect-Forgotten e d v n s quiet alive)
          (λ t f. still_none e d v.peer s t none_held f)
  ]

  -- One event: the other handlers make no difference, and there is still no reference afterwards.
  event_unheard :
      (v : NativeEvent) (s : State e A)
      → KeepsNothing e d
      → NoneHeld e d s
      → (k : EventType) → v.kind ≡ k
      → (process_event e (connect_only d) v s ≡ process_event e d v s)
        × Quiet (process_event e d v s)
  unfolding process_event
  event_unheard v s quiet none_held connect q = (
    process_event-connect e (connect_only d) v s q
        ∙ process_connect-connect_only e d v s
        ∙ sym (process_event-connect e d v s q),
    rw (process_event-connect e d v s q) (connect-Quiet v s quiet none_held),
  )
  event_unheard v s quiet none_held disconnect q = (
    disconnect_unheard e (connect_only d) v s q none_held
        ∙ sym (disconnect_unheard e d v s q none_held),
    rw (disconnect_unheard e d v s q none_held) none_held,
  )
  event_unheard v s quiet none_held receive q = (
    receive_unheard e (connect_only d) v s q none_held ∙ sym (receive_unheard e d v s q none_held),
    rw (receive_unheard e d v s q none_held) none_held,
  )
  event_unheard v s quiet none_held EventType.none q =
      (rw (q, process_event) refl, rw (q, process_event) none_held)

  then_equal :
      (m m' f g : Exec (State e A) (Unit {0})) (s : State e A)
      → m s ≡ m' s
      → Quiet (m' s)
      → ((t : State e A) → NoneHeld e d t → f t ≡ g t)
      → (m >> f) s ≡ (m' >> g) s
  then_equal m m' f g s same quiet h = ap (after f) same ∙ go (m' s) quiet
    where
      after :
          Exec (State e A) (Unit {0})
          → Outcome (State e A) (Unit {0})
          → Outcome (State e A) (Unit {0})
      after k o = elim o [ done a t ↦ k t | thrown x t ↦ thrown x t | fault ↦ fault ]

      go : (o : Outcome (State e A) (Unit {0})) → Quiet o → after f o ≡ after g o
      go (done a t) q = h t q
      go (thrown x t) q = refl
      go fault q = refl

  -- Where no object has a reference at first, and the connect handlers keep none, any sequence of
  -- events ends the same as with a dispatcher that has the connect handlers alone: the others
  -- are never called.
  pub handlers_unheard :
      (vs : List NativeEvent) (s : State e A)
      → KeepsNothing e d
      → ((j : ℕ) → s.strong j ≡ 0)
      → process_all e (connect_only d) vs s ≡ process_all e d vs s
  handlers_unheard [] s quiet none_held = refl
  handlers_unheard (v ∷ vs) s quiet none_held =
      let (same, still) = event_unheard v s quiet none_held v.kind refl in
      then_equal (process_event e (connect_only d) v) (process_event e d v)
        (process_all e (connect_only d) vs) (process_all e d vs) s same still
        (λ t h. handlers_unheard vs t quiet h)
