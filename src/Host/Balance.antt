-- ===== src/Host/Balance.antt =====
-- The references that the host itself takes while it handles an event: all of them are given back.
use icelander.Prelude.{
  ℕ, ◌≤◌, ◌≡◌, refl, some, get_elem?, ap, ◌∙◌, fun_ext, inl, inr, ◌⊎◌, none, some, ◌==◌, length,
  arith, Bool-cases, Option-cases, Outcome, done, thrown, fault, Exec, Leaves, Leaves-mono,
  >>=-Leaves,
}
use icelander.Types.{EventType, Endpoint}
use icelander.Enet.{Enet, NativeEvent, NativePeer}
use icelander.Dispatcher.{
  EventDispatcher, ConnectEvent, DisconnectEvent, dispatch_connect, dispatch_disconnect,
  dispatch_receive,
}
use icelander.Peer.{Peer}
use icelander.Host.Refs.{State, retain, release, retain_ref, release_ref}
use icelander.Host.Peers.{first_native, find_peer_by_native}
use icelander.Host.Events.{
  remote_of, process_connect, process_disconnect, process_receive, process_event,
}
use icelander.Host.Lookup.{live_of, find_peer_by_native_lem}
use icelander.Host.Unchanged.{Unchanged, Unchanged-trans, finally-Leaves, remote_of-Unchanged}
use icelander.Host.Delivery.{Forgotten, process_connect-Forgotten}
use icelander.Host.Lookup.First.{first_native-IsFirst}
use icelander.Host.Handled.{IsLive, settled, received, handlers_of, process_receive_handled}

release-retain : (i : ℕ) (strong : ℕ → ℕ) → release i (retain i strong) ≡ strong
unfolding release retain
release-retain i strong = fun_ext λ j. ground arith

release-retain_twice :
    (i : ℕ) (strong strong' : ℕ → ℕ)
    → strong' ≡ retain i (retain i strong)
    → release i (release i strong') ≡ strong
release-retain_twice i strong strong' h =
    rw (h, release-retain i (retain i strong), release-retain i strong) refl

find_cases :
    {e : Enet} {A : Type 0} (native : ℕ) (s : State e A)
    → let live = live_of s.strong s.peers in
      (find_peer_by_native native s ≡ (none, record s { peers = live }))
      ⊎ ((i : ℕ) × (first_native s.objects native live ≡ some i)
          × (find_peer_by_native native s
              ≡ (some i, record s { peers = live; strong = retain i s.strong })))
find_cases native s =
    elim (Option-cases (first_native s.objects native (live_of s.strong s.peers))) [
      | inl missing ↦ inl (find_peer_by_native_lem native s ∙ rw missing refl)
      | inr (i, hit) ↦ inr (i, hit, find_peer_by_native_lem native s ∙ rw hit refl)
    ]

module _ (e : Enet) {A : Type 0} (d : EventDispatcher (State e A)) where
  -- Handlers that, given an object that is there, and given a live packet, neither fault, nor keep or
  -- drop a reference to a peer, nor change the lists of the host, and that leave the packet live.
  pub record Gentle : Type 0 where
    pub connects :
        (v : ConnectEvent) (p : Peer) (s : State e A)
        → get_elem? s.objects v.peer_handle ≡ some p
        → Leaves (Unchanged s) (dispatch_connect d v s)
    pub disconnects :
        (v : DisconnectEvent) (p : Peer) (s : State e A)
        → get_elem? s.objects v.peer_handle ≡ some p
        → Leaves (Unchanged s) (dispatch_disconnect d v s)
    pub receives :
        (i a channel : ℕ) (p : Peer) (s : State e A)
        → get_elem? s.objects i ≡ some p
        → IsLive e a s
        → Leaves
            (λ t. Unchanged s t × IsLive e a t)
            (dispatch_receive d
              (record {
                peer_handle = i;
                packet_data = some (record { native = some a });
                channel = channel;
              })
              s)

  object_there :
      (native i : ℕ) (s : State e A)
      → first_native s.objects native (live_of s.strong s.peers) ≡ some i
      → (p : Peer) × (get_elem? s.objects i ≡ some p)
  object_there native i s hit =
      let (pre, post, q, (p, there, same), before) =
        rw hit at (first_native-IsFirst s.objects native (live_of s.strong s.peers)) in
      (p, there)

  -- What ENet promises of an event: its peer exists, and so does its packet, if it has one.
  pub record IsEvent (v : NativeEvent) (s : State e A) : Type 0 where
    pub peer_there : (n : NativePeer) × (e.peer_at s.world v.peer ≡ some n)
    pub packet_there : (a : ℕ) → v.packet ≡ some a → IsLive e a s

  abbrev Same : State e A → State e A → Type 0
  Same s t = t.strong ≡ s.strong

  process_connect-Same :
      (v : NativeEvent) (s : State e A)
      → Gentle
      → IsEvent v s
      → ((j : ℕ) → length s.objects ≤ j → s.strong j ≡ 0)
      → Leaves (Same s) (process_connect e d v s)
  process_connect-Same v s g h spare =
      let (n, alive) = h.peer_there in
      Leaves-mono (Forgotten e d v.peer s) (Same s) _
        (process_connect-Forgotten e d v n s (λ c p u there. g.connects c p u there) alive)
        (λ t f. fun_ext λ j. elim (Bool-cases (j == length s.objects)) [
          | inl new ↦ ground (arith, f.gone, spare j)
          | inr old ↦ f.kept j (λ q. ground arith)
        ])

  process_disconnect-Same :
      (v : NativeEvent) (s : State e A)
      → Gentle
      → IsEvent v s
      → Leaves (Same s) (process_disconnect e d v s)
  unfolding process_disconnect retain_ref release_ref
  process_disconnect-Same v s g h = elim (find_cases v.peer s) [
    | inl missing ↦ rw (ap (λ r. r.0) missing, process_disconnect) (rw missing refl)
    | inr (i, hit, found) ↦
        let (p, there) = object_there v.peer i s hit in
        let called : State e A = record s {
          peers = live_of s.strong s.peers;
          strong = retain i (retain i s.strong);
        } in
        let report : Endpoint → Exec (State e A) (Unit {0}) = λ r.
          dispatch_disconnect d
            (record { peer_handle = i; remote_endpoint = r; payload = v.payload }) in
        rw (ap (λ r. r.0) found, process_disconnect)
          (rw found (
            finally-Leaves (Unchanged called) (Same s) _ _ called
              (>>=-Leaves (remote_of e d v.peer) report called (Unchanged called) (Unchanged called)
                (remote_of-Unchanged e d v.peer h.peer_there.0 called h.peer_there.1) (λ t u. u)
                λ r t u.
                  Leaves-mono (Unchanged t) (Unchanged called) _
                    (g.disconnects _ p t (rw u.same_objects there)) (λ t' u'. Unchanged-trans u u'))
              λ t u. release-retain_twice i s.strong t.strong u.same_strong))
  ]

  settled-Same :
      (a i : ℕ) (s : State e A) (o : Outcome (State e A) (Unit {0}))
      → Leaves (λ t. Unchanged (received e d i s) t × IsLive e a t) o
      → Leaves (Same s) (settled e a i o)
  settled-Same a i s (done _ t) u = release-retain_twice i s.strong t.strong u.0.same_strong
  settled-Same a i s (thrown x t) u = release-retain_twice i s.strong t.strong u.0.same_strong
  settled-Same a i s fault u = u

  process_receive-Same :
      (v : NativeEvent) (s : State e A)
      → Gentle
      → IsEvent v s
      → Leaves (Same s) (process_receive e d v s)
  unfolding process_receive release_ref
  process_receive-Same v s g h = elim (find_cases v.peer s) [
    | inl missing ↦ rw (ap (λ r. r.0) missing, process_receive) (rw missing refl)
    | inr (i, hit, found) ↦ elim (Option-cases v.packet) [
      | inl empty ↦
          rw (ap (λ r. r.0) found, process_receive)
            (rw empty (rw found (release-retain i s.strong)))
      | inr (a, full) ↦
          let (p, there) = object_there v.peer i s hit in
          let kept =
            g.receives i a v.channel_id p (received e d i s) there (h.packet_there a full) in
          rw
            (process_receive_handled e d v a i s full hit
              (Leaves-mono _ (IsLive e a) _ kept (λ t u. u.1)))
            (settled-Same a i s (handlers_of e d v a i (received e d i s)) kept)
    ]
  ]

  -- Handling an event leaves every reference count as it was, by a return or by an exception, if the
  -- handlers, given an object that is there and a live packet, do not fault, neither keep nor drop a
  -- reference to a peer, leave the lists of the host as they are and the packet live; the peer and the
  -- packet of the event exist, and an object yet to be made has no references.
  pub process_event_balanced :
      (v : NativeEvent) (s : State e A)
      → Gentle
      → IsEvent v s
      → ((j : ℕ) → length s.objects ≤ j → s.strong j ≡ 0)
      → Leaves (λ t. t.strong ≡ s.strong) (process_event e d v s)
  unfolding process_event
  process_event_balanced v s g h spare = go v.kind
    where
      go :
          (k : EventType)
          → Leaves
              (λ t. t.strong ≡ s.strong)
              (elim k as (λ _. Outcome (State e A) (Unit {0})) [
                | EventType.connect ↦ process_connect e d v s
                | EventType.disconnect ↦ process_disconnect e d v s
                | EventType.receive ↦ process_receive e d v s
                | _ ↦ done tt s
              ])
      go EventType.none = refl
      go EventType.connect = process_connect-Same v s g h spare
      go EventType.disconnect = process_disconnect-Same v s g h
      go EventType.receive = process_receive-Same v s g h
