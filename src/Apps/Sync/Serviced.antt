-- ===== src/Apps/Sync/Serviced.antt =====
-- `service` keeps what the handlers of its dispatcher and the calls of ENet keep.
use icelander.Prelude.{
  ℕ, ◌≡◌, ◌%◌, ◌^◌, refl, Option, Outcome, done, thrown, fault, Exec, ◌>>=◌, ◌>>◌, pure,
  is_positive, Option-cases, Bool-cases, inl, inr,
}
use icelander.Types.{EventType, connect, disconnect, receive}
use icelander.Enet.{Enet, NativeEvent}
use icelander.Endpoint.{from_enet_address}
use icelander.Packet
use icelander.Peer
use icelander.Dispatcher.{
  ConnectEvent, DisconnectEvent, ReceiveEvent, EventDispatcher, dispatch_connect,
  dispatch_disconnect, dispatch_receive,
}
use icelander.Host.Refs.{State, release_ref, on_world, finally}
use icelander.Host.Peers.{find_peer_by_native, first_native, get_peers}
use icelander.Host.Events.{
  remote_of, process_connect, process_disconnect, process_receive, process_event, service,
}
use icelander.Apps.Sync.Kept.{
  Keeps, Holds, >>=-Keeps, IsKept, free-Keeps, from_enet_address-Keeps, on_world-Keeps,
}

finally-Keeps :
    {e : Enet} {A : Type 0} (I : e.World → Type 0) (native : Option ℕ)
    (clean : State e A → State e A) (m : Exec (State e A) (Unit {0})) (s : State e A)
    → Keeps (Holds I native) (m s)
    → ((t : State e A) → Holds I native t → Holds I native (clean t))
    → Keeps (Holds I native) (finally clean m s)
unfolding finally
finally-Keeps {e} {A} I native clean m s h k = go (m s) h
  where
    go :
        (o : Outcome (State e A) (Unit {0}))
        → Keeps (Holds I native) o
        → Keeps {W = State e A} (Holds I native) (elim o as (λ _. Outcome (State e A) (Unit {0})) [
          | done b t ↦ done b (clean t)
          | thrown x t ↦ thrown x (clean t)
          | fault ↦ fault
        ])
    go (done b t) p = k t p
    go (thrown x t) p = k t p
    go fault p = tt

find_peer_by_native-Holds :
    {e : Enet} {A : Type 0} (I : e.World → Type 0) (native : Option ℕ) (peer : ℕ) (s : State e A)
    → Holds I native s
    → Holds I native (find_peer_by_native peer s).1
unfolding find_peer_by_native get_peers
find_peer_by_native-Holds I native peer s h =
    elim (Option-cases (first_native (get_peers s).1.objects peer (get_peers s).0)) [
      | inl nobody ↦ rw (nobody, find_peer_by_native) h
      | inr (i, found) ↦ rw (found, find_peer_by_native) h
    ]

module _ (e : Enet) (I : e.World → Type 0) (kept : IsKept e I) (native : Option ℕ)
    {A : Type 0} where
  -- The handlers keep it.
  pub record AllKeep (d : EventDispatcher (State e A)) : Type 0 where
    pub on_connect :
        (v : ConnectEvent) (s : State e A)
        → Holds I native s
        → Keeps (Holds I native) (dispatch_connect d v s)
    pub on_disconnect :
        (v : DisconnectEvent) (s : State e A)
        → Holds I native s
        → Keeps (Holds I native) (dispatch_disconnect d v s)
    pub on_receive :
        (v : ReceiveEvent) (s : State e A)
        → Holds I native s
        → Keeps (Holds I native) (dispatch_receive d v s)

  module _ (d : EventDispatcher (State e A)) (handlers : AllKeep d) where
    remote_of-Keeps :
        (peer : ℕ) (s : State e A)
        → Holds I native s
        → Keeps (Holds I native) (remote_of e d peer s)
    unfolding remote_of Peer.deref
    remote_of-Keeps peer s i =
        on_world-Keeps e I kept native (Peer.deref e peer >>= λ n. from_enet_address e n.address) s
          i.1
          (elim (Option-cases (e.peer_at s.world peer)) [
            | inl gone ↦ rw (gone, ◌>>=◌, Peer.deref) tt
            | inr (n, there) ↦
                rw (there, ◌>>=◌, Peer.deref)
                  (from_enet_address-Keeps e I kept n.address s.world i.0)
          ])

    connect-Keeps :
        (v : NativeEvent) (s : State e A)
        → Holds I native s
        → Keeps (Holds I native) (process_connect e d v s)
    unfolding process_connect
    connect-Keeps v s i =
        finally-Keeps I native _ _ _
          (>>=-Keeps (Holds I native) (remote_of e d v.peer) _ _ (remote_of-Keeps v.peer _ i)
            (λ a u h. handlers.on_connect _ u h))
          (λ t h. h)

    disconnect-Keeps :
        (v : NativeEvent) (s : State e A)
        → Holds I native s
        → Keeps (Holds I native) (process_disconnect e d v s)
    unfolding process_disconnect
    disconnect-Keeps v s i =
        let there = find_peer_by_native-Holds I native v.peer s i in
        elim (Option-cases (find_peer_by_native v.peer s).0) [
          | inl nobody ↦ rw (nobody, process_disconnect) there
          | inr (j, found) ↦
              rw (found, process_disconnect)
                (finally-Keeps I native _ _ _
                  (>>=-Keeps (Holds I native) (remote_of e d v.peer) _ _
                    (remote_of-Keeps v.peer _ there) (λ a u h. handlers.on_disconnect _ u h))
                  (λ t h. h))
        ]

    -- The packet of an event is destroyed whichever way the handlers leave.
    received-Keeps :
        (a j : ℕ) (o : Outcome (State e A) (Unit {0}))
        → Keeps (Holds I native) o
        → Keeps {W = State e A} (Holds I native) (elim o as (λ _. Outcome (State e A) (Unit {0})) [
          | done _ t ↦
              (do on_world (Packet.free e a); λ u. done tt (release_ref j (release_ref j u))) t
          | thrown x t ↦
              (do on_world (Packet.free e a); λ u. thrown x (release_ref j (release_ref j u))) t
          | fault ↦ fault
        ])
    unfolding release_ref
    received-Keeps a j (done _ t) h =
        >>=-Keeps (Holds I native) (on_world (Packet.free e a)) _ t
          (on_world-Keeps e I kept native (Packet.free e a) t h.1
            (free-Keeps e I kept a t.world h.0))
          (λ _ u k. k)
    received-Keeps a j (thrown x t) h =
        >>=-Keeps (Holds I native) (on_world (Packet.free e a)) _ t
          (on_world-Keeps e I kept native (Packet.free e a) t h.1
            (free-Keeps e I kept a t.world h.0))
          (λ _ u k. k)
    received-Keeps a j fault h = tt

    receive-Keeps :
        (v : NativeEvent) (s : State e A)
        → Holds I native s
        → Keeps (Holds I native) (process_receive e d v s)
    unfolding process_receive
    receive-Keeps v s i =
        let there = find_peer_by_native-Holds I native v.peer s i in
        elim (Option-cases (find_peer_by_native v.peer s).0) [
          | inl nobody ↦ rw (nobody, process_receive) there
          | inr (j, found) ↦ elim (Option-cases v.packet) [
            | inl empty ↦ rw (found, process_receive) (rw (empty) there)
            | inr (a, full) ↦
                rw (found, process_receive)
                  (rw (full) (received-Keeps a j _ (handlers.on_receive _ _ there)))
          ]
        ]

    event-Keeps :
        (v : NativeEvent) (s : State e A)
        → Holds I native s
        → Keeps (Holds I native) (process_event e d v s)
    unfolding process_event
    event-Keeps v s i = by_kind v.kind refl
      where
        by_kind : (k : EventType) → v.kind ≡ k → Keeps (Holds I native) (process_event e d v s)
        by_kind connect q = rw (q, process_event) (connect-Keeps v s i)
        by_kind disconnect q = rw (q, process_event) (disconnect-Keeps v s i)
        by_kind receive q = rw (q, process_event) (receive-Keeps v s i)
        by_kind EventType.none q = rw (q, process_event) i

    pub service-Keeps :
        (timeout : ℕ) (s : State e A)
        → Holds I native s
        → Keeps (Holds I native) (service e d timeout s)
    unfolding service
    service-Keeps timeout s i = elim (Option-cases s.native_host) [
      | inl null ↦ rw (null, service) i
      | inr (h, there_is) ↦
          let w = (e.host_service h (timeout % 2 ^ 32) s.world).2 in
          let v = (e.host_service h (timeout % 2 ^ 32) s.world).1 in
          let r = (e.host_service h (timeout % 2 ^ 32) s.world).0 in
          let there : Holds I native (record s { world = w }) =
            (kept.serviced h (timeout % 2 ^ 32) s.world i.0, i.1) in
          elim (Bool-cases (is_positive (e.host_service h (timeout % 2 ^ 32) s.world).0)) [
            | inl some_event ↦
                rw (there_is, service)
                  (rw some_event (
                    >>=-Keeps (Holds I native) (process_event e d v) (λ _. pure r)
                      (record s { world = w }) (event-Keeps v (record s { world = w }) there)
                      (λ _ u k. k)))
            | inr no_event ↦ rw (there_is, service) (rw no_event there)
          ]
    ]
