-- ===== src/Host/Events.antt =====
-- `Host::processEvent` and `Host::service`: one event of ENet, from the native peer to the handlers.
use icelander.Prelude.{
  ℕ, ◌%◌, ◌^◌, [], ◌∷◌, ◌++◌, none, some, if◌then◌else◌, is_positive, ℤ, pos, done, thrown, fault,
  Exec, ◌>>=◌, ◌>>◌, pure,
}
use icelander.Types.{Endpoint, connect, disconnect, receive}
use icelander.Enet.{Enet, NativeEvent}
use icelander.Endpoint.{from_enet_address}
use icelander.Packet
use icelander.Peer
use icelander.Dispatcher.{EventDispatcher, dispatch_connect, dispatch_disconnect, dispatch_receive}
use icelander.Host.Refs.{State, make_peer, retain_ref, release_ref, on_world, finally}
use icelander.Host.Peers.{find_peer_by_native}

module _ (e : Enet) {A : Type 0} (d : EventDispatcher (State e A)) where
  -- `Endpoint::fromEnetAddress(event.peer->address)`
  unfoldable pub remote_of : ℕ → Exec (State e A) Endpoint
  remote_of native = on_world (Peer.deref e native >>= λ n. from_enet_address e n.address)

  -- The wrapper is held by the local variable and, from here on, by the event; both end with the
  -- block.
  unfoldable pub process_connect : NativeEvent → Exec (State e A) (Unit {0})
  unfolding make_peer retain_ref release_ref
  process_connect v s =
      let (i, made) = make_peer v.peer s in
      let listed = record made { peers = made.peers ++ i ∷ [] } in
      finally (λ t. release_ref i (release_ref i t))
        (do
          remote ← remote_of v.peer
          dispatch_connect d
              (record { peer_handle = i; remote_endpoint = remote; payload = v.payload }))
        (retain_ref i listed)

  unfoldable pub process_disconnect : NativeEvent → Exec (State e A) (Unit {0})
  unfolding retain_ref release_ref
  process_disconnect v s =
      let (found, s') = find_peer_by_native v.peer s in
      elim found [
        | none ↦ done tt s'
        | some i ↦
            finally (λ t. release_ref i (release_ref i t))
              (do
                remote ← remote_of v.peer
                dispatch_disconnect d
                    (record { peer_handle = i; remote_endpoint = remote; payload = v.payload }))
              (retain_ref i s')
      ]

  -- The event owns the packet, and destroys it at the end of the block.
  unfoldable pub process_receive : NativeEvent → Exec (State e A) (Unit {0})
  unfolding retain_ref release_ref
  process_receive v s =
      let (found, s') = find_peer_by_native v.peer s in
      elim found [
        | none ↦ done tt s'
        | some i ↦ elim v.packet [
          | none ↦ done tt (release_ref i s')
          | some a ↦
              elim (dispatch_receive d
                (record {
                  peer_handle = i;
                  packet_data = Packet.from_native (some a);
                  channel = v.channel_id;
                })
                (retain_ref i s')) [
                  | done _ t ↦
                      (do
                        on_world (Packet.free e a)
                        λ u. done tt (release_ref i (release_ref i u)))
                        t
                  | thrown x t ↦
                      (do
                        on_world (Packet.free e a)
                        λ u. thrown x (release_ref i (release_ref i u)))
                        t
                  | fault ↦ fault
                ]
        ]
      ]

  -- `dispatcher_` is made by the constructor and never null.
  unfoldable pub process_event : NativeEvent → Exec (State e A) (Unit {0})
  unfolding process_connect process_disconnect process_receive
  process_event v s = elim v.kind [
    | connect ↦ process_connect v s
    | disconnect ↦ process_disconnect v s
    | receive ↦ process_receive v s
    | _ ↦ done tt s
  ]

  -- The cast to uint32_t keeps the timeout modulo 2 ^ 32.
  unfoldable pub service : ℕ → Exec (State e A) ℤ
  unfolding process_event
  service timeout s = elim s.native_host [
    | none ↦ done (pos 0) s
    | some h ↦
        let (result, v, w) = e.host_service h (timeout % 2 ^ 32) s.world in
        (if is_positive result then (process_event v >> pure result) else pure result)
          (record s { world = w })
  ]
