-- ===== src/Apps/Sync/Handled.antt =====
-- The handlers of examples/basic/sync_example.cpp keep what the calls of ENet keep.
use icelander.Prelude.{
  ℕ, List, [], ◌∷◌, ◌++◌, Option, none, some, Exec, ◌>>=◌, ◌>>◌, pure, Option-cases, inl, inr,
  get_elem?,
}
use icelander.Types.{PacketFlag}
use icelander.Enet.{Enet}
use icelander.Reader
use icelander.Packet
use icelander.Packet.{Packet}
use icelander.Peer
use icelander.Peer.{Peer}
use icelander.Dispatcher
use icelander.Dispatcher.{
  ConnectEvent, DisconnectEvent, ReceiveEvent, EventDispatcher, dispatch_connect,
  dispatch_disconnect, dispatch_receive,
}
use icelander.Host.Refs.{on_world}
use icelander.Apps.Handlers.{send_to, open_reader}
use icelander.Apps.Sync
use icelander.Apps.Sync.{SyncState}
use icelander.Apps.Sync.Kept.{
  Keeps, Holds, >>=-Keeps, IsKept, create-Keeps, send-Keeps, reader-Keeps, on_world-Keeps,
}
use icelander.Apps.Sync.Serviced.{AllKeep}

module _ (e : Enet) (I : e.World → Type 0) (kept : IsKept e I) (native : Option ℕ) where
  send_to-Keeps :
      (i : ℕ) (pkt : Packet) (s : SyncState e)
      → Holds I native s
      → Keeps (Holds I native) (send_to e i pkt s)
  unfolding send_to
  send_to-Keeps i pkt s h = elim (Option-cases (get_elem? s.objects i)) [
    | inl nobody ↦ rw (nobody, ◌>>=◌) tt
    | inr (p, there) ↦
        rw (there, ◌>>=◌)
          (>>=-Keeps (Holds I native) (on_world (Peer.send e (some pkt) p)) (λ _. pure tt) s
            (on_world-Keeps e I kept native (Peer.send e (some pkt) p) s h.1
              (send-Keeps e I kept pkt p s.world h.0))
            (λ _ u k. k))
  ]

  greet-Keeps :
      (i : ℕ) (greeting : List ℕ) (s : SyncState e)
      → Holds I native s
      → Keeps (Holds I native) (Sync.greet e i greeting s)
  unfolding Sync.greet
  greet-Keeps i greeting s h =
      >>=-Keeps (Holds I native)
        (on_world (Packet.create e greeting (e.flag_value PacketFlag.reliable))) (send_to e i) s
        (on_world-Keeps e I kept native _ s h.1
          (create-Keeps e I kept greeting (e.flag_value PacketFlag.reliable) s.world h.0))
        (λ pkt u k. send_to-Keeps i pkt u k)

  open_reader-Keeps :
      (pkt : Option Packet) (s : SyncState e)
      → Holds I native s
      → Keeps (Holds I native) (open_reader e pkt s)
  unfolding open_reader
  open_reader-Keeps none s h = tt
  open_reader-Keeps (some pkt) s h =
      on_world-Keeps e I kept native (Packet.reader e pkt) s h.1
        (reader-Keeps e I kept pkt s.world h.0)

  then_pure :
      (m : Exec (SyncState e) (Unit {0})) (s : SyncState e)
      → Keeps (Holds I native) (m s)
      → Keeps (Holds I native) ((m >> pure tt) s)
  then_pure m s h = >>=-Keeps (Holds I native) m (λ _. pure tt) s h (λ _ u k. k)

  pub server-AllKeep : AllKeep e I kept native (Sync.server_dispatcher e)
  unfolding Sync.server_dispatcher Sync.on_connect_server Sync.on_receive_server Sync.print
      dispatch_connect dispatch_disconnect dispatch_receive Dispatcher.on_receive
      Dispatcher.on_connect Dispatcher.new Dispatcher.call_all Dispatcher.find
  server-AllKeep = record {
    on_connect = λ v s h. then_pure (Sync.on_connect_server e v) s (
        greet-Keeps v.peer_handle Sync.server_greeting
          (record s { app = s.app ++ Sync.server_connected ∷ [] }) h);
    on_disconnect = λ v s h. h;
    on_receive = λ v s h. then_pure (Sync.on_receive_server e v >> pure tt) s (
        then_pure (Sync.on_receive_server e v) s (
          >>=-Keeps (Holds I native) (open_reader e v.packet_data) _ s
            (open_reader-Keeps v.packet_data s h) (λ r u k. k)));
  }

  pub client-AllKeep : AllKeep e I kept native (Sync.client_dispatcher e)
  unfolding Sync.client_dispatcher Sync.on_connect_client Sync.on_receive_client Sync.print
      dispatch_connect dispatch_disconnect dispatch_receive Dispatcher.on_receive
      Dispatcher.on_connect Dispatcher.new Dispatcher.call_all Dispatcher.find
  client-AllKeep = record {
    on_connect = λ v s h. h;
    on_disconnect = λ v s h. h;
    on_receive = λ v s h. then_pure (Sync.on_receive_client e v >> pure tt) s (
        then_pure (Sync.on_receive_client e v) s (
          >>=-Keeps (Holds I native) (open_reader e v.packet_data) _ s
            (open_reader-Keeps v.packet_data s h)
            (λ r u k.
              greet-Keeps v.peer_handle Sync.client_greeting
                (record u { app = u.app ++ Sync.client_received (Reader.as_string r) ∷ [] }) k)));
  }
