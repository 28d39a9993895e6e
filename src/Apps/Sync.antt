-- ===== src/Apps/Sync.antt =====
-- examples/basic/sync_example.cpp: a server and a client in one thread, over one ENet.
pub mod Kept
pub mod Serviced
pub mod Handled
pub mod Main
pub mod Pair
pub mod Created
pub mod Closed
use icelander.Prelude.{
  ℕ, zero, suc, List, [], ◌∷◌, ◌++◌, ℤ, done, thrown, fault, Exec, ◌>>=◌, ◌>>◌, pure,
}
use icelander.Types.{PacketFlag}
use icelander.Enet.{Enet}
use icelander.Reader
use icelander.Packet
use icelander.Peer
use icelander.Peer.{Peer}
use icelander.Dispatcher
use icelander.Dispatcher.{ConnectEvent, ReceiveEvent, EventDispatcher, Handler}
use icelander.Host.Refs.{State, on_world}
use icelander.Host.Events.{service}
use icelander.Apps.Handlers.{modify, send_to, open_reader}

-- "Hello from server!" and "Hello from client!", each with its zero byte
abbrev pub server_greeting : List ℕ
server_greeting =
    0x48 ∷ 0x65 ∷ 0x6c ∷ 0x6c ∷ 0x6f ∷ 0x20 ∷ 0x66 ∷ 0x72 ∷ 0x6f ∷ 0x6d ∷ 0x20 ∷ 0x73 ∷ 0x65 ∷ 0x72
    ∷ 0x76 ∷ 0x65 ∷ 0x72 ∷ 0x21 ∷ 0 ∷ []

abbrev pub client_greeting : List ℕ
client_greeting =
    0x48 ∷ 0x65 ∷ 0x6c ∷ 0x6c ∷ 0x6f ∷ 0x20 ∷ 0x66 ∷ 0x72 ∷ 0x6f ∷ 0x6d ∷ 0x20 ∷ 0x63 ∷ 0x6c ∷ 0x69
    ∷ 0x65 ∷ 0x6e ∷ 0x74 ∷ 0x21 ∷ 0 ∷ []

pub data Line : Type 0 where
  server_connected client_connected : Line
  server_received client_received : List ℕ → Line

module _ (e : Enet) where
  abbrev pub SyncState : Type 0
  SyncState = State e (List Line)

  unfoldable pub print : Line → Exec SyncState (Unit {0})
  print l = modify (λ lines. lines ++ l ∷ [])

  unfoldable pub greet : ℕ → List ℕ → Exec SyncState (Unit {0})
  greet i greeting = do
    pkt ← on_world (Packet.create e greeting (e.flag_value PacketFlag.reliable))
    send_to e i pkt

  unfoldable pub on_connect_server : Handler SyncState ConnectEvent
  on_connect_server v = do print server_connected; greet v.peer_handle server_greeting

  unfoldable pub on_receive_server : Handler SyncState ReceiveEvent
  on_receive_server v = do
    reader ← open_reader e v.packet_data
    print (server_received (Reader.as_string reader))

  unfoldable pub on_connect_client : Handler SyncState ConnectEvent
  on_connect_client v = print client_connected

  unfoldable pub on_receive_client : Handler SyncState ReceiveEvent
  on_receive_client v = do
    reader ← open_reader e v.packet_data
    print (client_received (Reader.as_string reader))
    greet v.peer_handle client_greeting

  unfoldable pub server_dispatcher : EventDispatcher SyncState
  server_dispatcher =
      Dispatcher.on_receive on_receive_server
        (Dispatcher.on_connect on_connect_server Dispatcher.new)

  unfoldable pub client_dispatcher : EventDispatcher SyncState
  client_dispatcher =
      Dispatcher.on_receive on_receive_client
        (Dispatcher.on_connect on_connect_client Dispatcher.new)

  -- Both hosts. The state of ENet is in `server`, and moves to `client` for a call.
  pub record Hosts : Type 0 where
    pub server : SyncState
    pub client : SyncState

  unfoldable pub service_server : Exec Hosts ℤ
  service_server s = elim (service e server_dispatcher 100 s.server) [
    | done r t ↦ done r (record s { server = t })
    | thrown x t ↦ thrown x (record s { server = t })
    | fault ↦ fault
  ]

  unfoldable pub service_client : Exec Hosts ℤ
  service_client s =
      elim (service e client_dispatcher 100 (record s.client { world = s.server.world })) [
        | done r t ↦ done r (record { server = record s.server { world = t.world }; client = t })
        | thrown x t ↦
            thrown x (record { server = record s.server { world = t.world }; client = t })
        | fault ↦ fault
      ]

  -- The loops that service both hosts `n` times.
  unfoldable pub service_both : ℕ → Exec Hosts (Unit {0})
  service_both zero = pure tt
  service_both (suc n) = (do _ ← service_server; _ ← service_client; pure tt) >> service_both n

  unfoldable pub disconnect_server : Peer → Exec Hosts (Unit {0})
  disconnect_server p s = elim (Peer.disconnect e 0 p s.server.world) [
    | done _ w ↦ done tt (record s { server = record s.server { world = w } })
    | thrown x w ↦ thrown x (record s { server = record s.server { world = w } })
    | fault ↦ fault
  ]

  -- From the first loop to the end, `server_peer` the result of `connect`.
  unfoldable pub communicate : Peer → Exec Hosts (Unit {0})
  communicate server_peer = service_both 10 >> disconnect_server server_peer >> service_both 5
