-- ===== src/Apps/Echo.antt =====
-- examples/networking/async_server.cpp and async_client.cpp: the handlers of both programs, and the
-- loop of the client over the lines of its input.
pub mod Lines
pub mod Quit
use icelander.Prelude.{
  ℕ, List, [], ◌∷◌, ◌++◌, Bool, true, false, if◌then◌else◌, none, some, Outcome, done, thrown,
  fault, Exec, ◌>>=◌, ◌>>◌, pure,
}
use icelander.Bytes.{Platform}
use icelander.Types.{Endpoint, PacketFlag}
use icelander.Enet.{Enet}
use icelander.Builder
use icelander.Builder.{PacketBuilder}
use icelander.Reader
use icelander.Packet
use icelander.Packet.{Packet}
use icelander.Peer
use icelander.Dispatcher
use icelander.Dispatcher.{ConnectEvent, DisconnectEvent, ReceiveEvent, EventDispatcher, Handler}
use icelander.Host.Refs.{State, on_world}
use icelander.Host.Peers.{same_text}
use icelander.Apps.Handlers.{modify, object, build_reliable, send_to, open_reader}

-- "quit", "Echo: ", "Welcome to the server!"; a literal that `create` takes as an array has its zero
-- byte.
abbrev pub quit_text : List ℕ
quit_text = 0x71 ∷ 0x75 ∷ 0x69 ∷ 0x74 ∷ []

abbrev pub echo_text : List ℕ
echo_text = 0x45 ∷ 0x63 ∷ 0x68 ∷ 0x6f ∷ 0x3a ∷ 0x20 ∷ []

abbrev pub greeting : List ℕ
greeting =
    0x57 ∷ 0x65 ∷ 0x6c ∷ 0x63 ∷ 0x6f ∷ 0x6d ∷ 0x65 ∷ 0x20 ∷ 0x74 ∷ 0x6f ∷ 0x20 ∷ 0x74 ∷ 0x68 ∷ 0x65
    ∷ 0x20 ∷ 0x73 ∷ 0x65 ∷ 0x72 ∷ 0x76 ∷ 0x65 ∷ 0x72 ∷ 0x21 ∷ 0 ∷ []

-- What the programs print.
pub data Line : Type 0 where
  client_connected client_disconnected : Endpoint → Line
  received server_says : List ℕ → Line
  disconnected send_failed : Line

module _ (e : Enet) where
  abbrev pub EchoState : Type 0
  EchoState = State e (List Line)

  unfoldable pub print : Line → Exec EchoState (Unit {0})
  print l = modify (λ lines. lines ++ l ∷ [])

  -- `event.peerHandle->send(Packet::create(bytes, static_cast<PacketFlagsT>(PacketFlag::reliable)))`
  unfoldable pub send_bytes : ℕ → List ℕ → Exec EchoState (Unit {0})
  send_bytes i bytes = do
    pkt ← on_world (Packet.create e bytes (e.flag_value PacketFlag.reliable))
    send_to e i pkt

  unfoldable pub disconnect : ℕ → Exec EchoState (Unit {0})
  disconnect i = do p ← object i; on_world (Peer.disconnect e 0 p)

  unfoldable pub on_connect_server : Handler EchoState ConnectEvent
  on_connect_server v = do
    print (client_connected v.remote_endpoint)
    send_bytes v.peer_handle greeting

  unfoldable pub on_receive_server : Handler EchoState ReceiveEvent
  unfolding same_text
  on_receive_server v = do
    reader ← open_reader e v.packet_data
    let message = Reader.as_string reader
    print (received message)
    if same_text message quit_text
        then disconnect v.peer_handle
        else send_bytes v.peer_handle (echo_text ++ message)

  unfoldable pub on_disconnect_server : Handler EchoState DisconnectEvent
  on_disconnect_server v = print (client_disconnected v.remote_endpoint)

  unfoldable pub server_dispatcher : EventDispatcher EchoState
  server_dispatcher = Dispatcher.on_disconnect on_disconnect_server (
      Dispatcher.on_receive on_receive_server
        (Dispatcher.on_connect on_connect_server Dispatcher.new))

  unfoldable pub on_receive_client : Handler EchoState ReceiveEvent
  on_receive_client v = do
    reader ← open_reader e v.packet_data
    print (server_says (Reader.as_string reader))

  unfoldable pub on_disconnect_client : Handler EchoState DisconnectEvent
  on_disconnect_client v = print disconnected

  unfoldable pub client_dispatcher : EventDispatcher EchoState
  client_dispatcher =
      Dispatcher.on_disconnect on_disconnect_client
        (Dispatcher.on_receive on_receive_client Dispatcher.new)

  module _ ⦃m : Platform⦄ where
    -- One round of the loop: a line goes to the peer `i`.
    unfoldable pub say : ℕ → List ℕ → Exec EchoState (Unit {0})
    say i input = do
      pkt ← build_reliable e (Builder.write_string input Builder.new)
      p ← object i
      accepted ← on_world (Peer.send e (some pkt) p)
      if accepted then pure tt else print send_failed

    -- `while (std::getline(std::cin, input))`: an empty line is skipped, "quit" is sent and ends it.
    unfoldable pub talk : ℕ → List (List ℕ) → Exec EchoState (Unit {0})
    unfolding same_text
    talk i [] = pure tt
    talk i ([] ∷ inputs) = talk i inputs
    talk i ((c ∷ cs) ∷ inputs) =
        say i (c ∷ cs)
        >> (let rest = talk i inputs in if same_text (c ∷ cs) quit_text then pure tt else rest)

    -- From the loop to the end of the connection.
    unfoldable pub run_client : ℕ → List (List ℕ) → Exec EchoState (Unit {0})
    run_client i inputs = talk i inputs >> disconnect i
