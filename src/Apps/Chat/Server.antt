-- ===== src/Apps/Chat/Server.antt =====
-- The handlers of the server of examples/advanced/comprehensive_example.cpp and `broadcastMessage`.
use icelander.Prelude.{
  ℕ, List, [], ◌∷◌, ◌++◌, Option, none, some, Bool, false, ◌==◌, if◌then◌else◌, done, Exec, ◌>>=◌,
  ◌>>◌, pure,
}
use icelander.Bytes.{Platform}
use icelander.Types.{Endpoint}
use icelander.Enet.{Enet}
use icelander.Peer
use icelander.Dispatcher
use icelander.Dispatcher.{ConnectEvent, DisconnectEvent, ReceiveEvent, EventDispatcher, Handler}
use icelander.Host.Refs.{State, on_world, finally, retain_ref, release_ref, release_all}
use icelander.Host.Peers.{peer_count, get_peers}
use icelander.Host.Calls.{broadcast}
use icelander.Apps.Handlers.{
  modify, object, reading, catching, build_reliable, send_to, with_packet, open_reader,
}
use icelander.Apps.Chat.{
  Request, chat, ping, unknown, build_welcome, build_broadcast, build_pong, build_text,
  read_request, joined_text, left_text,
}

-- What the server prints.
pub data Line : Type 0 where
  client_connected : Endpoint → ℕ → Line  -- "(Total peers: …)"
  client_disconnected : Endpoint → ℕ → Line
  chat_received : ℕ → List ℕ → Line
  processing_error : Line

module _ ⦃m : Platform⦄ (e : Enet) where
  abbrev pub ServerState : Type 0
  ServerState = State e (List Line)

  unfoldable pub print : Line → Exec ServerState (Unit {0})
  print l = modify (λ lines. lines ++ l ∷ [])

  -- `peer != exclude_peer`
  unfoldable pub is_excluded : Option ℕ → ℕ → Bool
  is_excluded none i = false
  is_excluded (some j) i = j == i

  -- The loop of `broadcastMessage`.
  unfoldable pub tell : List ℕ → Option ℕ → ℕ → Exec ServerState (Unit {0})
  tell msg_type exclude_peer i = if is_excluded exclude_peer i then pure tt else (do
    p ← object i
    is_connected ← on_world (Peer.is_connected e p)
    if is_connected
        then (do copy_packet ← build_reliable e (build_text msg_type); send_to e i copy_packet)
        else pure tt)

  unfoldable pub tell_all : List ℕ → Option ℕ → List ℕ → Exec ServerState (Unit {0})
  tell_all msg_type exclude_peer [] = pure tt
  tell_all msg_type exclude_peer (i ∷ is) =
      tell msg_type exclude_peer i >> tell_all msg_type exclude_peer is

  -- The vector of `getPeers` ends with the call.
  unfoldable pub tell_peers : List ℕ → Option ℕ → Exec ServerState (Unit {0})
  tell_peers msg_type exclude_peer s =
      let (ids, s') = get_peers s in
      finally (λ t. record t { strong = release_all ids t.strong })
        (tell_all msg_type exclude_peer ids) s'

  -- The body of `broadcastMessage`: the packet that it builds first is not sent.
  unfoldable pub announce : List ℕ → Option ℕ → Exec ServerState (Unit {0})
  announce msg_type exclude_peer = do
    packet ← build_reliable e (build_text msg_type)
    with_packet e packet (tell_peers msg_type exclude_peer)

  -- `broadcastMessage`, whose parameter `exclude_peer` is a copy.
  unfoldable pub broadcast_message : List ℕ → Option ℕ → Exec ServerState (Unit {0})
  unfolding announce
  broadcast_message msg_type none s = announce msg_type none s
  broadcast_message msg_type (some i) s =
      finally (release_ref i) (announce msg_type (some i)) (retain_ref i s)

  unfoldable pub on_connect : Handler ServerState ConnectEvent
  on_connect v = do
    count ← (λ s. done (peer_count s) s)
    print (client_connected v.remote_endpoint count)
    count ← (λ s. done (peer_count s) s)
    welcome_packet ← build_reliable e (build_welcome count)
    send_to e v.peer_handle welcome_packet
    broadcast_message joined_text (some v.peer_handle)

  -- The branches of the receive handler, `now` the reading of the clock.
  unfoldable pub answer : ℕ → ℕ → Request → Exec ServerState (Unit {0})
  answer now i (chat client_id message) = do
    print (chat_received client_id message)
    broadcast_packet ← build_reliable e (build_broadcast client_id message)
    broadcast e (some broadcast_packet)
  answer now i (ping timestamp) = do
    pong_packet ← build_reliable e (build_pong timestamp now)
    send_to e i pong_packet
  answer now i unknown = pure tt

  unfoldable pub on_receive : ℕ → Handler ServerState ReceiveEvent
  on_receive now v = do
    reader ← open_reader e v.packet_data
    catching (reading read_request reader >>= answer now v.peer_handle) (print processing_error)

  unfoldable pub on_disconnect : Handler ServerState DisconnectEvent
  on_disconnect v = do
    count ← (λ s. done (peer_count s) s)
    print (client_disconnected v.remote_endpoint count)
    broadcast_message left_text none

  -- the dispatcher that `setupServer` fills
  unfoldable pub dispatcher : ℕ → EventDispatcher ServerState
  dispatcher now =
      Dispatcher.on_disconnect on_disconnect
        (Dispatcher.on_receive (on_receive now) (Dispatcher.on_connect on_connect Dispatcher.new))
