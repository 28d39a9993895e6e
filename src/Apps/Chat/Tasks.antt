-- ===== src/Apps/Chat/Tasks.antt =====
-- The tasks of the clients of examples/advanced/comprehensive_example.cpp, over the peers that
-- `connect` returned, each of a host of its own. No peer is null; an exception leaves the task.
pub mod Bounds
use icelander.Prelude.{
  ℕ, ◌+◌, ◌%◌, List, [], ◌∷◌, Bool, true, false, ◌&&◌, not, ltb, if◌then◌else◌, length, get_elem?,
  some, Outcome, done, thrown, fault, Exec, ◌>>=◌, ◌>>◌, pure, or_fault,
}
use icelander.Bytes.{Platform}
use icelander.Types.{PacketFlag}
use icelander.Enet.{Enet}
use icelander.Builder.{PacketBuilder}
use icelander.Packet
use icelander.Peer
use icelander.Peer.{Peer}
use icelander.Apps.Chat.{build_ping, build_chat}

abbrev pub sample_messages : List (List ℕ)
sample_messages =
    (0x48 ∷ 0x65 ∷ 0x6c ∷ 0x6c ∷ 0x6f ∷ 0x20 ∷ 0x65 ∷ 0x76 ∷ 0x65 ∷ 0x72 ∷ 0x79 ∷ 0x6f ∷ 0x6e ∷ 0x65
      ∷ 0x21 ∷ [])
    ∷ (0x48 ∷ 0x6f ∷ 0x77 ∷ 0x27 ∷ 0x73 ∷ 0x20 ∷ 0x65 ∷ 0x76 ∷ 0x65 ∷ 0x72 ∷ 0x79 ∷ 0x6f ∷ 0x6e
        ∷ 0x65 ∷ 0x20 ∷ 0x64 ∷ 0x6f ∷ 0x69 ∷ 0x6e ∷ 0x67 ∷ 0x3f ∷ [])
    ∷ (0x54 ∷ 0x68 ∷ 0x69 ∷ 0x73 ∷ 0x20 ∷ 0x69 ∷ 0x73 ∷ 0x20 ∷ 0x61 ∷ 0x20 ∷ 0x74 ∷ 0x65 ∷ 0x73
        ∷ 0x74 ∷ 0x20 ∷ 0x6d ∷ 0x65 ∷ 0x73 ∷ 0x73 ∷ 0x61 ∷ 0x67 ∷ 0x65 ∷ [])
    ∷ (0x49 ∷ 0x63 ∷ 0x65 ∷ 0x6c ∷ 0x61 ∷ 0x6e ∷ 0x64 ∷ 0x65 ∷ 0x72 ∷ 0x20 ∷ 0x69 ∷ 0x73 ∷ 0x20
        ∷ 0x77 ∷ 0x6f ∷ 0x72 ∷ 0x6b ∷ 0x69 ∷ 0x6e ∷ 0x67 ∷ 0x20 ∷ 0x67 ∷ 0x72 ∷ 0x65 ∷ 0x61 ∷ 0x74
        ∷ 0x21 ∷ [])
    ∷ (0x42 ∷ 0x72 ∷ 0x6f ∷ 0x61 ∷ 0x64 ∷ 0x63 ∷ 0x61 ∷ 0x73 ∷ 0x74 ∷ 0x69 ∷ 0x6e ∷ 0x67 ∷ 0x20
        ∷ 0x74 ∷ 0x6f ∷ 0x20 ∷ 0x61 ∷ 0x6c ∷ 0x6c ∷ 0x20 ∷ 0x63 ∷ 0x6c ∷ 0x69 ∷ 0x65 ∷ 0x6e ∷ 0x74
        ∷ 0x73 ∷ [])
    ∷ (0x4d ∷ 0x75 ∷ 0x6c ∷ 0x74 ∷ 0x69 ∷ 0x2d ∷ 0x63 ∷ 0x6c ∷ 0x69 ∷ 0x65 ∷ 0x6e ∷ 0x74 ∷ 0x20
        ∷ 0x64 ∷ 0x65 ∷ 0x6d ∷ 0x6f ∷ 0x20 ∷ 0x69 ∷ 0x73 ∷ 0x20 ∷ 0x73 ∷ 0x75 ∷ 0x63 ∷ 0x63 ∷ 0x65
        ∷ 0x73 ∷ 0x73 ∷ 0x66 ∷ 0x75 ∷ 0x6c ∷ [])
    ∷ []

-- One round of the loop of a task: the two readings of `running_`, the numbers of `gen_`, the clock.
pub record Round : Type 0 where
  pub running : Bool
  pub still_running : Bool
  pub gen_client : ℕ
  pub gen_message : ℕ
  pub now : ℕ

module _ ⦃m : Platform⦄ (e : Enet) where
  -- `if (peer && peer->isConnected()) { … }`: whether a packet was sent
  unfoldable pub say_if_connected : Peer → PacketBuilder → Exec e.World Bool
  say_if_connected p b = do
    is_connected ← Peer.is_connected e p
    if is_connected
        then (do
          packet ← Packet.build e b (e.flag_value PacketFlag.reliable)
          _ ← Peer.send e (some packet) p
          pure true)
        else pure false

  unfoldable pub ping_round : List Peer → Round → Exec e.World (Unit {0})
  ping_round [] r = pure tt
  ping_round (q ∷ qs) r = do
    p ← or_fault (get_elem? (q ∷ qs) (r.gen_client % length (q ∷ qs)))
    _ ← say_if_connected p (build_ping r.now)
    pure tt

  -- The task of `schedulePeriodicPing`.
  unfoldable pub ping_task : List Peer → List Round → Exec e.World (Unit {0})
  ping_task client_peers [] = pure tt
  ping_task client_peers (r ∷ rs) =
      let further = ping_round client_peers r >> ping_task client_peers rs in
      if r.running && r.still_running then further else pure tt

  unfoldable pub chat_round : List Peer → Round → Exec e.World Bool
  chat_round [] r = pure false
  chat_round (q ∷ qs) r = do
    let client_idx = r.gen_client % length (q ∷ qs)
    p ← or_fault (get_elem? (q ∷ qs) client_idx)
    message ← or_fault (get_elem? sample_messages (r.gen_message % 6))
    say_if_connected p (build_chat client_idx message)

  -- The task of `scheduleChatMessages`, which has sent `message_count` chats.
  unfoldable pub chat_task : List Peer → List Round → ℕ → Exec e.World ℕ
  chat_task client_peers [] message_count = pure message_count
  chat_task client_peers (r ∷ rs) message_count =
      let further = (do
        was_sent ← chat_round client_peers r
        chat_task client_peers rs (if was_sent then message_count + 1 else message_count)) in
      if r.running && ltb message_count 12 && r.still_running then further else pure message_count

  -- The first loop of `cleanup`.
  unfoldable pub disconnect_clients : List Peer → Exec e.World (Unit {0})
  disconnect_clients [] = pure tt
  disconnect_clients (p ∷ ps) =
      (do
        is_connected ← Peer.is_connected e p
        if is_connected then Peer.disconnect e 0 p else pure tt)
      >> disconnect_clients ps
