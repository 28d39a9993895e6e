-- ===== src/Examples/Chats.antt =====
-- The chat server of the examples on the sample ENet.
use mathlib.Core.Option.{some-injective}
use icelander.Prelude.{
  ℕ, ◌≡◌, refl, List, [], ◌∷◌, ◌++◌, none, some, true, false, ◌≤◌, ◌==◌, if◌then◌else◌, done, All,
  Leaves, get_elem?, arith,
}
use icelander.Bytes.{repr, low_bytes}
use icelander.Types.{EventType}
use icelander.Enet.{NativeEvent, NativePacket, NativePeer}
use icelander.Enet.Sample.{World, sample, sample_laws}
use icelander.Builder
use icelander.Peer.{Peer}
use icelander.Dispatcher.{ReceiveEvent}
use icelander.Host.Refs.{State}
use icelander.Host.Delivery.{process_all}
use icelander.Host.Unchanged.{Unchanged}
use icelander.Apps.Chat.{build_chat, build_broadcast, joined_text}
use icelander.Apps.Chat.Server
use icelander.Apps.Chat.Server.{Line, dispatcher, broadcast_message}
use icelander.Apps.Chat.Client
use icelander.Apps.Chat.Client.{ClientState}
use icelander.Apps.Chat.Answers.{Arrives, chat_delivered}
use icelander.Apps.Chat.Robust.{on_receive_returns}
use icelander.Apps.Chat.Broadcast.{IsSteady, IsSlot, IsBalanced}
use icelander.Apps.Chat.Broadcast.Balance.{broadcast_message_lem}
use icelander.Apps.Chat.Tasks.{Round, ping_task, chat_task}
use icelander.Apps.Chat.Tasks.Bounds.{Sends, tasks_bounded}
use icelander.Apps.Chat.Silence.{IsLonely, IsQuiet}
use icelander.Apps.Chat.Silence.Events.{server_prints_lem}
use icelander.Examples.Platforms.{little_machine}
use icelander.Examples.Hosts.{far, near, event}

-- The ENet peers stay as they are.
abbrev Crowded : World → Type 0
Crowded w = w.peers ≡ far ∷ near ∷ []

crowded_steady : IsSteady sample Crowded
crowded_steady = record {
  kept = record { created = λ bs flags w h. h; sent = λ native channel a w h. h };
  freed = λ a w h. h;
  unharmed = λ native channel a b n w h. (n, h);
}

-- "CHAT" 2 "Hey", as the client of index 1 builds it
abbrev chat_bytes : List ℕ
chat_bytes =
    4 ∷ 0 ∷ 0 ∷ 0 ∷ 0x43 ∷ 0x48 ∷ 0x41 ∷ 0x54 ∷ 2 ∷ 0 ∷ 0 ∷ 0 ∷ 3 ∷ 0 ∷ 0 ∷ 0 ∷ 0x48 ∷ 0x65 ∷ 0x79
    ∷ []

abbrev chat_packet : NativePacket
chat_packet = record { reference_count = 0; flags = 1; contents = chat_bytes }

abbrev lobby_world : World
lobby_world = record { heap = some chat_packet ∷ []; peers = far ∷ near ∷ []; inbox = [] }

abbrev first_peer : Peer
first_peer = record { native_peer = some 0; host = some 0; user_data = none }

abbrev second_peer : Peer
second_peer = record { native_peer = some 1; host = some 0; user_data = none }

-- Nobody is connected yet.
abbrev lobby : State sample (List Line)
lobby = record {
  world = lobby_world;
  native_host = some 0;
  is_server = true;
  peers = [];
  objects = [];
  strong = λ i. 0;
  app = [];
}

-- Two peers whose objects an application holds.
abbrev busy : State sample (List Line)
busy = record {
  world = lobby_world;
  native_host = some 0;
  is_server = true;
  peers = 0 ∷ 1 ∷ [];
  objects = first_peer ∷ second_peer ∷ [];
  strong = λ i. if i == 0 then 1 else if i == 1 then 1 else 0;
  app = [];
}

abbrev delivery : ReceiveEvent
delivery = record { peer_handle = 1; packet_data = some (record { native = some 0 }); channel = 0 }

-- Two clients connect, and the first of them sends a chat.
abbrev evening : List NativeEvent
evening =
    event EventType.connect 0 none
    ∷ event EventType.connect 1 none
    ∷ event EventType.receive 0 (some 0)
    ∷ []

server_prints_lem_example :
    Leaves
      (λ t. IsQuiet Crowded t × ((lines : List Line) × (t.app ≡ lines) × All IsLonely lines))
      (process_all sample (dispatcher ⦃m = little_machine⦄ sample 5) evening lobby)
server_prints_lem_example =
    server_prints_lem ⦃m = little_machine⦄ sample sample_laws Crowded crowded_steady 5 evening lobby
      (λ a w h. h)
      ((λ w h. (far, rw h refl)), ((λ w h. (near, rw h refl)), ((λ w h. (far, rw h refl)), tt)))
      (record { idle = λ j. refl; bounded = tt; good = refl })

get_slot :
    (k : ℕ) (n : NativePeer) (a : ℕ)
    → some k ≡ some a
    → (w : World) → Crowded w
    → get_elem? (far ∷ near ∷ []) k ≡ some n
    → get_elem? w.peers a ≡ some n
get_slot k n a q w h there = rw (h, ← some-injective _ _ q) there

broadcast_message_lem_example :
    Leaves
      (IsBalanced Crowded busy)
      (broadcast_message ⦃m = little_machine⦄ sample joined_text (some 1) busy)
broadcast_message_lem_example =
    broadcast_message_lem ⦃m = little_machine⦄ sample sample_laws Crowded crowded_steady joined_text
      (some 1) busy refl (λ j q. ground arith)
      (
        (first_peer, refl, λ a q w h. (far, get_slot 0 far a q w h refl)),
        ((second_peer, refl, λ a q w h. (near, get_slot 1 near a q w h refl)), tt),
      )

on_receive_returns_example :
    (t : State sample (List Line)) × (Server.on_receive ⦃m = little_machine⦄ sample 5 delivery busy
      ≡ done tt t)
    × Unchanged busy t
on_receive_returns_example =
    on_receive_returns ⦃m = little_machine⦄ sample sample_laws (omega arith) 5 0 0 chat_packet
      delivery second_peer busy refl refl (omega arith) refl refl

abbrev hey : List ℕ
hey = 0x48 ∷ 0x65 ∷ 0x79 ∷ []

-- Where the answer to the chat is made.
abbrev answered : World
answered =
    (sample.packet_create (Builder.span (build_broadcast ⦃m = little_machine⦄ 2 hey)) 1
      lobby_world).1

chat_bytes_lem : chat_bytes ≡ Builder.span (build_chat ⦃m = little_machine⦄ 1 hey)
unfolding build_chat Builder.span Builder.write_string Builder.write_uint32 Builder.write_text
    Builder.write_memory Builder.insert_end Builder.new repr low_bytes
chat_bytes_lem = refl

chat_delivered_example :
    (sent : NativePacket) × (sample.packet_at answered 1 ≡ some sent)
    × (Server.on_receive ⦃m = little_machine⦄ sample 5 delivery busy
        ≡ done tt (record busy { world = answered; app = Server.chat_received 2 hey ∷ [] }))
    × ((own later c_at : ℕ) (got : NativePacket) (u : ReceiveEvent)
          (c : State sample (List Client.Line))
        → Arrives ⦃m = little_machine⦄ sample sample_laws c_at u
        → sample.packet_at c.world c_at ≡ some got
        → got.contents ≡ sent.contents
        → Client.on_receive ⦃m = little_machine⦄ sample own later u c
          ≡ done tt (if 2 == own then c else record c { app = c.app ++ Client.chat 2 hey ∷ [] }))
chat_delivered_example =
    chat_delivered ⦃m = little_machine⦄ sample sample_laws 5 1 0 1 0 1 hey chat_packet delivery
      second_peer answered busy (omega arith) (omega arith) refl refl chat_bytes_lem refl refl refl
      refl

-- Two rounds, and one that `running_` ends.
abbrev rounds : List Round
rounds =
    record { running = true; still_running = true; gen_client = 7; gen_message = 8; now = 3 }
    ∷ record { running = true; still_running = true; gen_client = 2; gen_message = 5; now = 4 }
    ∷ record { running = true; still_running = false; gen_client = 0; gen_message = 0; now = 5 }
    ∷ []

first_usable : (a : ℕ) → some 0 ≡ some a → IsSlot sample Crowded a
first_usable a q w h = (far, get_slot 0 far a q w h refl)

second_usable : (a : ℕ) → some 1 ≡ some a → IsSlot sample Crowded a
second_usable a q w h = (near, get_slot 1 near a q w h refl)

tasks_bounded_example :
    Leaves Crowded
      (ping_task ⦃m = little_machine⦄ sample (first_peer ∷ second_peer ∷ []) rounds lobby_world)
    × Sends ⦃m = little_machine⦄ sample sample_laws Crowded crowded_steady.kept
        (chat_task ⦃m = little_machine⦄ sample (first_peer ∷ second_peer ∷ []) rounds 0 lobby_world)
        (λ k. (k ≤ 12) × (k ≤ 3))
tasks_bounded_example =
    tasks_bounded ⦃m = little_machine⦄ sample sample_laws Crowded crowded_steady.kept
      (first_peer ∷ second_peer ∷ []) rounds lobby_world (first_usable, (second_usable, tt)) refl
