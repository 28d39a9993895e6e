-- ===== src/Apps/Chat.antt =====
-- examples/advanced/comprehensive_example.cpp, its messages: the texts that name them, what each side
-- builds, and what each side reads.
pub mod Server
pub mod Client
pub mod Wire
pub mod Answers
pub mod Robust
pub mod Broadcast
pub mod Silence
pub mod Tasks
use icelander.Prelude.{ℕ, ◌+◌, ◌%◌, ◌^◌, List, [], ◌∷◌, Bool, if◌then◌else◌, Exec, ◌>>=◌, pure}
use icelander.Bytes.{Platform}
use icelander.Builder
use icelander.Builder.{PacketBuilder}
use icelander.Reader
use icelander.Reader.{PacketReader}
use icelander.Host.Peers.{same_text}

-- "WELCOME", "CHAT", "BROADCAST_CHAT", "PING", "PONG", "NEW_CLIENT_JOINED", "CLIENT_DISCONNECTED"
abbrev pub welcome_text : List ℕ
welcome_text = 0x57 ∷ 0x45 ∷ 0x4c ∷ 0x43 ∷ 0x4f ∷ 0x4d ∷ 0x45 ∷ []

abbrev pub chat_text : List ℕ
chat_text = 0x43 ∷ 0x48 ∷ 0x41 ∷ 0x54 ∷ []

abbrev pub broadcast_chat_text : List ℕ
broadcast_chat_text =
    0x42 ∷ 0x52 ∷ 0x4f ∷ 0x41 ∷ 0x44 ∷ 0x43 ∷ 0x41 ∷ 0x53 ∷ 0x54 ∷ 0x5f ∷ 0x43 ∷ 0x48 ∷ 0x41 ∷ 0x54
    ∷ []

abbrev pub ping_text : List ℕ
ping_text = 0x50 ∷ 0x49 ∷ 0x4e ∷ 0x47 ∷ []

abbrev pub pong_text : List ℕ
pong_text = 0x50 ∷ 0x4f ∷ 0x4e ∷ 0x47 ∷ []

abbrev pub joined_text : List ℕ
joined_text =
    0x4e ∷ 0x45 ∷ 0x57 ∷ 0x5f ∷ 0x43 ∷ 0x4c ∷ 0x49 ∷ 0x45 ∷ 0x4e ∷ 0x54 ∷ 0x5f ∷ 0x4a ∷ 0x4f ∷ 0x49
    ∷ 0x4e ∷ 0x45 ∷ 0x44 ∷ []

abbrev pub left_text : List ℕ
left_text =
    0x43 ∷ 0x4c ∷ 0x49 ∷ 0x45 ∷ 0x4e ∷ 0x54 ∷ 0x5f ∷ 0x44 ∷ 0x49 ∷ 0x53 ∷ 0x43 ∷ 0x4f ∷ 0x4e ∷ 0x4e
    ∷ 0x45 ∷ 0x43 ∷ 0x54 ∷ 0x45 ∷ 0x44 ∷ []

-- What the server understands, and what a client does.
pub data Request : Type 0 where
  chat : ℕ → List ℕ → Request
  ping : ℕ → Request
  unknown : Request

pub data Notice : Type 0 where
  welcome : ℕ → Notice
  chat_from : ℕ → List ℕ → Notice
  pong : ℕ → ℕ → Notice
  joined left other : Notice

module _ ⦃m : Platform⦄ where
  -- the builders: `welcome_builder`, `broadcast_builder`, `pong_builder`, `ping_builder`,
  -- `chat_builder` and `builder`
  unfoldable pub build_welcome : ℕ → PacketBuilder
  build_welcome n =
      Builder.write_uint32 (n % 2 ^ 32) (Builder.write_string welcome_text Builder.new)

  unfoldable pub build_broadcast : ℕ → List ℕ → PacketBuilder
  build_broadcast client_id message =
      Builder.write_string message
        (Builder.write_uint32 client_id (Builder.write_string broadcast_chat_text Builder.new))

  unfoldable pub build_pong : ℕ → ℕ → PacketBuilder
  build_pong timestamp now =
      Builder.write_uint64 now
        (Builder.write_uint64 timestamp (Builder.write_string pong_text Builder.new))

  unfoldable pub build_ping : ℕ → PacketBuilder
  build_ping now = Builder.write_uint64 now (Builder.write_string ping_text Builder.new)

  unfoldable pub build_chat : ℕ → List ℕ → PacketBuilder
  build_chat client_idx message = Builder.write_string message (
      Builder.write_uint32 ((client_idx + 1) % 2 ^ 32) (Builder.write_string chat_text Builder.new))

  unfoldable pub build_text : List ℕ → PacketBuilder
  build_text msg_type = Builder.write_string msg_type Builder.new

  -- `reader.readString(reader.readUint32())`
  unfoldable pub read_text : Exec PacketReader (List ℕ)
  read_text = do n ← Reader.read_uint32; Reader.read_string n

  unfoldable pub read_request : Exec PacketReader Request
  unfolding same_text
  read_request = do
    msg_type ← read_text
    if same_text msg_type chat_text
        then (do client_id ← Reader.read_uint32; message ← read_text; pure (chat client_id message))
        else if same_text msg_type ping_text
        then (do timestamp ← Reader.read_uint64; pure (ping timestamp))
        else pure unknown

  unfoldable pub read_notice : Exec PacketReader Notice
  unfolding same_text
  read_notice = do
    msg_type ← read_text
    if same_text msg_type welcome_text
        then (do assigned_id ← Reader.read_uint32; pure (welcome assigned_id))
        else if same_text msg_type broadcast_chat_text
        then (do
          sender_id ← Reader.read_uint32
          message ← read_text
          pure (chat_from sender_id message))
        else if same_text msg_type pong_text
        then (do
          sent_time ← Reader.read_uint64
          server_time ← Reader.read_uint64
          pure (pong sent_time server_time))
        else if same_text msg_type joined_text
        then pure joined
        else if same_text msg_type left_text
        then pure left
        else pure other
