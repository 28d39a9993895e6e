-- ===== src/Enet.antt =====
-- ENet, the library under outside/enet that Icelander wraps, as a parameter: the state of its C
-- heap and sockets, and one function for each call that Icelander makes. A pointer is a number, the
-- null pointer is `none`.
pub mod Sample
use icelander.Prelude.{
  ℕ, ◌≡◌, ◌≢◌, List, Option, none, some, ℤ, is_zero, true, false, length, ◌++◌, take,
}
use icelander.Types.{PacketFlag, PeerState, EventType}

-- `ENetPacket`, with the bytes of `data` up to `dataLength`
pub record NativePacket : Type 0 where
  pub reference_count : ℕ
  pub flags : ℕ
  pub contents : List ℕ

-- `ENetAddress`
pub record Address : Type 0 where
  pub host : ℕ
  pub port : ℕ

-- `ENetPeer`, the fields that Icelander reads
pub record NativePeer : Type 0 where
  pub address : Address
  pub state : PeerState
  pub round_trip_time : ℕ

-- `ENetEvent`
pub record NativeEvent : Type 0 where
  pub kind : EventType
  pub peer : ℕ
  pub channel_id : ℕ
  pub payload : ℕ
  pub packet : Option ℕ

pub record Enet : Type 1 where
  pub World : Type 0
  pub version : ℕ
  pub initialize : World → ℤ × World
  pub deinitialize : World → World
  pub flag_value : PacketFlag → ℕ
  pub packet_at : World → ℕ → Option NativePacket
  pub packet_create : List ℕ → ℕ → World → Option ℕ × World
  pub packet_destroy : ℕ → World → World
  pub packet_resize : ℕ → ℕ → World → ℤ × World
  -- the result and the host that the call writes
  pub address_set_host : List ℕ → World → ℤ × ℕ × World
  -- the result and the characters in the buffer of the given size
  pub address_get_host : Address → ℕ → World → ℤ × List ℕ × World
  pub peer_at : World → ℕ → Option NativePeer
  pub peer_send : ℕ → ℕ → ℕ → World → ℤ × World
  pub peer_disconnect : ℕ → ℕ → World → World
  pub peer_disconnect_now : ℕ → ℕ → World → World
  pub peer_disconnect_later : ℕ → ℕ → World → World
  pub peer_ping : ℕ → World → World
  pub peer_timeout : ℕ → ℕ → ℕ → ℕ → World → World
  pub peer_reset : ℕ → World → World
  pub host_create : Option Address → ℕ → ℕ → ℕ → ℕ → World → Option ℕ × World
  pub host_compress_with_range_coder : ℕ → World → World
  pub host_destroy : ℕ → World → World
  pub host_connect : ℕ → Address → ℕ → ℕ → World → Option ℕ × World
  -- the result and the event, which matters only where the result is positive
  pub host_service : ℕ → ℕ → World → ℤ × NativeEvent × World
  pub host_flush : ℕ → World → World
  pub host_broadcast : ℕ → ℕ → ℕ → World → World

-- What ENet documents of its packets. The bytes of a packet made with `no_allocate` are the
-- caller's own, so these laws hold as long as that buffer is neither freed nor written.
pub record PacketLaws (e : Enet) : Type 0 where
  pub created :
      (bs : List ℕ) (fl : ℕ) (w : e.World) (a : ℕ)
      → (e.packet_create bs fl w).0 ≡ some a
      → e.packet_at (e.packet_create bs fl w).1 a
        ≡ some (record { reference_count = 0; flags = fl; contents = bs })
  pub created_fresh :
      (bs : List ℕ) (fl : ℕ) (w : e.World) (a : ℕ)
      → (e.packet_create bs fl w).0 ≡ some a
      → e.packet_at w a ≡ none
  pub created_others :
      (bs : List ℕ) (fl : ℕ) (w : e.World) (b : ℕ)
      → (e.packet_create bs fl w).0 ≢ some b
      → e.packet_at (e.packet_create bs fl w).1 b ≡ e.packet_at w b
  pub destroyed : (a : ℕ) (w : e.World) → e.packet_at (e.packet_destroy a w) a ≡ none
  pub destroyed_others :
      (a b : ℕ) (w : e.World) → a ≢ b → e.packet_at (e.packet_destroy a w) b ≡ e.packet_at w b
  -- A resize keeps the packet alive; on success it has the new length and the common front.
  pub resized :
      (a n : ℕ) (w : e.World) (p : NativePacket)
      → e.packet_at w a ≡ some p
      → is_zero (e.packet_resize a n w).0 ≡ true
      → (more : List ℕ) × (e.packet_at (e.packet_resize a n w).1 a
          ≡ some (record p { contents = take n p.contents ++ more }))
        × (length (take n p.contents ++ more) ≡ n)
  pub resize_failed :
      (a n : ℕ) (w : e.World)
      → is_zero (e.packet_resize a n w).0 ≡ false
      → e.packet_at (e.packet_resize a n w).1 a ≡ e.packet_at w a
  pub resized_others :
      (a b n : ℕ) (w : e.World) → a ≢ b → e.packet_at (e.packet_resize a n w).1 b ≡ e.packet_at w b
