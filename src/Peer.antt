-- ===== src/Peer.antt =====
-- class Peer (include/icelander.hpp, src/peer.cpp): a handle on one ENet peer, or on none. The weak
-- pointer to its host is the number of that host; whether it still lives is a question to the
-- owner of the hosts. Times are milliseconds, not negative.
pub mod States
use icelander.Prelude.{
  ℕ, zero, ◌%◌, ◌^◌, List, [], Option, none, some, Bool, true, false, ◌||◌, ◌==◌, if◌then◌else◌,
  is_zero, done, fault, Exec, ◌>>=◌, ◌>>◌, pure,
}
use icelander.Bytes.{Serializable}
use icelander.Types.{
  Endpoint, PeerState, disconnected, connecting, acknowledging_connect, connection_pending,
  connection_succeeded, connected, disconnect_later, disconnecting, acknowledging_disconnect,
  zombie,
}
use icelander.Enet.{Enet, NativePeer}
use icelander.Endpoint.{from_enet_address}
use icelander.Packet
use icelander.Packet.{Packet}

pub record Peer : Type 0 where
  pub native_peer : Option ℕ
  pub host : Option ℕ
  pub user_data : Option ℕ

unfoldable pub new : Option ℕ → Option ℕ → Peer
new native host = record { native_peer = native; host = host; user_data = none }

-- `Peer(Peer&&)` and, between two objects, `operator=(Peer&&)`: the object that takes over, and what
-- is left of the other.
unfoldable pub move_construct : Peer → Peer × Peer
move_construct other = (
  record { native_peer = other.native_peer; host = other.host; user_data = other.user_data },
  record { native_peer = none; host = none; user_data = none },
)

unfoldable pub move_assign : Peer → Peer → Peer × Peer
move_assign this other = (
  record this { native_peer = other.native_peer; host = other.host; user_data = other.user_data },
  record other { native_peer = none; host = none; user_data = none },
)

-- `fromNative`: a null pointer gives no object.
unfoldable pub from_native : Option ℕ → Option ℕ → Option Peer
unfolding new
from_native none host = none
from_native (some a) host = some (new (some a) host)

unfoldable pub native_handle : Peer → Option ℕ
native_handle p = p.native_peer

-- `hostHandle()`: the lock of the weak pointer, with a test for which hosts are alive
unfoldable pub host_handle : (ℕ → Bool) → Peer → Option ℕ
host_handle alive p = elim p.host [ none ↦ none | some h ↦ if alive h then some h else none ]

-- `==` of two states
unfoldable pub code : PeerState → ℕ
code disconnected = 0
code connecting = 1
code acknowledging_connect = 2
code connection_pending = 3
code connection_succeeded = 4
code connected = 5
code disconnect_later = 6
code disconnecting = 7
code acknowledging_disconnect = 8
code zombie = 9

unfoldable pub same_state : PeerState → PeerState → Bool
unfolding code
same_state a b = code a == code b

-- The tests of `isConnected`, `isConnecting`, `isDisconnecting` and `isDisconnected` on the state.
unfoldable pub state_is_connected : PeerState → Bool
unfolding same_state
state_is_connected s = same_state s connected

unfoldable pub state_is_connecting : PeerState → Bool
unfolding same_state
state_is_connecting s =
    same_state s connecting
    || (same_state s acknowledging_connect
        || (same_state s connection_pending || same_state s connection_succeeded))

unfoldable pub state_is_disconnecting : PeerState → Bool
unfolding same_state
state_is_disconnecting s =
    same_state s disconnect_later
    || (same_state s disconnecting || same_state s acknowledging_disconnect)

unfoldable pub state_is_disconnected : PeerState → Bool
unfolding same_state
state_is_disconnected s = same_state s disconnected

module _ (e : Enet) where
  -- The end of a `unique_ptr<Packet>`.
  unfoldable pub drop_packet : Option Packet → Exec e.World (Unit {0})
  drop_packet none = pure tt
  drop_packet (some p) = Packet.destroy e p

  -- `enet_peer_send` reads the packet through its pointer.
  unfoldable pub native_send : ℕ → ℕ → Option ℕ → Exec e.World Bool
  native_send peer channel none w = fault
  native_send peer channel (some a) w =
      done (is_zero (e.peer_send peer channel a w).0) (e.peer_send peer channel a w).1

  -- `send(ChannelIdT, unique_ptr<Packet>)`: `pkt.release()` gives the packet up, whatever ENet answers;
  -- on the early return the pointer still owns its packet and destroys it.
  unfoldable pub send_on : ℕ → Option Packet → Peer → Exec e.World Bool
  unfolding native_send
  send_on channel pkt p = elim p.native_peer [
    | none ↦ do drop_packet pkt; pure false
    | some peer ↦ elim pkt [
      | none ↦ pure false
      | some k ↦ native_send peer channel (Packet.native_handle k)
    ]
  ]

  unfoldable pub send : Option Packet → Peer → Exec e.World Bool
  unfolding send_on
  send pkt p = send_on 0 pkt p

  -- the templates `send(ChannelIdT, const T&, PacketFlagsT)` and `send(const T&, PacketFlagsT)`
  unfoldable pub send_value_on :
      {T : Type 0} → Serializable T → ℕ → T → ℕ → Peer → Exec e.World Bool
  send_value_on t channel v flags p = do
    pkt ← Packet.create_value e t v flags
    send_on channel (some pkt) p

  unfoldable pub send_value : {T : Type 0} → Serializable T → T → ℕ → Peer → Exec e.World Bool
  unfolding send_value_on
  send_value t v flags p = send_value_on t 0 v flags p

  -- A call of ENet on the peer, if there is one.
  abbrev on_native : Peer → (ℕ → e.World → e.World) → Exec e.World (Unit {0})
  on_native p f w = elim p.native_peer [ none ↦ done tt w | some a ↦ done tt (f a w) ]

  unfoldable pub disconnect : ℕ → Peer → Exec e.World (Unit {0})
  disconnect payload p = on_native p (λ a. e.peer_disconnect a payload)

  unfoldable pub disconnect_now : ℕ → Peer → Exec e.World (Unit {0})
  disconnect_now payload p = on_native p (λ a. e.peer_disconnect_now a payload)

  -- `disconnectLater`
  unfoldable pub disconnect_after : ℕ → Peer → Exec e.World (Unit {0})
  disconnect_after payload p = on_native p (λ a. e.peer_disconnect_later a payload)

  unfoldable pub ping : Peer → Exec e.World (Unit {0})
  ping p = on_native p e.peer_ping

  -- The casts to uint32_t keep the times modulo 2 ^ 32.
  unfoldable pub timeout : ℕ → ℕ → ℕ → Peer → Exec e.World (Unit {0})
  timeout limit minimum maximum p =
      on_native p (λ a. e.peer_timeout a (limit % 2 ^ 32) (minimum % 2 ^ 32) (maximum % 2 ^ 32))

  unfoldable pub reset : Peer → Exec e.World (Unit {0})
  reset p = on_native p e.peer_reset

  unfoldable pub deref : ℕ → Exec e.World NativePeer
  deref a w = elim (e.peer_at w a) [ none ↦ fault | some n ↦ done n w ]

  unfoldable pub state : Peer → Exec e.World PeerState
  unfolding deref
  state p = elim p.native_peer [ none ↦ pure disconnected | some a ↦ do n ← deref a; pure n.state ]

  unfoldable pub endpoint : Peer → Exec e.World Endpoint
  unfolding deref
  endpoint p = elim p.native_peer [
    | none ↦ pure (record { host = []; port = 0 })
    | some a ↦ do n ← deref a; from_enet_address e n.address
  ]

  unfoldable pub round_trip_time : Peer → Exec e.World ℕ
  unfolding deref
  round_trip_time p = elim p.native_peer [
    | none ↦ pure 0
    | some a ↦ do n ← deref a; pure n.round_trip_time
  ]

  unfoldable pub is_connected : Peer → Exec e.World Bool
  unfolding state_is_connected
  is_connected p = do s ← state p; pure (state_is_connected s)

  unfoldable pub is_connecting : Peer → Exec e.World Bool
  unfolding state_is_connecting
  is_connecting p = do current_state ← state p; pure (state_is_connecting current_state)

  unfoldable pub is_disconnecting : Peer → Exec e.World Bool
  unfolding state_is_disconnecting
  is_disconnecting p = do current_state ← state p; pure (state_is_disconnecting current_state)

  unfoldable pub is_disconnected : Peer → Exec e.World Bool
  unfolding state_is_disconnected
  is_disconnected p = do s ← state p; pure (state_is_disconnected s)
