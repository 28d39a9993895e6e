-- ===== src/Types.antt =====
-- The enumerations and plain structures of include/icelander.hpp.
use icelander.Prelude.{ℕ, List, Bool, false}

-- `enum class PacketFlag`: its values are ENet's (Enet.antt).
pub data PacketFlag : Type 0 where
  reliable unsequenced no_allocate unreliable_fragment sent : PacketFlag

-- `enum class PeerState`: each enumerator has the value of ENet's, so the cast from ENet's state is
-- the identity.
pub data PeerState : Type 0 where
  disconnected connecting acknowledging_connect connection_pending connection_succeeded : PeerState
  connected disconnect_later disconnecting acknowledging_disconnect zombie : PeerState

-- `enum class EventType`, with the values of ENet's event types in the same way.
pub data EventType : Type 0 where
  none connect disconnect receive : EventType

-- `struct Endpoint`: a host name as its bytes, and a `uint16_t`.
pub record Endpoint : Type 0 where
  pub host : List ℕ
  pub port : ℕ

-- `struct HostConfig`, times in milliseconds.
pub record HostConfig : Type 0 where
  pub max_peers : ℕ
  pub max_channels : ℕ
  pub incoming_bandwidth : ℕ
  pub outgoing_bandwidth : ℕ
  pub enable_compression : Bool
  pub service_timeout : ℕ

unfoldable pub default_config : HostConfig
default_config = record {
  max_peers = 32;
  max_channels = 1;
  incoming_bandwidth = 0;
  outgoing_bandwidth = 0;
  enable_compression = false;
  service_timeout = 10;
}
