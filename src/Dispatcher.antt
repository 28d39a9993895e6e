-- ===== src/Dispatcher.antt =====
-- class EventDispatcher and the event structures (include/icelander.hpp, src/event_dispatcher.cpp).
-- A handler is code of the application over a state `S` that it may change, and it may throw. `S`
-- is the state outside the dispatcher: a handler that changes the dispatcher which is calling it
-- is not modelled.
pub mod Order
use icelander.Prelude.{
  ℕ, List, [], ◌∷◌, ◌++◌, Option, none, some, ◌==◌, if◌then◌else◌, Exec, ◌>>=◌, ◌>>◌, pure,
}
use icelander.Types.{Endpoint}
use icelander.Packet.{Packet}

-- A `shared_ptr` to a Peer is the number of that object (Host.antt).
pub record ConnectEvent : Type 0 where
  pub peer_handle : ℕ
  pub remote_endpoint : Endpoint
  pub payload : ℕ

pub record DisconnectEvent : Type 0 where
  pub peer_handle : ℕ
  pub remote_endpoint : Endpoint
  pub payload : ℕ

pub record ReceiveEvent : Type 0 where
  pub peer_handle : ℕ
  pub packet_data : Option Packet
  pub channel : ℕ

abbrev pub Handler : Type 0 → Type 0 → Type 0
Handler S E = E → Exec S (Unit {0})

-- The channel map is an association list with each channel once, in the order of insertion; the
-- code looks channels up and never walks the map.
pub record EventDispatcher (S : Type 0) : Type 0 where
  pub connect_handlers : List (Handler S ConnectEvent)
  pub disconnect_handlers : List (Handler S DisconnectEvent)
  pub receive_handlers : List (Handler S ReceiveEvent)
  pub channel_handlers : List (ℕ × List (Handler S ReceiveEvent))

-- `channelHandlers_.find(channel)`
unfoldable pub find : {H : Type 0} → ℕ → List (ℕ × List H) → Option (List H)
find c [] = none
find c ((k, hs) ∷ m) = if k == c then some hs else find c m

-- `channelHandlers_[channel].push_back(handler)`: a missing channel is inserted, with no handler.
unfoldable pub push_to : {H : Type 0} → ℕ → H → List (ℕ × List H) → List (ℕ × List H)
push_to c h [] = (c, h ∷ []) ∷ []
push_to c h ((k, hs) ∷ m) = if k == c then (k, hs ++ h ∷ []) ∷ m else (k, hs) ∷ push_to c h m

-- A loop over handlers. An exception leaves the loop.
unfoldable pub call_all : {S E : Type 0} → List (Handler S E) → Handler S E
call_all [] v = pure tt
call_all (h ∷ hs) v = h v >> call_all hs v

module _ {S : Type 0} where
  unfoldable pub new : EventDispatcher S
  new = record {
    connect_handlers = [];
    disconnect_handlers = [];
    receive_handlers = [];
    channel_handlers = [];
  }

  unfoldable pub on_connect : Handler S ConnectEvent → EventDispatcher S → EventDispatcher S
  on_connect h d = record d { connect_handlers = d.connect_handlers ++ h ∷ [] }

  unfoldable pub on_disconnect : Handler S DisconnectEvent → EventDispatcher S → EventDispatcher S
  on_disconnect h d = record d { disconnect_handlers = d.disconnect_handlers ++ h ∷ [] }

  unfoldable pub on_receive : Handler S ReceiveEvent → EventDispatcher S → EventDispatcher S
  on_receive h d = record d { receive_handlers = d.receive_handlers ++ h ∷ [] }

  unfoldable pub on_receive_channel :
      ℕ → Handler S ReceiveEvent → EventDispatcher S → EventDispatcher S
  unfolding push_to
  on_receive_channel c h d = record d { channel_handlers = push_to c h d.channel_handlers }

  unfoldable pub clear_handlers : EventDispatcher S → EventDispatcher S
  clear_handlers d = record d {
    connect_handlers = [];
    disconnect_handlers = [];
    receive_handlers = [];
    channel_handlers = [];
  }

  unfoldable pub dispatch_connect : EventDispatcher S → Handler S ConnectEvent
  dispatch_connect d v = call_all d.connect_handlers v

  unfoldable pub dispatch_disconnect : EventDispatcher S → Handler S DisconnectEvent
  dispatch_disconnect d v = call_all d.disconnect_handlers v

  unfoldable pub dispatch_receive : EventDispatcher S → Handler S ReceiveEvent
  dispatch_receive d v = do
    call_all d.receive_handlers v
    elim (find v.channel d.channel_handlers) [ none ↦ pure tt | some hs ↦ call_all hs v ]
