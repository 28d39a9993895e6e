-- ===== src/Examples/Wrappers.antt =====
-- Library, Endpoint, EventDispatcher and Peer on the sample ENet, or on an ENet that refuses.
use icelander.Prelude.{
  ℕ, ◌+◌, ◌-◌, ◌≡◌, refl, List, [], ◌∷◌, ◌++◌, none, some, false, done, pos, negsuc, ◌>>=◌, arith,
}
use icelander.Types.{Endpoint, EventType, connected}
use icelander.Enet.{PacketLaws, Enet, NativePacket, NativePeer}
use icelander.Enet.Sample.{World, sample, sample_laws}
use icelander.Library
use icelander.Endpoint.{to_enet_address, from_enet_address, from_enet_address-to_enet_address}
use icelander.Peer.{Peer, state, deref}
use icelander.Dispatcher.{
  ConnectEvent, DisconnectEvent, ReceiveEvent, Handler, call_all, dispatch_connect,
  dispatch_disconnect, dispatch_receive,
}
use icelander.Dispatcher.Order
use icelander.Dispatcher.Order.{Call, dispatch-built}

abbrev letter : NativePacket
letter = record { reference_count = 0; flags = 1; contents = 5 ∷ [] }

abbrev far : NativePeer
far = record { address = record { host = 3; port = 80 }; state = connected; round_trip_time = 7 }

abbrev world : World
world = record { heap = some letter ∷ []; peers = far ∷ []; inbox = [] }

-- An ENet that counts how often it was initialized.
abbrev counting : Enet
counting = record {
  World = ℕ;
  version = 0;
  initialize = λ n. (pos 0, n + 1);
  deinitialize = λ n. n - 1;
  flag_value = λ f. 0;
  packet_at = λ w a. none;
  packet_create = λ bs fl w. (none, w);
  packet_destroy = λ a w. w;
  packet_resize = λ a n w. (pos 0, w);
  address_set_host = λ s w. (pos 0, 0, w);
  address_get_host = λ a n w. (pos 0, [], w);
  peer_at = λ w p. none;
  peer_send = λ p c a w. (negsuc 0, w);
  peer_disconnect = λ p x w. w;
  peer_disconnect_now = λ p x w. w;
  peer_disconnect_later = λ p x w. w;
  peer_ping = λ p w. w;
  peer_timeout = λ p x y z w. w;
  peer_reset = λ p w. w;
  host_create = λ a p c i o w. (none, w);
  host_compress_with_range_coder = λ h w. w;
  host_destroy = λ h w. w;
  host_connect = λ h a c x w. (none, w);
  host_service = λ h t w. (
    pos 0,
    record { kind = EventType.none; peer = 0; channel_id = 0; payload = 0; packet = none },
    w,
  );
  host_flush = λ h w. w;
  host_broadcast = λ h c a w. w;
}

counting_laws : Library.CountLaws counting (λ n. n)
counting_laws = record { opens = λ w h. refl; fails = λ w h. cc; closes = λ w. refl }

abbrev closed : Library.State counting
closed = record { initialized = false; world = 0 }

abbrev calls : List (Library.Call counting)
calls = Library.initializes ∷ Library.initializes ∷ Library.deinitializes ∷ Library.initializes ∷ []

run-count_example :
    (Library.run counting calls closed).world
    ≡ Library.flag_count counting (Library.run counting calls closed).initialized
run-count_example = Library.run-count counting (λ n. n) counting_laws calls closed refl

-- The sample ENet resolves a name to its length and looks a number up as so many letters `a`.
abbrev aaa : Endpoint
aaa = record { host = 0x61 ∷ 0x61 ∷ 0x61 ∷ []; port = 8080 }

-- The sample, with a zero behind each name.
abbrev naming : Enet
naming = record sample { address_get_host = λ a n w. (pos 0, 0x61 ∷ 0x61 ∷ 0x61 ∷ 0 ∷ 9 ∷ [], w) }

from_enet_address-to_enet_address_example :
    (to_enet_address naming aaa >>= from_enet_address naming) world ≡ done aaa world
from_enet_address-to_enet_address_example =
    from_enet_address-to_enet_address naming aaa (9 ∷ []) world world world (pos 0) (pos 0) 3
      (omega arith) refl refl refl refl

abbrev friend : Peer
friend = record { native_peer = some 0; host = some 0; user_data = none }

friend_state : state sample friend world ≡ done connected world
unfolding state deref
friend_state = refl

-- The sample, refusing every packet.
abbrev refusing : Enet
refusing = record sample { peer_send = λ p c a w. (negsuc 0, w) }

refusing_packets : PacketLaws refusing
refusing_packets = record {
  created = sample_laws.created;
  created_fresh = sample_laws.created_fresh;
  created_others = sample_laws.created_others;
  destroyed = sample_laws.destroyed;
  destroyed_others = sample_laws.destroyed_others;
  resized = sample_laws.resized;
  resize_failed = sample_laws.resize_failed;
  resized_others = sample_laws.resized_others;
}

-- Handlers that note the number of the handler.
abbrev note : {E : Type 0} → ℕ → Handler (List ℕ) E
note k v log = done tt (log ++ k ∷ [])

abbrev registered : List (Call (List ℕ))
registered =
    Order.receives_on 4 (note 5)
    ∷ Order.receives (note 4)
    ∷ Order.receives_on 3 (note 3)
    ∷ Order.connects (note 2)
    ∷ Order.clears
    ∷ Order.receives (note 1)
    ∷ []

dispatch-built_example :
    ((v : ConnectEvent)
      → dispatch_connect (Order.built registered) v []
        ≡ call_all (Order.connect_list registered) v [])
    × ((v : DisconnectEvent)
        → dispatch_disconnect (Order.built registered) v []
          ≡ call_all (Order.disconnect_list registered) v [])
    × ((v : ReceiveEvent)
        → dispatch_receive (Order.built registered) v []
          ≡ call_all
              (Order.general_list registered ++ Order.channel_list v.channel registered)
              v
              [])
dispatch-built_example = dispatch-built registered []
