-- ===== src/Examples/Syncs.antt =====
-- Runs of examples/basic/sync_example.cpp over a small ENet that keeps a list of its hosts.
use icelander.Prelude.{
  ℕ, zero, suc, arith, ◌+◌, ◌==◌, ◌≡◌, refl, List, [], ◌∷◌, Option, none, some, false,
  if◌then◌else◌, ℤ, pos, negsuc,
}
use icelander.Types.{EventType, PeerState}
use icelander.Enet.{Enet, NativePeer, NativeEvent}
use icelander.Library
use icelander.Apps.Sync.Kept.{Keeps}
use icelander.Apps.Sync.Main.{sync_main}
use icelander.Apps.Sync.Created.{HostLaws}
use icelander.Apps.Sync.Closed.{hosts_closed}

-- At most `room` more hosts can be made.
record World : Type 0 where
  hosts : List ℕ
  next : ℕ
  room : ℕ
  inbox : List NativeEvent

abbrev nobody : NativePeer
nobody = record {
  address = record { host = 1; port = 2 };
  state = PeerState.connected;
  round_trip_time = 0;
}

abbrev no_event : NativeEvent
no_event = record { kind = EventType.none; peer = 0; channel_id = 0; payload = 0; packet = none }

abbrev arrival : NativeEvent
arrival = record no_event { kind = EventType.connect }

abbrev host_create : World → Option ℕ × World
host_create w = elim w.room [
  | zero ↦ (none, w)
  | suc n ↦ (some w.next, record w { hosts = w.next ∷ w.hosts; next = w.next + 1; room = n })
]

abbrev host_destroy : ℕ → World → World
host_destroy h w = elim w.hosts [
  | [] ↦ w
  | g ∷ rest ↦ if h == g then record w { hosts = rest } else w
]

abbrev host_service : World → ℤ × NativeEvent × World
host_service w = elim w.inbox [
  | [] ↦ (pos 0, no_event, w)
  | v ∷ rest ↦ (pos 1, v, record w { inbox = rest })
]

-- An ENet whose packets cannot be made.
abbrev little : Enet
little = record {
  World = World;
  version = 0;
  initialize = λ w. (pos 0, w);
  deinitialize = λ w. w;
  flag_value = λ f. 0;
  packet_at = λ w a. none;
  packet_create = λ bs fl w. (none, w);
  packet_destroy = λ a w. w;
  packet_resize = λ a n w. (negsuc 0, w);
  address_set_host = λ name w. (pos 0, 1, w);
  address_get_host = λ a n w. (pos 0, 0x61 ∷ [], w);
  peer_at = λ w p. some nobody;
  peer_send = λ p c a w. (pos 0, w);
  peer_disconnect = λ p d w. w;
  peer_disconnect_now = λ p d w. w;
  peer_disconnect_later = λ p d w. w;
  peer_ping = λ p w. w;
  peer_timeout = λ p a b c w. w;
  peer_reset = λ p w. w;
  host_create = λ a p c i o w. host_create w;
  host_compress_with_range_coder = λ h w. w;
  host_destroy = host_destroy;
  host_connect = λ h a c d w. (some 0, w);
  host_service = λ h t w. host_service w;
  host_flush = λ h w. w;
  host_broadcast = λ h c a w. w;
}

destroyed_lem : (h : ℕ) (hs : List ℕ) (w : World) → w.hosts ≡ h ∷ hs → (host_destroy h w).hosts ≡ hs
destroyed_lem h hs w q = rw (q, host_destroy) (ground arith)

little_laws : HostLaws little (λ w. w.hosts)
little_laws = record {
  made = λ a p c i o w h q. made_lem w h q;
  refused = λ a p c i o w q. refused_lem w q;
  destroyed = destroyed_lem;
  started = λ w. refl;
  stopped = λ w. refl;
  steady = λ hs. record {
    created = λ bs fl w q. q;
    freed = λ a w q. q;
    resolved = λ name w q. q;
    named = λ a w q. q;
    sent = λ p c a w q. q;
    left = λ p d w q. q;
    joined = λ h a c d w q. q;
    serviced = λ h t w q. serviced_lem w q;
  };
}
  where
    made_lem :
        (w : World) (h : ℕ) → (host_create w).0 ≡ some h → (host_create w).1.hosts ≡ h ∷ w.hosts
    made_lem w h q = ground arith

    refused_lem : (w : World) → (host_create w).0 ≡ none → (host_create w).1.hosts ≡ w.hosts
    refused_lem w q = ground arith

    serviced_lem : {hs : List ℕ} (w : World) → w.hosts ≡ hs → (host_service w).2.hosts ≡ hs
    serviced_lem w q = ground arith

-- One host of the process is there before, there is room for both, and a client connects, to which the
-- greeting cannot be sent.
abbrev start : Library.State little
start = record {
  initialized = false;
  world = record { hosts = 7 ∷ []; next = 8; room = 2; inbox = arrival ∷ [] };
}

hosts_closed_example :
    Keeps {A = ℕ} (λ s. (s.world.hosts ≡ 7 ∷ []) × (s.initialized ≡ false)) (sync_main little start)
hosts_closed_example = hosts_closed little (λ w. w.hosts) little_laws start refl
