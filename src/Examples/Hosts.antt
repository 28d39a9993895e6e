-- ===== src/Examples/Hosts.antt =====
-- A host whose application keeps a log, on the sample ENet.
use icelander.Prelude.{
  get_elem?, ℕ, ◌≡◌, refl, ◌⊎◌, inl, inr, List, [], ◌∷◌, ◌++◌, Option, none, some, true, false,
  done, length, All, Leaves, after, arith, ◌==◌, if◌then◌else◌,
}
use icelander.Types.{EventType, connected}
use icelander.Enet.{NativePacket, NativePeer, NativeEvent}
use icelander.Enet.Sample.{sample}
use icelander.Peer.{Peer, native_handle}
use icelander.Dispatcher.{EventDispatcher, ConnectEvent, Handler, call_all, dispatch_connect}
use icelander.Host.Refs.{State}
use icelander.Host.Peers.{get_peers, peer_count, find_peer_by_native, has_native}
use icelander.Host.Events.{process_event}
use icelander.Host.Lookup.{live_of, get_peers_lem, retain_found}
use icelander.Host.Lookup.First.{IsFirst, find_peer_by_native-IsFirst}
use icelander.Host.Unheard.{connect_only, handlers_unheard}
use icelander.Host.Delivery.{process_all, connect_lost}
use icelander.Host.Unchanged.{Unchanged}

abbrev pub far : NativePeer
far = record { address = record { host = 3; port = 80 }; state = connected; round_trip_time = 7 }

abbrev pub near : NativePeer
near = record { address = record { host = 4; port = 81 }; state = connected; round_trip_time = 9 }

abbrev pub letter : NativePacket
letter = record { reference_count = 0; flags = 1; contents = 5 ∷ [] }

-- Object 0 wraps ENet peer 0 and is gone; object 1 wraps ENet peer 1 and is held once.
abbrev pub host : State sample (List ℕ)
host = record {
  world = record { heap = some letter ∷ []; peers = far ∷ near ∷ []; inbox = [] };
  native_host = some 0;
  is_server = true;
  peers = 0 ∷ 1 ∷ [];
  objects =
      record { native_peer = some 0; host = some 0; user_data = none }
      ∷ record { native_peer = some 1; host = some 0; user_data = none }
      ∷ [];
  strong = λ i. if i == 1 then 1 else 0;
  app = [];
}

abbrev pub note : {E : Type 0} → ℕ → Handler (State sample (List ℕ)) E
note k v s = done tt (record s { app = s.app ++ k ∷ [] })

abbrev pub noting : EventDispatcher (State sample (List ℕ))
noting = record {
  connect_handlers = note 1 ∷ [];
  disconnect_handlers = note 2 ∷ [];
  receive_handlers = note 3 ∷ [];
  channel_handlers = [];
}

noting_keeps_nothing :
    (v : ConnectEvent) (p : Peer) (s : State sample (List ℕ))
    → get_elem? s.objects v.peer_handle ≡ some p
    → Leaves (Unchanged s) (dispatch_connect noting v s)
unfolding dispatch_connect call_all
noting_keeps_nothing v p s there = record {
  same_peers = refl;
  same_objects = refl;
  same_strong = refl;
}

find_peer_by_native-IsFirst_example :
    let (found, t) = find_peer_by_native 1 host in
    IsFirst host.objects 1 (live_of host.strong host.peers) found
    × (t ≡ record host {
      peers = live_of host.strong host.peers;
      strong = retain_found found host.strong;
    })
find_peer_by_native-IsFirst_example = find_peer_by_native-IsFirst 1 host

get_peers_lem_example :
    ((get_peers host).0 ≡ 1 ∷ [])
    × ((get_peers host).1.peers ≡ (get_peers host).0)
    × (peer_count host ≡ length (get_peers host).0)
    × (peer_count (get_peers host).1 ≡ peer_count host)
get_peers_lem_example = get_peers_lem host

abbrev pub event : EventType → ℕ → Option ℕ → NativeEvent
event k p a = record { kind = k; peer = p; channel_id = 0; payload = 0; packet = a }

host_missing : All (λ i. (host.strong i ≡ 0) ⊎ (has_native host.objects 0 i ≡ false)) host.peers
unfolding has_native native_handle
host_missing = (inl refl, (inr refl, tt))

abbrev packets : List NativeEvent
packets = event EventType.receive 0 (some 0) ∷ event EventType.receive 0 none ∷ []

connect_lost_example :
    (t u : State sample (List ℕ)) × (after
        (process_event sample noting (event EventType.connect 0 none) host)
      ≡ some t)
    × (process_all sample noting packets t ≡ done tt u)
    × (u.world ≡ t.world)
    × (u.app ≡ t.app)
connect_lost_example =
    connect_lost sample noting (event EventType.connect 0 none) packets far host refl
      ((refl, refl), ((refl, refl), tt)) noting_keeps_nothing refl (omega arith) host_missing

-- The host with no reference to either object.
abbrev forgetful : State sample (List ℕ)
forgetful = record host { strong = λ i. 0 }

abbrev visit : List NativeEvent
visit =
    event EventType.connect 0 none
    ∷ event EventType.receive 0 (some 0)
    ∷ event EventType.disconnect 0 none
    ∷ []

handlers_unheard_example :
    process_all sample (connect_only noting) visit forgetful
    ≡ process_all sample noting visit forgetful
handlers_unheard_example =
    handlers_unheard sample noting visit forgetful noting_keeps_nothing (λ j. refl)
