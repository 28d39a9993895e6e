-- ===== src/Examples/Events.antt =====
-- The host of Hosts.antt handles events of a peer whose object is alive, connects, searches by
-- endpoint and broadcasts.
use icelander.Prelude.{
  true, ℕ, ◌≡◌, refl, ◌⊎◌, inl, inr, List, [], ◌∷◌, some, false, done, All, Leaves, arith, ◌>>=◌,
  ◌==◌, if◌then◌else◌, replicate,
}
use icelander.Types.{HostConfig, Endpoint, EventType}
use icelander.Enet.{NativeEvent}
use icelander.Enet.Sample.{sample, sample_laws}
use icelander.Endpoint.{to_enet_address, from_enet_address, c_string}
use icelander.Peer
use icelander.Dispatcher
use icelander.Dispatcher.{call_all, find, dispatch_connect, dispatch_disconnect, dispatch_receive}
use icelander.Host.Refs.{State}
use icelander.Host.Peers.{first_native, has_native, find_peer_by_native, find_peer}
use icelander.Host.Events.{process_event}
use icelander.Host.Calls.{connect}
use icelander.Apps.Handlers.Laws.{open_reader_live}
use icelander.Apps.Echo.{Line, client_dispatcher, on_receive_client, on_disconnect_client, print}
use icelander.Host.Balance.{Gentle, IsEvent, process_event_balanced}
use icelander.Host.Connect.{connect_found}
use icelander.Host.Search.{first_at, IsKnown, find_peer_lem}
use icelander.Host.Lookup.{retain_found}
use icelander.Examples.Hosts.{near, letter, host, event}

abbrev arrival : NativeEvent
arrival = event EventType.receive 1 (some 0)

found_alive : first_native host.objects 1 (1 ∷ []) ≡ some 1
unfolding first_native has_native Peer.native_handle
found_alive = refl

-- The client of async_client.cpp on the same connection.
abbrev talking : State sample (List Line)
talking = record {
  world = host.world;
  native_host = host.native_host;
  is_server = false;
  peers = host.peers;
  objects = host.objects;
  strong = host.strong;
  app = [];
}

client-Gentle : Gentle sample (client_dispatcher sample)
unfolding dispatch_connect dispatch_disconnect dispatch_receive call_all find client_dispatcher
    on_receive_client on_disconnect_client print Dispatcher.on_disconnect Dispatcher.on_receive
    Dispatcher.new
client-Gentle = record {
  connects = λ v p s there. record { same_peers = refl; same_objects = refl; same_strong = refl };
  disconnects =
      λ v p s there. record { same_peers = refl; same_objects = refl; same_strong = refl };
  receives = λ i a channel p s there (n, alive).
      rw (open_reader_live sample sample_laws a n s alive, ◌>>=◌)
        (record { same_peers = refl; same_objects = refl; same_strong = refl }, (n, alive));
}

arrival_there : IsEvent sample (client_dispatcher sample) arrival talking
arrival_there = record { peer_there = (near, refl); packet_there = λ a q. (letter, ground arith) }

process_event_balanced_example :
    Leaves
      (λ t. t.strong ≡ talking.strong)
      (process_event sample (client_dispatcher sample) arrival talking)
process_event_balanced_example =
    process_event_balanced sample (client_dispatcher sample) arrival talking client-Gentle
      arrival_there (λ j h. ground arith)

abbrev away : Endpoint
away = record { host = 0x61 ∷ 0x61 ∷ []; port = 80 }

away_resolved :
    to_enet_address sample away host.world ≡ done (record { host = 2; port = 80 }) host.world
unfolding to_enet_address c_string
away_resolved = refl

nobody_there : All (λ i. (host.strong i ≡ 0) ⊎ (has_native host.objects 0 i ≡ false)) host.peers
unfolding has_native Peer.native_handle
nobody_there = (inl refl, (inr refl, tt))

connect_found_example :
    (i : ℕ) × (t : State sample (List ℕ)) × (connect sample away 2 0 host ≡ done i t)
    × (t.strong i ≡ 1)
    × ((find_peer_by_native 0 t).0 ≡ some i)
connect_found_example =
    connect_found away 2 0 0 0 (record { host = 2; port = 80 }) host.world host.world host refl
      away_resolved refl (omega arith) nobody_there

abbrev addresses : ℕ → Endpoint
addresses i = record {
  host = replicate (if i == 1 then 4 else 3) 0x61;
  port = if i == 1 then 81 else 80;
}

addresses-IsKnown : IsKnown sample addresses host.objects host.world host.peers
unfolding Peer.endpoint Peer.deref from_enet_address c_string
addresses-IsKnown = ((_, refl, refl), ((_, refl, refl), tt))

find_peer_lem_example :
    find_peer sample (addresses 1) host
    ≡ done (first_at addresses (addresses 1) (1 ∷ [])) (record host {
      peers = 1 ∷ [];
      strong = retain_found (first_at addresses (addresses 1) (1 ∷ [])) host.strong;
    })
find_peer_lem_example = find_peer_lem sample addresses (addresses 1) host addresses-IsKnown

abbrev config : HostConfig
config = record {
  max_peers = 4;
  max_channels = 2;
  incoming_bandwidth = 0;
  outgoing_bandwidth = 0;
  enable_compression = true;
  service_timeout = 10;
}

abbrev no_log : List ℕ
no_log = []
