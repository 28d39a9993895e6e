-- ===== src/Examples/Servers.antt =====
-- The servers of the example programs before anyone has connected.
use icelander.Prelude.{◌≡◌, refl, List, [], ◌∷◌, none, some, true}
use icelander.Types.{EventType}
use icelander.Enet.{NativeEvent}
use icelander.Enet.Sample.{World, sample, sample_laws}
use icelander.Host.Refs.{State}
use icelander.Host.Delivery.{process_all}
use icelander.Host.Unheard.{connect_only}
use icelander.Apps.Benchmark
use icelander.Apps.Echo
use icelander.Apps.Sync
use icelander.Apps.Unheard.{servers_unheard}
use icelander.Examples.Platforms.{little_machine}
use icelander.Examples.Hosts.{far, letter, event}
use icelander.Examples.Benchmarks.{counters}

abbrev world : World
world = record { heap = some letter ∷ []; peers = far ∷ []; inbox = [] }

abbrev created : {A : Type 0} → A → State sample A
created app = record {
  world = world;
  native_host = some 0;
  is_server = true;
  peers = [];
  objects = [];
  strong = λ i. 0;
  app = app;
}

-- A client connects, sends a packet, and leaves.
abbrev visit : List NativeEvent
visit =
    event EventType.connect 0 none
    ∷ event EventType.receive 0 (some 0)
    ∷ event EventType.disconnect 0 none
    ∷ []

servers_unheard_example :
    (process_all sample (Echo.server_dispatcher sample) visit (created [])
      ≡ process_all sample (connect_only (Echo.server_dispatcher sample)) visit (created []))
    × (process_all sample (Sync.server_dispatcher sample) visit (created [])
        ≡ process_all sample (connect_only (Sync.server_dispatcher sample)) visit (created []))
    × (process_all sample
          (Benchmark.server_dispatcher ⦃m = little_machine⦄ sample)
          visit
          (created counters)
        ≡ process_all sample
            (connect_only (Benchmark.server_dispatcher ⦃m = little_machine⦄ sample))
            visit
            (created counters))
servers_unheard_example =
    servers_unheard sample sample_laws ⦃m = little_machine⦄ visit (created []) (created [])
      (created counters) (λ j. refl) (λ j. refl) (λ j. refl)
