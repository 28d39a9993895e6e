-- ===== src/Apps/Programs/Demo.antt =====
-- The life of the NetworkingDemo of examples/advanced/comprehensive_example.cpp. Its handlers and tasks
-- and the first loop of `cleanup` stand in Apps/Chat.
pub mod Cleanup
pub mod Ends
use icelander.Prelude.{
  ℕ, zero, suc, ◌+◌, Bool, true, false, List, [], ◌∷◌, ◌++◌, map, Option, none, some, if◌then◌else◌,
  Error,
}
use mathlib.Core.Option
use icelander.Types.{Endpoint, HostConfig, default_config}
use icelander.Apps.Programs.{
  Outside, Service, not_initialized, finished, failed, Process, Run, done, thrown, terminated,
  misused, Act, ◌>>=◌, ◌>>◌, pure, throw_if, terminate_if, catching, start_service_thread,
  stop_service_thread, report, initialize, deinitialize, create, destroy, reset, holding,
  start_scheduler, stop_scheduler,
}
use icelander.Apps.Programs.Echoes.{localhost}

abbrev pub demo_endpoint : Endpoint
demo_endpoint = record { host = localhost; port = 12347 }

abbrev pub server_config : HostConfig
unfolding default_config
server_config = record default_config {
  max_peers = 10;
  max_channels = 3;
  enable_compression = true;
}

abbrev pub client_config : HostConfig
unfolding default_config
client_config = record default_config { max_peers = 1; max_channels = 3 }

abbrev pub num_clients : ℕ
num_clients = 3

-- `running_`, `server_host_` and `client_hosts_`; a Peer keeps no host alive.
pub record Members : Type 0 where
  pub running : Bool
  pub server_host : Option Service
  pub client_hosts : List Service

abbrev pub fresh : Members
fresh = record { running = false; server_host = none; client_hosts = [] }

abbrev pub Demo : Type 0
Demo = Process Members

abbrev pub change : (Members → Members) → Act Demo (Unit {0})
change f s = done tt (record s { members = f s.members })

unfoldable pub setup_server : Outside → Act Demo (Unit {0})
unfolding create start_service_thread
setup_server o = do
  server_host ← create (o.creates 0 (some demo_endpoint) server_config)
  served ← start_service_thread (o.crashes 0) server_host
  change (λ m. record m { server_host = some served })

-- One round of the loop: the local reference goes over into the vector.
unfoldable pub setup_client : Outside → ℕ → Act Demo (Unit {0})
unfolding create destroy start_service_thread
setup_client o i = do
  client_host ← create (o.creates (suc i) none client_config)
  served ← start_service_thread (o.crashes (suc i)) client_host
  holding served (throw_if (o.connects i demo_endpoint))
  change (λ m. record m { client_hosts = m.client_hosts ++ served ∷ [] })

unfoldable pub setup_clients : Outside → ℕ → ℕ → Act Demo (Unit {0})
setup_clients o i zero = pure tt
setup_clients o i (suc n) = setup_client o i >> setup_clients o (suc i) n

-- `tasks` is what one of the two tasks throws on its worker; `stop`, if it returns, does so once they are
-- done.
unfoldable pub run_communication_demo : Outside → Option Error → Act Demo (Unit {0})
unfolding start_scheduler stop_scheduler
run_communication_demo o tasks = do
  start_scheduler
  change (λ m. record m { running = true })
  terminate_if tasks
  change (λ m. record m { running = false })
  stop_scheduler o.stops

unfoldable pub destroy_all : List Service → Act Demo (Unit {0})
destroy_all [] = pure tt
destroy_all (h ∷ hs) = destroy h >> destroy_all hs

-- `cleanup` from the second loop on.
unfoldable pub cleanup : Act Demo (Unit {0})
unfolding stop_service_thread
cleanup s =
    (do
      let client_hosts = map stop_service_thread s.members.client_hosts
      let server_host = Option.map stop_service_thread s.members.server_host
      destroy_all client_hosts
      change (λ m. record m { client_hosts = [] })
      reset server_host
      change (λ m. record m { server_host = none }))
      s

-- `runDemo` once the library is initialized.
unfoldable pub run_open : Outside → Option Error → Act Demo (Unit {0})
run_open o tasks = do
  catching (setup_server o >> setup_clients o 0 num_clients >> run_communication_demo o tasks)
      (λ x. report (failed x))
  cleanup
  deinitialize
  report finished

unfoldable pub run_demo : Outside → Option Error → Act Demo (Unit {0})
unfolding initialize
run_demo o tasks = do
  ready ← initialize o.starts
  if ready then run_open o tasks else report not_initialized

-- `main`
unfoldable pub demo_main : Outside → Option Error → Act Demo ℕ
unfolding run_demo
demo_main o tasks = run_demo o tasks >> pure 0
