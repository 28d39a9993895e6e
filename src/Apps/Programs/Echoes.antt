-- ===== src/Apps/Programs/Echoes.antt =====
-- The `main`s of examples/networking/async_server.cpp and async_client.cpp. Their handlers and the loop
-- over the input stand in Apps/Echo.
pub mod Ends
use icelander.Prelude.{
  ℕ, ◌≡◌, refl, ◌≢◌, Bool, true, false, List, [], ◌∷◌, Option, none, some, if◌then◌else◌, Error,
  arith,
}
use icelander.Types.{Endpoint, HostConfig, default_config}
use icelander.Apps.Programs.{
  Outside, Service, Report, not_initialized, finished, failed, Process, Run, done, thrown,
  terminated, misused, Act, ◌>>=◌, ◌>>◌, pure, throw_if, catching, start_service_thread,
  stop_service_thread, is_serving, start, report, initialize, deinitialize, create, destroy,
  holding, start_scheduler, stop_scheduler,
}

-- "localhost"
abbrev pub localhost : List ℕ
localhost = 0x6c ∷ 0x6f ∷ 0x63 ∷ 0x61 ∷ 0x6c ∷ 0x68 ∷ 0x6f ∷ 0x73 ∷ 0x74 ∷ []

abbrev pub echo_endpoint : Endpoint
echo_endpoint = record { host = localhost; port = 12345 }

abbrev pub server_config : HostConfig
unfolding default_config
server_config = record default_config {
  max_peers = 32;
  max_channels = 2;
  enable_compression = true;
}

abbrev pub client_config : HostConfig
unfolding default_config
client_config = record default_config { max_peers = 1; max_channels = 2 }

abbrev pub Main : Type 0 → Type 0
Main B = Act (Process (Unit {0})) B

-- The `try` block of the server; `std::cin.get()` returns.
unfoldable pub serve : Outside → Main (Unit {0})
unfolding create destroy start_service_thread stop_service_thread start_scheduler stop_scheduler
serve o = do
  server_host ← create (o.creates 0 (some echo_endpoint) server_config)
  start_scheduler
  served ← start_service_thread (o.crashes 0) server_host
  let stopped = stop_service_thread served
  stop_scheduler o.stops
  destroy stopped

-- The `try` block of the client, `talks` what the loop over the input throws.
unfoldable pub converse : Outside → Option Error → Main (Unit {0})
unfolding create destroy start_service_thread stop_service_thread start_scheduler stop_scheduler
converse o talks = do
  client_host ← create (o.creates 0 none client_config)
  holding client_host (throw_if (o.connects 0 echo_endpoint))
  start_scheduler
  served ← start_service_thread (o.crashes 0) client_host
  holding served (throw_if talks)
  let stopped = stop_service_thread served
  stop_scheduler o.stops
  destroy stopped

-- What both `main`s do around their `try` block.
unfoldable pub run_main : Bool → Main (Unit {0}) → Main ℕ
unfolding initialize deinitialize
run_main starts body = do
  ready ← initialize starts
  if ready
      then (do
        failure ←
            catching (body >> pure false) (λ x. report (failed x) >> deinitialize >> pure true)
        if failure then pure 1 else (deinitialize >> report finished >> pure 0))
      else (report not_initialized >> pure 1)

unfoldable pub server_main : Outside → Main ℕ
unfolding run_main serve
server_main o = run_main o.starts (serve o)

unfoldable pub client_main : Outside → Option Error → Main ℕ
unfolding run_main converse
client_main o talks = run_main o.starts (converse o talks)
