-- ===== src/Apps/Programs/Bench.antt =====
-- The life of the PerformanceBenchmark of examples/advanced/performance_benchmark.cpp. Its handlers and
-- its loops stand in Apps/Benchmark, what it prints in Apps/Benchmark/Rates.
pub mod Ends
use mathlib.Core.Option
use icelander.Prelude.{
  ℕ, Bool, true, false, Option, none, some, if◌then◌else◌, Error, not_established,
}
use icelander.Types.{Endpoint, HostConfig, default_config}
use icelander.Apps.Programs.{
  Outside, Service, not_initialized, finished, failed, Process, Run, done, thrown, terminated,
  misused, Act, ◌>>=◌, ◌>>◌, pure, throw_if, terminate_if, catching, start_service_thread,
  stop_service_thread, report, initialize, deinitialize, create, reset,
}
use icelander.Apps.Programs.Echoes.{localhost}

abbrev pub bench_endpoint : Endpoint
bench_endpoint = record { host = localhost; port = 12348 }

-- of the server and of the client
abbrev pub host_config : HostConfig
unfolding default_config
host_config = record default_config { max_peers = 1; max_channels = 1; enable_compression = false }

-- `server_host_` and `client_host_`; a Peer keeps no host alive.
pub record Members : Type 0 where
  pub server_host : Option Service
  pub client_host : Option Service

abbrev pub fresh : Members
fresh = record { server_host = none; client_host = none }

abbrev pub Bench : Type 0
Bench = Process Members

abbrev pub change : (Members → Members) → Act Bench (Unit {0})
change f s = done tt (record s { members = f s.members })

-- What `isConnected` answers half a second after `connect`.
abbrev pub unless_established : Bool → Option Error
unless_established true = none
unless_established false = some not_established

unfoldable pub setup_networking : Outside → Bool → Act Bench (Unit {0})
unfolding create start_service_thread
setup_networking o established = do
  server_host ← create (o.creates 0 (some bench_endpoint) host_config)
  change (λ m. record m { server_host = some server_host })
  client_host ← create (o.creates 1 none host_config)
  change (λ m. record m { client_host = some client_host })
  server_served ← start_service_thread (o.crashes 0) server_host
  change (λ m. record m { server_host = some server_served })
  client_served ← start_service_thread (o.crashes 1) client_host
  change (λ m. record m { client_host = some client_served })
  throw_if (o.connects 0 bench_endpoint)
  throw_if (unless_established established)

-- What the sender of the throughput test throws leaves the function of its thread; the loops of the
-- other tests run in the thread of `main`.
unfoldable pub run_tests : Option Error → Option Error → Option Error → Act Bench (Unit {0})
run_tests sender pings burst = do terminate_if sender; throw_if pings; throw_if burst

-- `cleanup` from the first `stopServiceThread` on.
unfoldable pub cleanup : Act Bench (Unit {0})
cleanup s =
    (do
      let client_host = Option.map stop_service_thread s.members.client_host
      let server_host = Option.map stop_service_thread s.members.server_host
      reset client_host
      change (λ m. record m { client_host = none })
      reset server_host
      change (λ m. record m { server_host = none }))
      s

-- `runBenchmark` once the library is initialized.
unfoldable pub run_open :
    Outside → Bool → Option Error → Option Error → Option Error → Act Bench (Unit {0})
run_open o established sender pings burst = do
  catching (setup_networking o established >> run_tests sender pings burst) (λ x. report (failed x))
  cleanup
  deinitialize
  report finished

unfoldable pub run_benchmark :
    Outside → Bool → Option Error → Option Error → Option Error → Act Bench (Unit {0})
unfolding initialize
run_benchmark o established sender pings burst = do
  ready ← initialize o.starts
  if ready then run_open o established sender pings burst else report not_initialized

-- `main`
unfoldable pub bench_main :
    Outside → Bool → Option Error → Option Error → Option Error → Act Bench ℕ
unfolding run_benchmark
bench_main o established sender pings burst =
    run_benchmark o established sender pings burst >> pure 0
