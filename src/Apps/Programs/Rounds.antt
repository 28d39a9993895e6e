-- ===== src/Apps/Programs/Rounds.antt =====
-- The `main` of examples/basic/sync_example.cpp. Its handlers and its loops stand in Apps/Sync.
pub mod Ends
use icelander.Prelude.{ℕ, Bool, true, false, Option, none, some, if◌then◌else◌, Error}
use icelander.Types.{Endpoint, default_config}
use icelander.Apps.Programs.{
  Outside, Service, not_initialized, finished, failed, Process, Run, done, thrown, terminated,
  misused, Act, ◌>>=◌, ◌>>◌, pure, throw_if, catching, report, initialize, deinitialize, create,
  destroy, holding,
}
use icelander.Apps.Programs.Echoes.{localhost, Main}

abbrev pub sync_endpoint : Endpoint
sync_endpoint = record { host = localhost; port = 12346 }

-- The `try` block, from `connect` to the end of the second loop, `rounds` what the loops and
-- `disconnect` throw.
unfoldable pub communicate : Outside → Option Error → Main (Unit {0})
communicate o rounds = do throw_if (o.connects 0 sync_endpoint); throw_if rounds; report finished

-- The whole `try` block: both hosts are local.
unfoldable pub run_hosts : Outside → Option Error → Main (Unit {0})
unfolding create destroy communicate default_config
run_hosts o rounds = do
  server_host ← create (o.creates 0 (some sync_endpoint) default_config)
  holding server_host (do
    client_host ← create (o.creates 1 none default_config)
    holding client_host (communicate o rounds)
    destroy client_host)
  destroy server_host

unfoldable pub sync_main : Outside → Option Error → Main ℕ
unfolding initialize deinitialize run_hosts
sync_main o rounds = do
  ready ← initialize o.starts
  if ready
      then (do
        failure ←
            catching (run_hosts o rounds >> pure false)
              (λ x. report (failed x) >> deinitialize >> pure true)
        if failure then pure 1 else (deinitialize >> pure 0))
      else (report not_initialized >> pure 1)
