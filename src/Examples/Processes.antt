-- ===== src/Examples/Processes.antt =====
-- The example programs, each in a network where one call throws.
use icelander.Prelude.{
  ◌≡◌, refl, true, false, [], ◌∷◌, none, some, connect_failed, client_create_failed, if◌then◌else◌,
  ◌==◌,
}
use icelander.Apps.Programs.{Outside, failed, finished, done, start, exit_process}
use icelander.Apps.Programs.Demo
use icelander.Apps.Programs.Demo.{Demo}
use icelander.Apps.Programs.Bench
use icelander.Apps.Programs.Bench.{bench_main}
use icelander.Apps.Programs.Bench.Ends.{bench_ends}

abbrev fine : Outside
fine = record {
  starts = true;
  creates = λ i p c. none;
  connects = λ i p. none;
  crashes = λ i. false;
  stops = true;
}

-- A network in which the third `connect` fails, and one without a second host.
abbrev two_peers : Outside
two_peers = record fine { connects = λ i p. if i == 2 then some connect_failed else none }

abbrev one_host : Outside
one_host = record fine { creates = λ i p c. if i == 1 then some client_create_failed else none }

bench_ends_example :
    exit_process (bench_main one_host true none none none (start Bench.fresh))
    ≡ done 0 (record (start Bench.fresh) { reports = failed client_create_failed ∷ finished ∷ [] })
bench_ends_example = bench_ends one_host true none none none (λ i. refl)
