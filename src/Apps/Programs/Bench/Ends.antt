-- ===== src/Apps/Programs/Bench/Ends.antt =====
-- How the process of examples/advanced/performance_benchmark.cpp ends.
use icelander.Prelude.{
  ℕ, ◌+◌, ◌-◌, ◌≡◌, refl, Bool, true, false, List, [], ◌∷◌, ◌++◌, Option, none, some, Error,
  Option-cases, Bool-cases, inl, inr, arith,
}
use icelander.Apps.Programs.{
  Outside, Report, not_initialized, finished, failed, Run, done, thrown, terminated, start, ◌>>=◌,
  ◌>>◌, pure, exit_process, deinitialize, report,
}
use icelander.Apps.Programs.Failures.{first_failure}
use icelander.Apps.Programs.Resets.{held, reset_stopped}
use icelander.Apps.Programs.Bench.{
  bench_endpoint, host_config, fresh, Bench, unless_established, setup_networking, run_tests,
  run_open, cleanup, bench_main,
}

-- Every host that was made is a member, and none was lost.
record IsUp (s : Bench) : Type 0 where
  ready : s.initialized ≡ true
  owned : s.live ≡ held s.members.client_host + held s.members.server_host
  quiet : s.scheduler ≡ false
  care : s.careless ≡ false
  unreported : s.reports ≡ []

abbrev Sets : Option Error → Run Bench (Unit {0}) → Type 0
Sets none r = (t : Bench) × (r ≡ done tt t) × IsUp t
Sets (some x) r = (t : Bench) × (r ≡ thrown x t) × IsUp t

abbrev opened : Bench
opened = record (start fresh) { initialized = true }

setup_lem :
    (o : Outside) (established : Bool)
    → ((i : ℕ) → o.crashes i ≡ false)
    → Sets
        (first_failure (
          o.creates 0 (some bench_endpoint) host_config
          ∷ o.creates 1 none host_config
          ∷ o.connects 0 bench_endpoint
          ∷ unless_established established
          ∷ []))
        (setup_networking o established opened)
unfolding setup_networking
setup_lem o established calm = elim (Option-cases (o.creates 0 (some bench_endpoint) host_config)) [
  | inr (x, failure) ↦ rw (failure) (_, refl, ground arith)
  | inl made ↦ elim (Option-cases (o.creates 1 none host_config)) [
    | inr (x, failure) ↦ rw (made, failure) (_, refl, ground arith)
    | inl second ↦ elim (Option-cases (o.connects 0 bench_endpoint)) [
      | inr (x, failure) ↦ rw (made, second, calm 0, calm 1, failure) (_, refl, ground arith)
      | inl connected ↦ elim (Bool-cases established) [
        | inl e ↦ rw (made, second, calm 0, calm 1, connected, e) (_, refl, ground arith)
        | inr e ↦ rw (made, second, calm 0, calm 1, connected, e) (_, refl, ground arith)
      ]
    ]
  ]
]

cleanup_lem :
    (s : Bench)
    → s.live ≡ held s.members.client_host + held s.members.server_host
    → cleanup s ≡ done tt (record s { live = 0; members = fresh })
unfolding cleanup
cleanup_lem s h =
    let t : Bench = record s {
      live = s.live - held s.members.client_host;
      members = record s.members { client_host = none };
    } in
    rw (reset_stopped s.members.client_host s, ◌>>=◌)
      (rw (reset_stopped s.members.server_host t, ◌>>=◌) (ground (arith, h)))

closing_lem :
    (s : Bench)
    → IsUp s
    → (rs : List Report)
    → (cleanup >> (deinitialize >> report finished)) (record s { reports = rs })
      ≡ done tt (record (start fresh) { reports = rs ++ finished ∷ [] })
unfolding deinitialize
closing_lem s up rs =
    rw (cleanup_lem (record s { reports = rs }) up.owned, ◌>>=◌) (rw up.ready (ground (arith, up)))

-- How the process ends, by what `initialize` answers and by what the set-up, the sender and the other
-- tests throw first.
abbrev pub Outcomes : Bool → Option Error → Option Error → Option Error → Run Bench ℕ → Type 0
Outcomes false _ _ _ r = r ≡ done 0 (record (start fresh) { reports = not_initialized ∷ [] })
Outcomes true (some x) _ _ r =
    r ≡ done 0 (record (start fresh) { reports = failed x ∷ finished ∷ [] })
Outcomes true none (some x) _ r = (t : Bench) × (r ≡ terminated t)
Outcomes true none none (some x) r =
    r ≡ done 0 (record (start fresh) { reports = failed x ∷ finished ∷ [] })
Outcomes true none none none r = r ≡ done 0 (record (start fresh) { reports = finished ∷ [] })

open_ends :
    (o : Outside) (established : Bool) (f sender pings burst : Option Error)
    → Sets f (setup_networking o established opened)
    → Outcomes true f sender
        (first_failure (pings ∷ burst ∷ []))
        (exit_process ((run_open o established sender pings burst >> pure 0) opened))
unfolding run_open exit_process run_tests
open_ends o b (some x) sender pings burst (t, e, up) =
    rw (e, ◌>>=◌) (rw up.unreported (rw (closing_lem t up (failed x ∷ []), ◌>>=◌) refl))
open_ends o b none (some x) pings burst (t, e, up) = rw (e, ◌>>=◌) (_, refl)
open_ends o b none none (some x) burst (t, e, up) =
    rw (e, ◌>>=◌) (rw up.unreported (rw (closing_lem t up (failed x ∷ []), ◌>>=◌) refl))
open_ends o b none none none (some x) (t, e, up) =
    rw (e, ◌>>=◌) (rw up.unreported (rw (closing_lem t up (failed x ∷ []), ◌>>=◌) refl))
open_ends o b none none none none (t, e, up) =
    rw (e, ◌>>=◌) (rw up.unreported (rw (closing_lem t up [], ◌>>=◌) refl))

-- Where no service thread calls `std::terminate`, and whatever `initialize` answers and the calls throw,
-- the benchmark gets back to the state in which its
-- process began, its hosts destroyed after their service threads were joined and the library closed,
-- and exits with 0, the first exception of the set-up and of the tests and the last line printed; but
-- an exception of the sender of the throughput test, where the set-up throws none, terminates it.
pub bench_ends :
    (o : Outside) (established : Bool) (sender pings burst : Option Error)
    → ((i : ℕ) → o.crashes i ≡ false)
    → Outcomes o.starts
        (first_failure (
          o.creates 0 (some bench_endpoint) host_config
          ∷ o.creates 1 none host_config
          ∷ o.connects 0 bench_endpoint
          ∷ unless_established established
          ∷ []))
        sender
        (first_failure (pings ∷ burst ∷ []))
        (exit_process (bench_main o established sender pings burst (start fresh)))
unfolding bench_main exit_process
bench_ends o b sender pings burst calm = elim (Bool-cases o.starts) [
  | inr e ↦ simp e
  | inl e ↦ simp e (open_ends o b _ sender pings burst (setup_lem o b calm))
]
