-- ===== src/Apps/Benchmark/Tests.antt =====
-- runThroughputTest, runLatencyTest and runBurstTest of examples/advanced/performance_benchmark.cpp as a whole, with what
-- the handlers count, on the service threads, between two packets and in the sleep before the report.
pub mod Arrivals
pub mod Rounds
pub mod Reports
use icelander.Prelude.{
  ℕ, zero, suc, ◌+◌, List, [], ◌∷◌, ◌++◌, Option, none, some, Outcome, done, thrown, fault, Exec,
  ◌>>=◌, ◌>>◌, pure,
}
use icelander.Bytes.{Platform}
use icelander.Enet.{Enet}
use icelander.Host.Refs.{State}
use icelander.Apps.Handlers.{modify}
use icelander.Apps.Benchmark.{
  Counters, reset_counters, count_received, run_pings, run_burst, run_throughput,
}
use icelander.Apps.Benchmark.Rates.{Double, Throughput, Burst, throughput_report, burst_report}
use icelander.Apps.Benchmark.Statistics.{Report, latency_report}

-- A packet that a handler counts. The client also measures a latency where it can read a ping.
pub record Arrival : Type 0 where
  pub size : ℕ
  pub latency : Option ℕ

unfoldable pub arrive : Arrival → Counters → Counters
arrive v c =
    let counted = count_received v.size c in
    elim v.latency [
      | none ↦ counted
      | some ns ↦ record counted { latency_measurements = counted.latency_measurements ++ ns ∷ [] }
    ]

unfoldable pub arrive_all : List Arrival → Counters → Counters
arrive_all [] c = c
arrive_all (v ∷ vs) c = arrive_all vs (arrive v c)

-- `latency_measurements_.clear()`
unfoldable pub clear_measurements : Counters → Counters
clear_measurements c = record c { latency_measurements = [] }

-- A loop from `k` with `rounds` to go, and what arrives after each of them.
unfoldable pub interleaved :
    {e : Enet}
    → (ℕ → Exec (State e Counters) (Unit {0}))
    → (ℕ → List Arrival)
    → ℕ
    → ℕ
    → Exec (State e Counters) (Unit {0})
interleaved round arrivals k zero = pure tt
interleaved round arrivals k (suc rounds) =
    (round k >> modify (arrive_all (arrivals k))) >> interleaved round arrivals (k + 1) rounds

unfoldable pub on_counters : {e : Enet} {B : Type 0} → Exec Counters B → Exec (State e Counters) B
on_counters m s = elim (m s.app) [
  | done b c ↦ done b (record s { app = c })
  | thrown x c ↦ thrown x (record s { app = c })
  | fault ↦ fault
]

module _ ⦃m : Platform⦄ (e : Enet) where
  -- `rounds` times the condition of the sender's loop is true. An exception leaves the function of its
  -- thread, which is `std::terminate`.
  unfoldable pub run_throughput_test :
      {D : Type 0}
      → Double D
      → ℕ
      → D
      → ℕ
      → (ℕ → List Arrival)
      → List Arrival
      → Exec (State e Counters) (Throughput D)
  run_throughput_test d server_peer elapsed_seconds rounds arrivals late = do
    modify reset_counters
    interleaved (λ k. run_throughput e server_peer 1024 1) arrivals 0 rounds
    modify (arrive_all late)
    λ s. done (throughput_report d elapsed_seconds s.app) s

  -- `clock` is read before each ping, and `late` arrives in the sleep.
  unfoldable pub run_latency_test :
      ℕ → (ℕ → ℕ) → (ℕ → List Arrival) → List Arrival → Exec (State e Counters) (Option Report)
  run_latency_test server_peer clock arrivals late = do
    modify reset_counters
    modify clear_measurements
    interleaved (λ k. run_pings e server_peer (clock k ∷ [])) arrivals 0 100
    modify (arrive_all late)
    on_counters (latency_report 100)

  unfoldable pub run_burst_test :
      {D : Type 0}
      → Double D
      → ℕ
      → D
      → (ℕ → List Arrival)
      → List Arrival
      → Exec (State e Counters) (Burst D)
  run_burst_test d server_peer burst_duration arrivals late = do
    modify reset_counters
    interleaved (λ k. run_burst e server_peer 512 k 1) arrivals 0 1000
    modify (arrive_all late)
    λ s. done (burst_report d 1000 burst_duration s.app) s
