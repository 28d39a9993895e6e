-- ===== src/Apps/Benchmark/Tests/Reports.antt =====
-- What runThroughputTest, runLatencyTest and runBurstTest of examples/advanced/performance_benchmark.cpp print, whatever
-- arrives and whenever.
use mathlib.Core.List.{append-nil}
use icelander.Prelude.{
  ℕ, ◌+◌, ◌-◌, ◌%◌, ◌≤◌, ◌≡◌, refl, ap, sym, List, [], ◌∷◌, ◌++◌, Option, none, some, length, done,
  get_elem?, size_mod, arith,
}
use icelander.Bytes.{Platform}
use icelander.Enet.{Enet, PacketLaws}
use icelander.Peer.{Peer}
use icelander.Host.Refs.{State}
use icelander.Apps.Benchmark.{Counters, lost, reset_counters, run_pings, run_burst, run_throughput}
use icelander.Apps.Benchmark.Rates.{
  Double, Throughput, Burst, percent, throughput_report, burst_report,
}
use icelander.Apps.Benchmark.Statistics.{Report, latency_report}
use icelander.Apps.Benchmark.Statistics.Order.{IsOrdered, latency_report_done}
use icelander.Apps.Benchmark.Tests.{
  Arrival, arrive_all, clear_measurements, interleaved, on_counters, run_throughput_test,
  run_latency_test, run_burst_test,
}
use icelander.Apps.Benchmark.Tests.Arrivals.{latencies, heard, IsAt, arrive_all-IsAt}
use icelander.Apps.Benchmark.Tests.Rounds.{
  Returns, >>=-Returns, throughput-IsAt, pings-IsAt, burst-IsAt,
}

-- No report where nothing was measured, else one of just the latencies `ms`.
abbrev pub IsReported : List ℕ → Option Report → Type 0
IsReported ms none = ms ≡ []
IsReported ms (some r) =
    IsOrdered ms r × (r.responses ≡ length ms) × (r.lost ≡ (100 + size_mod - length ms) % size_mod)

-- At most `rounds` packets are printed as sent, and just `vs` as received, and the loss is the rest of
-- them, which is unsigned.
pub record IsThroughput {D : Type 0} (d : Double D) (rounds : ℕ) (vs : List Arrival)
    (r : Throughput D) : Type 0 where
  pub sent : r.packets_sent ≤ rounds
  pub received : r.packets_received ≡ length vs % size_mod
  pub loss :
      r.packet_loss
      ≡ percent d ((r.packets_sent + size_mod - length vs % size_mod) % size_mod) r.packets_sent

-- At most 1000 packets are printed as sent, and just `vs` as received, and the rate is theirs.
pub record IsBurst {D : Type 0} (d : Double D) (vs : List Arrival) (b : Burst D) : Type 0 where
  pub sent : b.packets_sent ≤ 1000
  pub received : b.packets_received ≡ length vs % size_mod
  pub rate : b.reception_rate ≡ percent d (length vs % size_mod) b.packets_sent

latency_report_none :
    (c : Counters) → c.latency_measurements ≡ [] → latency_report 100 c ≡ done none c
unfolding latency_report
latency_report_none c q =
    rw (q, latency_report) (ap (λ ms. done none (record c { latency_measurements = ms })) q)

latency_report-IsReported :
    {e : Enet} (ms : List ℕ) (s : State e Counters)
    → s.app.latency_measurements ≡ ms
    → Returns (λ r _. IsReported ms r) (on_counters (latency_report 100) s)
unfolding on_counters
latency_report-IsReported [] s q = rw (latency_report_none s.app q, on_counters) refl
latency_report-IsReported (x ∷ xs) s q =
    let (r, reported, ordered, counted, lost) =
      latency_report_done 100 s.app (rw q (omega arith)) in
    rw (reported, on_counters) (rw q at ordered, rw q at counted, rw q at lost)

module _ ⦃m : Platform⦄ (e : Enet) (laws : PacketLaws e) where
  -- The peer object is there at first, and nothing is supposed of what ENet answers, nor of the
  -- counters and measurements before, nor of what arrives, between the rounds and in the sleep.
  -- None of the three tests has undefined behaviour, and each throws only where ENet does not make
  -- a packet. The throughput test of some rounds prints at most so many packets as sent, the burst
  -- test at most 1000, and each prints just those that arrived since it started as received,
  -- modulo 2 ^ 64, with the loss or the rate that they come to. The latency test reports just the
  -- latencies that arrived since it started, if there are any, with its figures in order and
  -- between its ends, and the rest of the 100 pings as lost, modulo 2 ^ 64.
  pub tests_print :
      {D : Type 0} (d : Double D) (i : ℕ) (p : Peer) (time : D) (rounds : ℕ) (clock : ℕ → ℕ)
      (arrivals : ℕ → List Arrival) (late : List Arrival) (s : State e Counters)
      → get_elem? s.objects i ≡ some p
      → Returns
          (λ r _. IsThroughput d rounds (heard arrivals 0 rounds ++ late) r)
          (run_throughput_test e d i time rounds arrivals late s)
        × Returns
            (λ r _. IsReported (latencies (heard arrivals 0 100 ++ late)) r)
            (run_latency_test e i clock arrivals late s)
        × Returns
            (λ b _. IsBurst d (heard arrivals 0 1000 ++ late) b)
            (run_burst_test e d i time arrivals late s)
  unfolding run_throughput_test run_latency_test run_burst_test reset_counters clear_measurements
      throughput_report burst_report lost
  tests_print {D} d i p time rounds clock arrivals late s there =
      let pinged = heard arrivals 0 100 in
      let cleared : State e Counters = record s {
        app = clear_measurements (reset_counters s.app);
      } in
      let fresh : State e Counters = record s { app = reset_counters s.app } in
      let old = s.app.latency_measurements in
      let start : IsAt old i p 0 [] fresh = record {
        there = there;
        counted = record { sent = omega arith; received = omega arith };
        measured = sym (append-nil old);
      } in
      (
        >>=-Returns (λ _. IsAt old i p rounds (heard arrivals 0 rounds))
            (λ r _. IsThroughput d rounds (heard arrivals 0 rounds ++ late) r)
            (interleaved (λ k. run_throughput e i 1024 1) arrivals 0 rounds) _ fresh
            (throughput-IsAt e laws old i p 1024 arrivals rounds fresh start)
            (λ _ t g.
              let g' = arrive_all-IsAt old i p rounds (heard arrivals 0 rounds) late t g in
              record {
                sent = g'.counted.sent;
                received = g'.counted.received;
                loss =
                    ap
                      (λ n.
                        percent d (((arrive_all late t.app).packets_sent + size_mod - n) % size_mod)
                          (arrive_all late t.app).packets_sent)
                      g'.counted.received;
              }),
        >>=-Returns (λ _. IsAt [] i p 100 pinged) (λ r _. IsReported (latencies (pinged ++ late)) r)
            (interleaved (λ k. run_pings e i (clock k ∷ [])) arrivals 0 100) _ cleared
            (pings-IsAt e laws [] i p clock arrivals 100 cleared (record {
              there = there;
              counted = record { sent = omega arith; received = omega arith };
              measured = refl;
            }))
            (λ _ t g.
              let g' = arrive_all-IsAt [] i p 100 pinged late t g in
              latency_report-IsReported (latencies (pinged ++ late)) _ g'.measured),
        >>=-Returns (λ _. IsAt old i p 1000 (heard arrivals 0 1000))
            (λ b _. IsBurst d (heard arrivals 0 1000 ++ late) b)
            (interleaved (λ k. run_burst e i 512 k 1) arrivals 0 1000) _ fresh
            (burst-IsAt e laws old i p 512 arrivals 1000 fresh start)
            (λ _ t g.
              let g' = arrive_all-IsAt old i p 1000 (heard arrivals 0 1000) late t g in
              record {
                sent = g'.counted.sent;
                received = g'.counted.received;
                rate =
                    ap (λ n. percent d n (arrive_all late t.app).packets_sent) g'.counted.received;
              }),
      )
