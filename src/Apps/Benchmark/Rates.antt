-- ===== src/Apps/Benchmark/Rates.antt =====
-- What the throughput test and the burst test of examples/advanced/performance_benchmark.cpp print of
-- their counters, in `double`.
use icelander.Prelude.{ℕ, ◌*◌, ◌<◌, ◌^◌, ◌≡◌}
use icelander.Apps.Benchmark.{Counters, lost}

-- What the program does with a `double`. A `uint64_t` is converted by `of`.
pub record Double (D : Type 0) : Type 0 where
  pub of : ℕ → D
  pub mul : D → D → D
  pub div : D → D → D

-- IEEE arithmetic is exact where operands and result are whole numbers below 2 ^ 53.
pub record IsDouble {D : Type 0} (d : Double D) : Type 0 where
  pub mul_exact :
      (a b : ℕ) → a < 2 ^ 53 → b < 2 ^ 53 → a * b < 2 ^ 53 → d.mul (d.of a) (d.of b) ≡ d.of (a * b)
  pub div_exact :
      (a b : ℕ) → 0 < b → b < 2 ^ 53 → a * b < 2 ^ 53 → d.div (d.of (a * b)) (d.of b) ≡ d.of a

pub record Throughput (D : Type 0) : Type 0 where
  pub test_duration : D
  pub packets_sent : ℕ
  pub packets_received : ℕ
  pub packet_loss : D
  pub packets_per_second : D
  pub kilobytes_per_second : D
  pub mbps : D

pub record Burst (D : Type 0) : Type 0 where
  pub duration : D
  pub send_rate : D
  pub packets_received : ℕ
  pub packets_sent : ℕ
  pub reception_rate : D

module _ {D : Type 0} (d : Double D) where
  -- `(double)part / whole * 100.0`
  abbrev pub percent : ℕ → ℕ → D
  percent part whole = d.mul (d.div (d.of part) (d.of whole)) (d.of 100)

  unfoldable pub throughput_report : D → Counters → Throughput D
  throughput_report elapsed_seconds c =
      let bytes_per_second = d.div (d.of c.bytes_received) elapsed_seconds in
      record {
        test_duration = elapsed_seconds;
        packets_sent = c.packets_sent;
        packets_received = c.packets_received;
        packet_loss = percent (lost c) c.packets_sent;
        packets_per_second = d.div (d.of c.packets_received) elapsed_seconds;
        kilobytes_per_second = d.div bytes_per_second (d.of 1024);
        mbps = d.div (d.mul bytes_per_second (d.of 8)) (d.of (1024 * 1024));
      }

  unfoldable pub burst_report : ℕ → D → Counters → Burst D
  burst_report burst_size burst_duration c = record {
    duration = burst_duration;
    send_rate = d.div (d.of burst_size) burst_duration;
    packets_received = c.packets_received;
    packets_sent = c.packets_sent;
    reception_rate = percent c.packets_received c.packets_sent;
  }
