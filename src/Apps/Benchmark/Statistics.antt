-- ===== src/Apps/Benchmark/Statistics.antt =====
-- The latency statistics of examples/advanced/performance_benchmark.cpp, over the measurements in
-- nanoseconds.
pub mod Sorting
pub mod Order
use mathlib.Core.Option.{some-injective}
use icelander.Prelude.{
  ℕ, zero, suc, ◌+◌, ◌-◌, ◌*◌, ◌/◌, ◌%◌, ◌≤◌, ◌<◌, ◌≡◌, refl, List, [], ◌∷◌, Option, none, some,
  leb, if◌then◌else◌, length, get_elem?, get_elem?-lt, ◌∙◌, All, arith, Bool-cases, leb→le, leb→gt,
  inl, inr, size_mod, Exec, done, ◌>>=◌, pure, or_fault,
}
use icelander.Apps.Benchmark.{Counters}

-- `std::sort`, which promises a sorted rearrangement.
abbrev pub insert_at : ℕ → List ℕ → List ℕ
insert_at x [] = x ∷ []
insert_at x (y ∷ ys) = let rest = insert_at x ys in if leb x y then x ∷ y ∷ ys else y ∷ rest

unfoldable pub sort : List ℕ → List ℕ
sort [] = []
sort (x ∷ xs) = insert_at x (sort xs)

-- What `runLatencyTest` prints, but for the mean. `lost` is `num_pings - size()`, which is unsigned.
pub record Report : Type 0 where
  pub responses : ℕ
  pub min_latency : ℕ
  pub max_latency : ℕ
  pub p50_latency : ℕ
  pub p95_latency : ℕ
  pub p99_latency : ℕ
  pub lost : ℕ

-- `latency_measurements_[i]`, undefined behaviour out of range
unfoldable pub measurement : ℕ → Exec Counters ℕ
measurement i c = or_fault (get_elem? c.latency_measurements i) c

-- What is read once the measurements are sorted.
unfoldable pub read_report : ℕ → Exec Counters Report
unfolding measurement
read_report num_pings c =
    let n = length c.latency_measurements in
    (do
      min_latency ← measurement 0
      max_latency ← measurement (n - 1)
      p50_latency ← measurement (n / 2)
      p95_latency ← measurement (n * 95 / 100)
      p99_latency ← measurement (n * 99 / 100)
      pure (record {
        responses = n;
        min_latency = min_latency;
        max_latency = max_latency;
        p50_latency = p50_latency;
        p95_latency = p95_latency;
        p99_latency = p99_latency;
        lost = (num_pings + size_mod - n) % size_mod;
      }))
      c

-- The second half of `runLatencyTest`: `none` is the early return with no measurements.
unfoldable pub latency_report : ℕ → Exec Counters (Option Report)
unfolding read_report sort
latency_report num_pings c = elim c.latency_measurements [
  | [] ↦ done none c
  | _ ∷ _ ↦
      (do r ← read_report num_pings; pure (some r))
        (record c { latency_measurements = sort c.latency_measurements })
]
