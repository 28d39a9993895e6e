-- ===== src/Apps/Benchmark/Statistics/Order.antt =====
-- The report of `runLatencyTest`: its indices, and the order of its figures.
use icelander.Prelude.{
  ℕ, ◌+◌, ◌-◌, ◌*◌, ◌/◌, ◌%◌, ◌≤◌, ◌<◌, ◌≡◌, refl, ap, List, [], ◌∷◌, some, length, ◌∙◌, All, arith,
  size_mod, done, ◌>>=◌, pure,
}
use icelander.Apps.Benchmark.{Counters}
use icelander.Apps.Benchmark.Statistics.{sort, Report, measurement, read_report, latency_report}
use icelander.Apps.Benchmark.Statistics.Sorting.{
  IsSorted, sort-IsSorted, sort-All, length-sort, at_order, in_range, extremes,
}

-- The figures of a report are in order, and all of the measurements lie between its ends.
abbrev pub IsOrdered : List ℕ → Report → Type 0
IsOrdered xs r =
    (r.min_latency ≤ r.p50_latency)
    × (r.p50_latency ≤ r.p95_latency)
    × (r.p95_latency ≤ r.p99_latency)
    × (r.p99_latency ≤ r.max_latency)
    × All (λ x. (r.min_latency ≤ x) × (x ≤ r.max_latency)) xs

read_report_lem :
    (num_pings : ℕ) (c : Counters)
    → 0 < length c.latency_measurements
    → IsSorted c.latency_measurements
    → (r : Report) × (read_report num_pings c ≡ done r c)
      × IsOrdered c.latency_measurements r
      × (r.responses ≡ length c.latency_measurements)
      × (r.lost ≡ (num_pings + size_mod - length c.latency_measurements) % size_mod)
unfolding read_report measurement
read_report_lem num_pings c full s =
    let xs = c.latency_measurements in
    let n = length xs in
    let (a, p) = in_range xs 0 (omega (arith, full)) in
    let (b, q) = in_range xs (n - 1) (omega (arith, full)) in
    let (p50, e50) = in_range xs (n / 2) (omega (arith, full)) in
    let (p95, e95) = in_range xs (n * 95 / 100) (omega (arith, full)) in
    let (p99, e99) = in_range xs (n * 99 / 100) (omega (arith, full)) in
    (
      _,
      rw (p, ◌>>=◌) (rw (q, ◌>>=◌) (rw (e50, ◌>>=◌) (rw (e95, ◌>>=◌) (rw (e99, ◌>>=◌) refl)))),
      (
        at_order xs 0 (n / 2) a p50 s (omega arith) p e50,
        at_order xs (n / 2) (n * 95 / 100) p50 p95 s (omega arith) e50 e95,
        at_order xs (n * 95 / 100) (n * 99 / 100) p95 p99 s (omega arith) e95 e99,
        at_order xs (n * 99 / 100) (n - 1) p99 b s (omega (arith, full)) e99 q,
        extremes xs a b s p q,
      ),
      refl,
      refl,
    )

entered :
    (num_pings : ℕ) (c : Counters) (xs : List ℕ)
    → c.latency_measurements ≡ xs
    → 0 < length xs
    → latency_report num_pings c
      ≡ (read_report num_pings >>= λ r. pure (some r)) (record c { latency_measurements = sort xs })
unfolding latency_report
entered num_pings c [] q full = absurd (omega (arith, full))
entered num_pings c (x ∷ xs) q full = simp (q, latency_report)

-- Where there are measurements, they are sorted and reported.
pub latency_report_done :
    (num_pings : ℕ) (c : Counters)
    → 0 < length c.latency_measurements
    → (r : Report) × (latency_report num_pings c
        ≡ done (some r) (record c { latency_measurements = sort c.latency_measurements }))
      × IsOrdered c.latency_measurements r
      × (r.responses ≡ length c.latency_measurements)
      × (r.lost ≡ (num_pings + size_mod - length c.latency_measurements) % size_mod)
latency_report_done num_pings c full =
    let xs = c.latency_measurements in
    let same = length-sort xs in
    let (r, read, (o1, o2, o3, o4, all), counted, rest) =
      read_report_lem num_pings (record c { latency_measurements = sort xs })
        (omega (arith, same, full)) (sort-IsSorted xs) in
    (
      r,
      entered num_pings c xs refl full ∙ rw (read, ◌>>=◌) refl,
      (o1, o2, o3, o4, sort-All _ xs all),
      counted ∙ same,
      rest ∙ ap (λ n. (num_pings + size_mod - n) % size_mod) same,
    )

-- Where there are measurements, and no more than pings, no index is out of range, the report is in
-- order, and all measurements lie between its ends; it counts them all, and the others of the pings as
-- lost.
pub latency_report_lem :
    (num_pings : ℕ) (c : Counters)
    → 0 < length c.latency_measurements
    → length c.latency_measurements ≤ num_pings
    → num_pings < size_mod
    → (r : Report) × (latency_report num_pings c
        ≡ done (some r) (record c { latency_measurements = sort c.latency_measurements }))
      × IsOrdered c.latency_measurements r
      × (r.responses ≡ length c.latency_measurements)
      × (r.responses + r.lost ≡ num_pings)
latency_report_lem num_pings c full few small =
    let (r, read, ordered, counted, rest) = latency_report_done num_pings c full in
    (r, read, ordered, counted, omega (arith, counted, rest, few, small))
