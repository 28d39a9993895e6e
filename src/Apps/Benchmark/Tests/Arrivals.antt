-- ===== src/Apps/Benchmark/Tests/Arrivals.antt =====
-- What the handlers count of the packets that arrive, beside what the tests count of those they send.
use mathlib.Core.List.{append-nil, append_assoc}
use icelander.Prelude.{
  ℕ, zero, suc, ◌+◌, ◌%◌, ◌≤◌, ◌≡◌, refl, ap, ◌∙◌, sym, List, [], ◌∷◌, ◌++◌, none, some, length,
  length-append, Option-cases, inl, inr, get_elem?, size_mod, arith,
}
use icelander.Enet.{Enet}
use icelander.Peer.{Peer}
use icelander.Host.Refs.{State}
use icelander.Apps.Benchmark.{Counters, count_sent, count_ping, count_received}
use icelander.Apps.Benchmark.Tests.{Arrival, arrive, arrive_all}

-- the latencies among what arrives, in order
abbrev pub latencies : List Arrival → List ℕ
latencies [] = []
latencies (v ∷ vs) = let rest = latencies vs in elim v.latency [ none ↦ rest | some ns ↦ ns ∷ rest ]

-- what arrives in the rounds from `k` on
abbrev pub heard : (ℕ → List Arrival) → ℕ → ℕ → List Arrival
heard arrivals k zero = []
heard arrivals k (suc rounds) = arrivals k ++ heard arrivals (k + 1) rounds

-- At most `k` packets are counted as sent, and just `vs` as received.
pub record IsCounted (k : ℕ) (vs : List Arrival) (c : Counters) : Type 0 where
  pub sent : c.packets_sent ≤ k
  pub received : c.packets_received ≡ length vs % size_mod

-- `count` is what a loop counts of a packet that is accepted.
pub record IsCount (count : Counters → Counters) : Type 0 where
  pub sent : (c : Counters) → (count c).packets_sent ≡ (c.packets_sent + 1) % size_mod
  pub received : (c : Counters) → (count c).packets_received ≡ c.packets_received
  pub measured : (c : Counters) → (count c).latency_measurements ≡ c.latency_measurements

latencies-append : (xs ys : List Arrival) → latencies (xs ++ ys) ≡ latencies xs ++ latencies ys
latencies-append [] ys = refl
latencies-append (v ∷ xs) ys = elim (Option-cases v.latency) [
  | inl unread ↦ rw unread (latencies-append xs ys)
  | inr (ns, read) ↦ rw read (ap (λ rest. ns ∷ rest) (latencies-append xs ys))
]

arrive_all-latency_measurements :
    (vs : List Arrival) (c : Counters)
    → (arrive_all vs c).latency_measurements ≡ c.latency_measurements ++ latencies vs
unfolding arrive_all arrive count_received
arrive_all-latency_measurements [] c = sym (append-nil c.latency_measurements)
arrive_all-latency_measurements (v ∷ vs) c = elim (Option-cases v.latency) [
  | inl unread ↦ arrive_all-latency_measurements vs (arrive v c) ∙ rw (unread, arrive) refl
  | inr (ns, read) ↦
      arrive_all-latency_measurements vs (arrive v c)
      ∙ rw (read, arrive) (append_assoc c.latency_measurements (ns ∷ []) (latencies vs))
]

arrive_lem :
    (v : Arrival) (c : Counters)
    → ((arrive v c).packets_sent ≡ c.packets_sent)
      × ((arrive v c).packets_received ≡ (c.packets_received + 1) % size_mod)
unfolding arrive count_received
arrive_lem v c = elim (Option-cases v.latency) [
  | inl unread ↦ rw (unread, arrive) (refl, refl)
  | inr (ns, read) ↦ rw (read, arrive) (refl, refl)
]

arrive-IsCounted :
    (k : ℕ) (v : Arrival) (vs : List Arrival) (c : Counters)
    → IsCounted k vs c
    → IsCounted k (vs ++ v ∷ []) (arrive v c)
arrive-IsCounted k v vs c h =
    let (same, more) = arrive_lem v c in
    record {
      sent = rw same h.sent;
      received = omega (arith, more, h.received, length-append vs (v ∷ []));
    }

arrive_all-IsCounted :
    (k : ℕ) (vs us : List Arrival) (c : Counters)
    → IsCounted k us c
    → IsCounted k (us ++ vs) (arrive_all vs c)
unfolding arrive_all
arrive_all-IsCounted k [] us c h = rw (append-nil us) h
arrive_all-IsCounted k (v ∷ vs) us c h =
    rw (← append_assoc us (v ∷ []) vs)
      (arrive_all-IsCounted k vs (us ++ v ∷ []) (arrive v c) (arrive-IsCounted k v us c h))

pub count_sent-IsCount : (size : ℕ) → IsCount (count_sent size)
unfolding count_sent
count_sent-IsCount size = record { sent = λ c. refl; received = λ c. refl; measured = λ c. refl }

pub count_ping-IsCount : IsCount count_ping
unfolding count_ping
count_ping-IsCount = record { sent = λ c. refl; received = λ c. refl; measured = λ c. refl }

pub count-IsCounted :
    {count : Counters → Counters} (k : ℕ) (vs : List Arrival) (c : Counters)
    → IsCount count
    → IsCounted k vs c
    → IsCounted (k + 1) vs (count c)
count-IsCounted k vs c law h = record {
  sent = omega (arith, law.sent c, h.sent);
  received = law.received c ∙ h.received;
}

-- The Peer object is there, the counters are of `k` packets and of `vs`, and the latencies among `vs`
-- stand behind those of `old`.
pub record IsAt {e : Enet} (old : List ℕ) (i : ℕ) (p : Peer) (k : ℕ) (vs : List Arrival)
    (s : State e Counters) : Type 0 where
  pub there : get_elem? s.objects i ≡ some p
  pub counted : IsCounted k vs s.app
  pub measured : s.app.latency_measurements ≡ old ++ latencies vs

pub arrive_all-IsAt :
    {e : Enet} (old : List ℕ) (i : ℕ) (p : Peer) (k : ℕ) (us vs : List Arrival)
    (s : State e Counters)
    → IsAt old i p k us s
    → IsAt old i p k (us ++ vs) (record s { app = arrive_all vs s.app })
arrive_all-IsAt old i p k us vs s h = record {
  there = h.there;
  counted = arrive_all-IsCounted k vs us s.app h.counted;
  measured =
      arrive_all-latency_measurements vs s.app
      ∙ (ap (λ ms. ms ++ latencies vs) h.measured
          ∙ rw (latencies-append us vs) (append_assoc old (latencies us) (latencies vs)));
}
