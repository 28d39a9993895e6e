-- ===== src/Apps/Benchmark/Tests/Rounds.antt =====
-- What the loops of the latency test and of the burst test leave, whatever arrives between the rounds.
use mathlib.Core.List.{append-nil, append_assoc}
use icelander.Prelude.{
  ℕ, zero, suc, ◌+◌, ◌%◌, ◌^◌, ◌≡◌, ◌⊎◌, refl, ◌∙◌, List, [], ◌∷◌, ◌++◌, some, Outcome, done,
  thrown, fault, packet_create_failed, Exec, ◌>>=◌, ◌>>◌, pure, Option-cases, Bool-cases, inl, inr,
  is_zero, get_elem?, arith,
}
use icelander.Bytes.{Platform}
use icelander.Types.{PacketFlag}
use icelander.Enet.{Enet, NativePacket, PacketLaws}
use icelander.Builder
use icelander.Builder.{PacketBuilder}
use icelander.Packet
use icelander.Packet.{Packet}
use icelander.Peer
use icelander.Peer.{Peer}
use icelander.Host.Refs.{State, on_world}
use icelander.Apps.Handlers.{build_reliable, modify}
use icelander.Apps.Handlers.Laws.{build_reliable_cases}
use icelander.Apps.Benchmark.{
  Counters, count_sent, count_ping, send_counted, run_pings, run_burst, build_ping, build_burst,
  run_throughput, build_throughput,
}
use icelander.Apps.Benchmark.Tests.{Arrival, arrive_all, interleaved}
use icelander.Apps.Benchmark.Tests.Arrivals.{
  heard, IsCount, IsAt, arrive_all-IsAt, count_sent-IsCount, count_ping-IsCount, count-IsCounted,
}

-- No undefined behaviour; what is returned meets `P`, and the one exception is of a packet that ENet
-- did not make.
abbrev pub Returns : {W A : Type 0} → (A → W → Type 0) → Outcome W A → Type 0
Returns P (done a w) = P a w
Returns P (thrown x w) = x ≡ packet_create_failed
Returns P fault = ⊥

pub >>=-Returns :
    {W A B : Type 0} (P : A → W → Type 0) (Q : B → W → Type 0) (m : Exec W A) (f : A → Exec W B)
    (w : W)
    → Returns P (m w)
    → ((a : A) (u : W) → P a u → Returns Q (f a u))
    → Returns Q ((m >>= f) w)
>>=-Returns {W} {A} {B} P Q m f w h k = go (m w) h
  where
    go :
        (o : Outcome W A)
        → Returns P o
        → Returns {W = W} {A = B} Q
            (elim o [ done a u ↦ f a u | thrown x u ↦ thrown x u | fault ↦ fault ])
    go (done a u) p = k a u p
    go (thrown x u) p = p
    go fault p = absurd p

module _ ⦃m : Platform⦄ (e : Enet) (laws : PacketLaws e) (old : List ℕ) (i : ℕ) (p : Peer) where
  -- What sending one packet leaves: it is counted once or not at all.
  Sent : (Counters → Counters) → State e Counters → State e Counters → Type 0
  Sent count s t = (t.objects ≡ s.objects) × ((t.app ≡ s.app) ⊎ (t.app ≡ count s.app))

  send_counted-Sent :
      (a : ℕ) (content : NativePacket) (count : Counters → Counters) (s : State e Counters)
      → get_elem? s.objects i ≡ some p
      → e.packet_at s.world a ≡ some content
      → Returns (λ _. Sent count s) (send_counted e i (record { native = some a }) count s)
  unfolding send_counted on_world Peer.send Peer.send_on Peer.drop_packet Packet.destroy Packet.free
      Peer.native_send Packet.native_handle Sent
  send_counted-Sent a content count s there alive = elim (Option-cases p.native_peer) [
    | inl off ↦ rw (there, ◌>>=◌) (rw (off, Peer.send_on) (rw (alive, ◌>>=◌) (refl, inl refl)))
    | inr (native, on) ↦
        rw (there, ◌>>=◌)
          (rw (on, Peer.send_on)
            (elim (Bool-cases (is_zero (e.peer_send native 0 a s.world).0)) [
              | inl accepted ↦ rw accepted (refl, inr refl)
              | inr refused ↦ rw refused (refl, inl refl)
            ]))
  ]

  Sent-IsAt :
      (k : ℕ) (vs : List Arrival) (count : Counters → Counters) (s t : State e Counters)
      → IsCount count
      → IsAt old i p k vs s
      → Sent count s t
      → IsAt old i p (k + 1) vs t
  unfolding Sent
  Sent-IsAt k vs count s t law h (kept, inl same) = record {
    there = rw kept h.there;
    counted =
        rw same (record { sent = omega (arith, h.counted.sent); received = h.counted.received });
    measured = rw same h.measured;
  }
  Sent-IsAt k vs count s t law h (kept, inr more) = record {
    there = rw kept h.there;
    counted = rw more (count-IsCounted k vs s.app law h.counted);
    measured = rw more (law.measured s.app ∙ h.measured);
  }

  round-IsAt :
      (k : ℕ) (vs : List Arrival) (b : PacketBuilder) (count : Counters → Counters)
      (s : State e Counters)
      → IsCount count
      → IsAt old i p k vs s
      → Returns
          (λ _. IsAt old i p (k + 1) vs)
          (((build_reliable e b >>= λ packet. send_counted e i packet count) >> pure tt) s)
  unfolding Sent
  round-IsAt k vs b count s law h =
      let w = (e.packet_create (Builder.span b) (e.flag_value PacketFlag.reliable) s.world).1 in
      elim (build_reliable_cases e laws b s) [
        | inl failed ↦ rw (failed, ◌>>=◌) refl
        | inr (a, content, made, alive) ↦
            rw (made, ◌>>=◌)
              (>>=-Returns (λ _. Sent count (record s { world = w })) (λ _. IsAt old i p (k + 1) vs)
                (send_counted e i (record { native = some a }) count) (λ _. pure tt)
                (record s { world = w })
                (send_counted-Sent a content count (record s { world = w }) h.there alive)
                (λ _ t sent. Sent-IsAt k vs count s t law h sent))
      ]

  interleaved-IsAt :
      (round : ℕ → Exec (State e Counters) (Unit {0})) (arrivals : ℕ → List Arrival)
      → ((k : ℕ) (vs : List Arrival) (s : State e Counters)
          → IsAt old i p k vs s
          → Returns (λ _. IsAt old i p (k + 1) vs) (round k s))
      → (k n last : ℕ) (vs : List Arrival) (s : State e Counters) → k + n ≡ last
      → IsAt old i p k vs s
      → Returns
          (λ _. IsAt old i p last (vs ++ heard arrivals k n))
          (interleaved round arrivals k n s)
  unfolding interleaved
  interleaved-IsAt round arrivals each k zero last vs s q h =
      let here : last ≡ k = omega (arith, q) in rw (here, append-nil vs) h
  interleaved-IsAt round arrivals each k (suc n) last vs s q h =
      >>=-Returns (λ _. IsAt old i p (k + 1) (vs ++ arrivals k))
        (λ _. IsAt old i p last (vs ++ (arrivals k ++ heard arrivals (k + 1) n)))
        (round k >> modify (arrive_all (arrivals k))) (λ _. interleaved round arrivals (k + 1) n) s
        (>>=-Returns (λ _. IsAt old i p (k + 1) vs) (λ _. IsAt old i p (k + 1) (vs ++ arrivals k))
          (round k) (λ _. modify (arrive_all (arrivals k))) s (each k vs s h)
          (λ _ t g. arrive_all-IsAt old i p (k + 1) vs (arrivals k) t g))
        (λ _ t g. rw (← append_assoc vs (arrivals k) (heard arrivals (k + 1) n)) (
          interleaved-IsAt round arrivals each (k + 1) n last (vs ++ arrivals k) t
            (omega (arith, q)) g))

  pub pings-IsAt :
      (clock : ℕ → ℕ) (arrivals : ℕ → List Arrival) (n : ℕ) (s : State e Counters)
      → IsAt old i p 0 [] s
      → Returns
          (λ _. IsAt old i p n (heard arrivals 0 n))
          (interleaved (λ k. run_pings e i (clock k ∷ [])) arrivals 0 n s)
  unfolding run_pings
  pings-IsAt clock arrivals n s h =
      interleaved-IsAt (λ k. run_pings e i (clock k ∷ [])) arrivals
        (λ k vs t q. round-IsAt k vs (build_ping (clock k)) count_ping t count_ping-IsCount q) 0 n n
        [] s (omega arith) h

  pub burst-IsAt :
      (size : ℕ) (arrivals : ℕ → List Arrival) (n : ℕ) (s : State e Counters)
      → IsAt old i p 0 [] s
      → Returns
          (λ _. IsAt old i p n (heard arrivals 0 n))
          (interleaved (λ k. run_burst e i size k 1) arrivals 0 n s)
  unfolding run_burst
  burst-IsAt size arrivals n s h =
      interleaved-IsAt (λ k. run_burst e i size k 1) arrivals
        (λ k vs t q.
          round-IsAt k vs (build_burst size (k % 2 ^ 32)) (count_sent size) t
            (count_sent-IsCount size) q)
        0 n n [] s (omega arith) h

  pub throughput-IsAt :
      (size : ℕ) (arrivals : ℕ → List Arrival) (n : ℕ) (s : State e Counters)
      → IsAt old i p 0 [] s
      → Returns
          (λ _. IsAt old i p n (heard arrivals 0 n))
          (interleaved (λ k. run_throughput e i size 1) arrivals 0 n s)
  unfolding run_throughput
  throughput-IsAt size arrivals n s h =
      interleaved-IsAt (λ k. run_throughput e i size 1) arrivals
        (λ k vs t q.
          round-IsAt k vs (build_throughput size) (count_sent size) t (count_sent-IsCount size) q)
        0 n n [] s (omega arith) h
