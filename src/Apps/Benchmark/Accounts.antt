-- ===== src/Apps/Benchmark/Accounts.antt =====
-- What the sending loops of examples/advanced/performance_benchmark.cpp count.
use icelander.Prelude.{
  ℕ, zero, suc, ◌+◌, ◌-◌, ◌*◌, ◌%◌, ◌^◌, ◌≤◌, ◌<◌, ◌≡◌, refl, ◌⊎◌, inl, inr, some, ◌∙◌, List, true,
  false, Bool-cases, Option-cases, length, length-append, length-replicate, replicate, is_zero,
  size_mod, arith, Exec, ◌>>=◌, ◌>>◌, Leaves, Leaves-mono, >>=-Leaves, get_elem?,
}
use icelander.Bytes.{Platform, length-repr, repr}
use icelander.Enet.{Enet, NativePacket, PacketLaws}
use icelander.Types.{PacketFlag}
use icelander.Builder
use icelander.Builder.{PacketBuilder}
use icelander.Packet
use icelander.Packet.{Packet}
use icelander.Peer
use icelander.Peer.{Peer}
use icelander.Host.Refs.{State, on_world}
use icelander.Apps.Handlers.{build_reliable}
use icelander.Apps.Handlers.Laws.{build_reliable_cases}
use icelander.Apps.Benchmark.{
  Counters, BenchState, count_sent, reset_counters, build_burst, build_throughput, send_counted,
  run_throughput, run_burst,
}

-- `accepted` is how many packets ENet has accepted of its callers.
pub record AcceptLaws (e : Enet) (accepted : e.World → ℕ) : Type 0 where
  pub taken :
      (peer channel a : ℕ) (w : e.World)
      → is_zero (e.peer_send peer channel a w).0 ≡ true
      → accepted (e.peer_send peer channel a w).1 ≡ accepted w + 1
  pub refused :
      (peer channel a : ℕ) (w : e.World)
      → is_zero (e.peer_send peer channel a w).0 ≡ false
      → accepted (e.peer_send peer channel a w).1 ≡ accepted w
  pub made :
      (bs : List ℕ) (fl : ℕ) (w : e.World) → accepted (e.packet_create bs fl w).1 ≡ accepted w
  pub freed : (a : ℕ) (w : e.World) → accepted (e.packet_destroy a w) ≡ accepted w

-- Of at most `r` packets of `k` bytes ENet has accepted some number since `s`, and just these are counted.
abbrev pub IsExact :
    {e : Enet} → (e.World → ℕ) → State e Counters → ℕ → ℕ → State e Counters → Type 0
IsExact accepted s k r t =
    (j : ℕ) × (j ≤ r)
    × (accepted t.world ≡ accepted s.world + j)
    × (t.app.packets_sent ≡ j)
    × (t.app.bytes_sent ≡ k * j)

mul_le : (d k j : ℕ) → k * j ≤ k * (j + d)
mul_le d k j = omega arith

mul_one_le : (k j : ℕ) → 4 ≤ k → j ≤ k * j
mul_one_le zero j h = absurd (omega (arith, h))
mul_one_le (suc k) j h = omega arith

-- `n` packets of `k` bytes counted, and accepted since the count was `base`.
pub record IsBilled {e : Enet} (accepted : e.World → ℕ) (base k n : ℕ) (s : State e Counters)
    : Type 0 where
  pub tally : accepted s.world ≡ base + n
  pub packets : s.app.packets_sent ≡ n % size_mod
  pub bytes : s.app.bytes_sent ≡ (k * n) % size_mod

count_sent-IsBilled :
    {e : Enet} (accepted : e.World → ℕ) (base k n : ℕ) (s : State e Counters) (w : e.World)
    → accepted w ≡ accepted s.world + 1
    → IsBilled accepted base k n s
    → IsBilled accepted base k (n + 1) (record s { world = w; app = count_sent k s.app })
unfolding count_sent
count_sent-IsBilled accepted base k n s w one h = record {
  tally = omega (arith, one, h.tally);
  packets = rw h.packets (omega arith);
  bytes = rw h.bytes (omega arith);
}

same-IsBilled :
    {e : Enet} (accepted : e.World → ℕ) (base k n : ℕ) (s : State e Counters) (w : e.World)
    → accepted w ≡ accepted s.world
    → IsBilled accepted base k n s
    → IsBilled accepted base k n (record s { world = w })
same-IsBilled accepted base k n s w same h = record {
  tally = same ∙ h.tally;
  packets = h.packets;
  bytes = h.bytes;
}

module _ ⦃m : Platform⦄ (e : Enet) (laws : PacketLaws e) (accepted : e.World → ℕ)
    (counts : AcceptLaws e accepted) (base : ℕ) where
  -- After one round, `n` packets or one more.
  Round : ℕ → ℕ → BenchState e → BenchState e → Type 0
  Round k n s t =
      (t.objects ≡ s.objects)
      × ((IsBilled accepted base k n t) ⊎ (IsBilled accepted base k (n + 1) t))

  send-Round :
      (k n i a : ℕ) (content : NativePacket) (p : Peer) (s : BenchState e)
      → IsBilled accepted base k n s
      → get_elem? s.objects i ≡ some p
      → e.packet_at s.world a ≡ some content
      → Leaves (Round k n s) (send_counted e i (record { native = some a }) (count_sent k) s)
  unfolding send_counted on_world Peer.send Peer.send_on Peer.drop_packet Packet.destroy Packet.free
      Peer.native_send Packet.native_handle Round
  send-Round k n i a content p s billed there alive = elim (Option-cases p.native_peer) [
    | inl off ↦
        rw (there, ◌>>=◌)
          (rw (off, Peer.send_on)
            (rw (alive, ◌>>=◌)
              (refl, inl (same-IsBilled accepted base k n s _ (counts.freed a s.world) billed))))
    | inr (native, on) ↦
        rw (there, ◌>>=◌)
          (rw (on, Peer.send_on)
            (elim (Bool-cases (is_zero (e.peer_send native 0 a s.world).0)) [
              | inl good ↦ rw good (
                refl,
                inr (
                    count_sent-IsBilled accepted base k n s _ (counts.taken native 0 a s.world good)
                      billed),
              )
              | inr bad ↦ rw bad (
                refl,
                inl (
                    same-IsBilled accepted base k n s _ (counts.refused native 0 a s.world bad)
                      billed),
              )
            ]))
  ]

  round-Leaves :
      (k n i : ℕ) (b : PacketBuilder) (p : Peer) (s : BenchState e)
      → IsBilled accepted base k n s
      → get_elem? s.objects i ≡ some p
      → Leaves
          (Round k n s)
          ((build_reliable e b >>= λ packet. send_counted e i packet (count_sent k)) s)
  unfolding Round
  round-Leaves k n i b p s billed there =
      let w = (e.packet_create (Builder.span b) (e.flag_value PacketFlag.reliable) s.world).1 in
      let made_same = same-IsBilled accepted base k n s w (counts.made _ _ s.world) billed in
      elim (build_reliable_cases e laws b s) [
        | inl failed ↦ rw (failed, ◌>>=◌) (refl, inl made_same)
        | inr (a, content, made, alive) ↦
            rw (made, ◌>>=◌)
              (send-Round k n i a content p (record s { world = w }) made_same there alive)
      ]

  -- After at most `r` rounds from `n` packets.
  abbrev Rounds : ℕ → ℕ → ℕ → BenchState e → Type 0
  Rounds k n r t = (j : ℕ) × (n ≤ j) × (j ≤ n + r) × IsBilled accepted base k j t

  next-Rounds :
      (k n r : ℕ) (rest : Exec (BenchState e) (Unit {0})) (p : Peer) (i : ℕ) (b : PacketBuilder)
      (s : BenchState e)
      → IsBilled accepted base k n s
      → get_elem? s.objects i ≡ some p
      → ((n' : ℕ) (t : BenchState e)
          → IsBilled accepted base k n' t
          → get_elem? t.objects i ≡ some p
          → Leaves (Rounds k n' r) (rest t))
      → Leaves
          (Rounds k n (suc r))
          (((build_reliable e b >>= λ packet. send_counted e i packet (count_sent k)) >> rest) s)
  unfolding Round
  next-Rounds k n r rest p i b s billed there further =
      >>=-Leaves (build_reliable e b >>= λ packet. send_counted e i packet (count_sent k))
        (λ _. rest) s (Round k n s) (Rounds k n (suc r)) (round-Leaves k n i b p s billed there)
        (λ t (kept, counted). elim counted [
          | inl same ↦ (n, omega arith, omega arith, same)
          | inr more ↦ (n + 1, omega arith, omega arith, more)
        ])
        λ _ t (kept, counted). elim counted [
          | inl same ↦
              Leaves-mono (Rounds k n r) (Rounds k n (suc r)) _ (further n t same (rw kept there))
                λ u (j, low, high, billed'). (j, low, omega (arith, high), billed')
          | inr more ↦
              Leaves-mono (Rounds k (n + 1) r) (Rounds k n (suc r)) _
                (further (n + 1) t more (rw kept there))
                λ u (j, low, high, billed'). (j, omega (arith, low), omega (arith, high), billed')
        ]

  run_burst-Rounds :
      (k n i q r : ℕ) (p : Peer) (s : BenchState e)
      → IsBilled accepted base k n s
      → get_elem? s.objects i ≡ some p
      → Leaves (Rounds k n r) (run_burst e i k q r s)
  unfolding run_burst
  run_burst-Rounds k n i q zero p s billed there = (n, omega arith, omega arith, billed)
  run_burst-Rounds k n i q (suc r) p s billed there =
      next-Rounds k n r (run_burst e i k (q + 1) r) p i (build_burst k (q % 2 ^ 32)) s billed there
        λ n' t billed' there'. run_burst-Rounds k n' i (q + 1) r p t billed' there'

  run_throughput-Rounds :
      (k n i r : ℕ) (p : Peer) (s : BenchState e)
      → IsBilled accepted base k n s
      → get_elem? s.objects i ≡ some p
      → Leaves (Rounds k n r) (run_throughput e i k r s)
  unfolding run_throughput
  run_throughput-Rounds k n i zero p s billed there = (n, omega arith, omega arith, billed)
  run_throughput-Rounds k n i (suc r) p s billed there =
      next-Rounds k n r (run_throughput e i k r) p i (build_throughput k) s billed there
        λ n' t billed' there'. run_throughput-Rounds k n' i r p t billed' there'

  length-build_throughput : (k : ℕ) → length (Builder.span (build_throughput k)) ≡ k
  unfolding build_throughput Builder.span Builder.write_memory Builder.insert_end Builder.new
  length-build_throughput k = length-replicate k 0x42

  length-build_burst : (k i : ℕ) → 4 ≤ k → length (Builder.span (build_burst k i)) ≡ k
  unfolding build_burst Builder.span Builder.write_memory Builder.insert_end Builder.new
      Builder.write_uint32
  length-build_burst k i h = omega (
    arith,
    length-append (repr m.endian 4 i) (replicate (k - 4) 0x55),
    length-repr m.endian 4 i,
    length-replicate {A = ℕ} (k - 4) 0x55,
  )

module _ ⦃m : Platform⦄ (e : Enet) (laws : PacketLaws e) (accepted : e.World → ℕ)
    (counts : AcceptLaws e accepted) where
  -- The peer object is there, a packet has 4 bytes at least, and the sizes of all `r` packets do not
  -- overflow. Both loops, from counters that were reset, come to an end without undefined behaviour,
  -- whatever ENet answers and wherever an exception ends them: `packets_sent` is the number of packets
  -- that ENet has accepted, at most `r`, and `bytes_sent` is that number times the size, which is what
  -- each packet has.
  pub sending_lem :
      (k r i : ℕ) (p : Peer) (s : BenchState e)
      → 4 ≤ k
      → k * r < size_mod
      → get_elem? s.objects i ≡ some p
      → let fresh = record s { app = reset_counters s.app } in
        Leaves (IsExact accepted s k r) (run_throughput e i k r fresh)
        × (length (Builder.span (build_throughput k)) ≡ k)
        × Leaves (IsExact accepted s k r) (run_burst e i k 0 r fresh)
        × ((q : ℕ) → length (Builder.span (build_burst k q)) ≡ k)
  unfolding reset_counters
  sending_lem k r i p s four fits there =
      let fresh = record s { app = reset_counters s.app } in
      let base = accepted s.world in
      let billed : IsBilled accepted base k 0 fresh = record {
        tally = omega arith;
        packets = refl;
        bytes = omega arith;
      } in
      (
        Leaves-mono (Rounds e laws accepted counts base k 0 r) _ _
            (run_throughput-Rounds e laws accepted counts base k 0 i r p fresh billed there) exact,
        length-build_throughput e laws accepted counts base k,
        Leaves-mono (Rounds e laws accepted counts base k 0 r) _ _
            (run_burst-Rounds e laws accepted counts base k 0 i 0 r p fresh billed there) exact,
        λ q. length-build_burst e laws accepted counts base k q four,
      )
    where
      exact :
          (t : BenchState e)
          → Rounds e laws accepted counts (accepted s.world) k 0 r t
          → IsExact accepted s k r t
      exact t (j, low, high, billed) =
          let more = mul_le (r - j) k j in
          let below : j + (r - j) ≡ r = omega (arith, high) in
          (
            j,
            omega (arith, high),
            billed.tally,
            omega (arith, billed.packets, high, rw below at more, mul_one_le k j four, fits),
            omega (arith, billed.bytes, rw below at more, fits),
          )
