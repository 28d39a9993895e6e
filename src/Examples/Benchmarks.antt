-- ===== src/Examples/Benchmarks.antt =====
-- The benchmark of the examples on the sample ENet.
use icelander.Prelude.{
  ℕ, pos, false, zero, suc, List, ◌+◌, ◌-◌, ◌*◌, ◌/◌, ◌≤◌, ◌<◌, ◌≡◌, refl, [], ◌∷◌, ◌++◌, none,
  some, true, done, length, Leaves, arith, size_mod,
}
use icelander.Types.{EventType}
use icelander.Enet.{Enet, NativePacket, PacketLaws}
use icelander.Enet.Sample.{World, sample, sample_laws}
use icelander.Builder
use icelander.Peer.{Peer}
use icelander.Dispatcher.{ReceiveEvent}
use icelander.Host.Refs.{State}
use icelander.Apps.Benchmark.{
  Counters, reset_counters, count_received, build_ping, build_burst, build_throughput,
  on_receive_server, on_receive_client, run_burst, run_throughput,
}
use icelander.Apps.Benchmark.Tests.{Arrival, run_throughput_test, run_latency_test, run_burst_test}
use icelander.Apps.Benchmark.Tests.Arrivals.{latencies, heard}
use icelander.Apps.Benchmark.Tests.Rounds.{Returns}
use icelander.Apps.Benchmark.Tests.Reports.{IsThroughput, IsReported, IsBurst, tests_print}
use icelander.Apps.Benchmark.Echo.{Brings, ping_round_trip}
use icelander.Apps.Benchmark.Rates.{Double, IsDouble}
use native.Mathlib.Nat.{mul-div_cancel}
use icelander.Apps.Benchmark.Accounts.{AcceptLaws, IsExact, sending_lem}
use icelander.Examples.Platforms.{little_machine}
use icelander.Examples.Hosts.{far}

abbrev pub counters : Counters
counters = record {
  packets_sent = 4;
  packets_received = 7;
  bytes_sent = 9;
  bytes_received = 2;
  latency_measurements = 30 ∷ 10 ∷ 20 ∷ [];
}

-- A `double` that rounds down to whole numbers.
abbrev whole : Double ℕ
whole = record { of = λ n. n; mul = λ a b. a * b; div = λ a b. a / b }

whole-IsDouble : IsDouble whole
whole-IsDouble = record {
  mul_exact = λ a b ha hb hab. refl;
  div_exact = λ a b hb ha hab. mul-div_cancel a hb;
}

-- The ping that was built at 70
abbrev ping_packet : NativePacket
ping_packet = record {
  reference_count = 0;
  flags = 1;
  contents = Builder.span (build_ping ⦃m = little_machine⦄ 70);
}

abbrev peer_object : Peer
peer_object = record { native_peer = some 0; host = some 0; user_data = none }

abbrev bench : State sample Counters
bench = record {
  world = record { heap = some ping_packet ∷ []; peers = far ∷ []; inbox = [] };
  native_host = some 0;
  is_server = true;
  peers = 0 ∷ [];
  objects = peer_object ∷ [];
  strong = λ i. 1;
  app = counters;
}

abbrev delivery : ReceiveEvent
delivery = record { peer_handle = 0; packet_data = some (record { native = some 0 }); channel = 0 }

abbrev echoed : World
echoed = (sample.packet_create ping_packet.contents 1 bench.world).1

-- An ENet that accepts every packet, and notes it in its queue of events.
abbrev taking : Enet
taking = record sample {
  peer_send = λ p c a w. (
    pos 0,
    record w {
      inbox =
          record { kind = EventType.none; peer = p; channel_id = c; payload = 0; packet = none }
          ∷ w.inbox;
    },
  );
}

abbrev noted : World → ℕ
noted w = length w.inbox

taking_laws : PacketLaws taking
taking_laws = record {
  created = sample_laws.created;
  created_fresh = sample_laws.created_fresh;
  created_others = sample_laws.created_others;
  destroyed = sample_laws.destroyed;
  destroyed_others = sample_laws.destroyed_others;
  resized = sample_laws.resized;
  resize_failed = sample_laws.resize_failed;
  resized_others = sample_laws.resized_others;
}

taking_counts : AcceptLaws taking noted
taking_counts = record {
  taken = λ p c a w q. omega arith;
  refused = λ p c a w q. cc;
  made = λ bs fl w. refl;
  freed = λ a w. refl;
}

abbrev sending : State taking Counters
sending = record {
  world = bench.world;
  native_host = bench.native_host;
  is_server = false;
  peers = bench.peers;
  objects = bench.objects;
  strong = bench.strong;
  app = counters;
}

sending_lem_example :
    let fresh = record sending { app = reset_counters counters } in
    Leaves
      (IsExact noted sending 512 1000)
      (run_throughput ⦃m = little_machine⦄ taking 0 512 1000 fresh)
    × (length (Builder.span (build_throughput ⦃m = little_machine⦄ 512)) ≡ 512)
    × Leaves
        (IsExact noted sending 512 1000)
        (run_burst ⦃m = little_machine⦄ taking 0 512 0 1000 fresh)
    × ((q : ℕ) → length (Builder.span (build_burst ⦃m = little_machine⦄ 512 q)) ≡ 512)
sending_lem_example =
    sending_lem ⦃m = little_machine⦄ taking taking_laws noted taking_counts 512 1000 0 peer_object
      sending (omega arith) (omega arith) refl

ping_round_trip_example :
    (sent : NativePacket) × (sample.packet_at echoed 1 ≡ some sent)
    × (on_receive_server ⦃m = little_machine⦄ sample delivery bench
        ≡ done tt (record bench { world = echoed; app = count_received 16 counters }))
    × ((now : ℕ) (u : ReceiveEvent) (c : State sample Counters)
        → 70 ≤ now
        → now < size_mod
        → Brings ⦃m = little_machine⦄ sample sample_laws c u sent.contents
        → on_receive_client ⦃m = little_machine⦄ sample now u c
          ≡ done tt (record c {
            app = record (count_received 16 c.app) {
              latency_measurements = c.app.latency_measurements ++ (now - 70) ∷ [];
            };
          }))
ping_round_trip_example =
    ping_round_trip ⦃m = little_machine⦄ sample sample_laws 70 1 0 delivery peer_object echoed bench
      (0, ping_packet, refl, refl, refl) refl refl refl

-- The first packet of a test and its echo arrive before the second is sent.
abbrev echo_at_first : ℕ → List Arrival
echo_at_first zero =
    record { size = 16; latency = none } ∷ record { size = 16; latency = some 30 } ∷ []
echo_at_first (suc k) = []

abbrev in_sleep : List Arrival
in_sleep = record { size = 16; latency = some 20 } ∷ []

tests_print_example :
    Returns
      (λ r _. IsThroughput whole 2 (heard echo_at_first 0 2 ++ in_sleep) r)
      (run_throughput_test ⦃m = little_machine⦄ sample whole 0 3 2 echo_at_first in_sleep bench)
    × Returns
        (λ r _. IsReported (latencies (heard echo_at_first 0 100 ++ in_sleep)) r)
        (run_latency_test ⦃m = little_machine⦄ sample 0 (λ k. 70 + k) echo_at_first in_sleep bench)
    × Returns
        (λ b _. IsBurst whole (heard echo_at_first 0 1000 ++ in_sleep) b)
        (run_burst_test ⦃m = little_machine⦄ sample whole 0 3 echo_at_first in_sleep bench)
tests_print_example =
    tests_print ⦃m = little_machine⦄ sample sample_laws whole 0 peer_object 3 2 (λ k. 70 + k)
      echo_at_first in_sleep bench refl
