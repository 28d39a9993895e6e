-- ===== src/Apps/Benchmark.antt =====
-- examples/advanced/performance_benchmark.cpp: the counters, the messages, the handlers and the
-- loops that send. Both hosts count into the same object.
pub mod Statistics
pub mod Echo
pub mod Accounts
pub mod Rates
pub mod Tests
use icelander.Prelude.{
  ℕ, zero, suc, ◌+◌, ◌-◌, ◌%◌, ◌^◌, List, [], ◌∷◌, ◌++◌, Bool, leb, if◌then◌else◌, none, some,
  replicate, Option, Outcome, done, thrown, fault, Exec, ◌>>=◌, ◌>>◌, pure, or_fault, size_mod,
}
use icelander.Bytes.{Platform}
use icelander.Enet.{Enet}
use icelander.Builder
use icelander.Builder.{PacketBuilder}
use icelander.Reader
use icelander.Packet
use icelander.Packet.{Packet}
use icelander.Peer
use icelander.Dispatcher
use icelander.Dispatcher.{ConnectEvent, ReceiveEvent, EventDispatcher, Handler}
use icelander.Host.Refs.{State, on_world}
use icelander.Apps.Handlers.{
  modify, object, reading, catching, build_reliable, send_to, open_reader,
}

-- The atomic counters are `uint64_t`. A latency is kept in nanoseconds, where the code divides by a
-- million.
pub record Counters : Type 0 where
  pub packets_sent : ℕ
  pub packets_received : ℕ
  pub bytes_sent : ℕ
  pub bytes_received : ℕ
  pub latency_measurements : List ℕ

unfoldable pub reset_counters : Counters → Counters
reset_counters c = record c {
  packets_sent = 0;
  packets_received = 0;
  bytes_sent = 0;
  bytes_received = 0;
}

-- `bytes_received_ += size; packets_received_++`
unfoldable pub count_received : ℕ → Counters → Counters
count_received size c = record c {
  bytes_received = (c.bytes_received + size) % size_mod;
  packets_received = (c.packets_received + 1) % size_mod;
}

-- `packets_sent_++; bytes_sent_ += packet_size`
unfoldable pub count_sent : ℕ → Counters → Counters
count_sent packet_size c = record c {
  packets_sent = (c.packets_sent + 1) % size_mod;
  bytes_sent = (c.bytes_sent + packet_size) % size_mod;
}

-- `packets_sent_++` of the pings, which count no bytes
unfoldable pub count_ping : Counters → Counters
count_ping c = record c { packets_sent = (c.packets_sent + 1) % size_mod }

-- `packets_sent_ - packets_received_`, the lost packets
unfoldable pub lost : Counters → ℕ
lost c = (c.packets_sent + size_mod - c.packets_received) % size_mod

module _ ⦃m : Platform⦄ where
  -- `packet_size` bytes 0x42
  unfoldable pub build_throughput : ℕ → PacketBuilder
  build_throughput packet_size = Builder.write_memory (replicate packet_size 0x42) Builder.new

  unfoldable pub build_ping : ℕ → PacketBuilder
  build_ping timestamp = Builder.write_uint64 0 (Builder.write_uint64 timestamp Builder.new)

  -- the sequence number and `packet_size - 4` bytes 0x55
  unfoldable pub build_burst : ℕ → ℕ → PacketBuilder
  build_burst packet_size i =
      Builder.write_memory (replicate (packet_size - 4) 0x55) (Builder.write_uint32 i Builder.new)

module _ ⦃m : Platform⦄ (e : Enet) where
  abbrev pub BenchState : Type 0
  BenchState = State e Counters

  -- `event.packetData->size()` and `->data()`
  unfoldable pub size_of : Option Packet → Exec BenchState ℕ
  size_of packet_data = do pkt ← or_fault packet_data; on_world (Packet.size e pkt)

  unfoldable pub bytes_of : Option Packet → Exec BenchState (List ℕ)
  bytes_of packet_data = do pkt ← or_fault packet_data; on_world (Packet.span e pkt)

  -- The server's handler: the reader that it opens is not used.
  unfoldable pub on_receive_server : Handler BenchState ReceiveEvent
  on_receive_server v = do
    size ← size_of v.packet_data
    modify (count_received size)
    _ ← open_reader e v.packet_data
    size ← size_of v.packet_data
    if leb 8 size
        then (do
          bytes ← bytes_of v.packet_data
          echo_packet ← build_reliable e (Builder.write_memory bytes Builder.new)
          send_to e v.peer_handle echo_packet)
        else pure tt

  -- The connect handler only prints.
  unfoldable pub on_connect_server : Handler BenchState ConnectEvent
  on_connect_server v = pure tt

  unfoldable pub server_dispatcher : EventDispatcher BenchState
  server_dispatcher =
      Dispatcher.on_receive on_receive_server
        (Dispatcher.on_connect on_connect_server Dispatcher.new)

  -- The client's handler, `now` the reading of the clock: `now - sent_time` is unsigned.
  unfoldable pub on_receive_client : ℕ → Handler BenchState ReceiveEvent
  on_receive_client now v = do
    size ← size_of v.packet_data
    modify (count_received size)
    size ← size_of v.packet_data
    if leb 16 size
        then (do
          reader ← open_reader e v.packet_data
          catching
              (do
                sent_time ← reading Reader.read_uint64 reader
                modify (λ c. record c {
                  latency_measurements =
                      c.latency_measurements ++ ((now + size_mod - sent_time) % size_mod) ∷ [];
                }))
              (pure tt))
        else pure tt

  -- `if (server_peer_->send(std::move(packet))) …`
  unfoldable pub send_counted : ℕ → Packet → (Counters → Counters) → Exec BenchState (Unit {0})
  send_counted i pkt count = do
    p ← object i
    accepted ← on_world (Peer.send e (some pkt) p)
    if accepted then modify count else pure tt

  -- The loop of the throughput test: one round for each `true` of the loop's condition. An exception
  -- leaves the function of the thread.
  unfoldable pub run_throughput : ℕ → ℕ → ℕ → Exec BenchState (Unit {0})
  run_throughput i packet_size zero = pure tt
  run_throughput i packet_size (suc rounds) =
      (do
        packet ← build_reliable e (build_throughput packet_size)
        send_counted i packet (count_sent packet_size))
      >> run_throughput i packet_size rounds

  -- The loop of the burst test from the sequence number `k`, `rounds` to go.
  unfoldable pub run_burst : ℕ → ℕ → ℕ → ℕ → Exec BenchState (Unit {0})
  run_burst i packet_size k zero = pure tt
  run_burst i packet_size k (suc rounds) =
      (do
        packet ← build_reliable e (build_burst packet_size (k % 2 ^ 32))
        send_counted i packet (count_sent packet_size))
      >> run_burst i packet_size (k + 1) rounds

  -- The loop of the latency test, with the readings of the clock.
  unfoldable pub run_pings : ℕ → List ℕ → Exec BenchState (Unit {0})
  run_pings i [] = pure tt
  run_pings i (timestamp ∷ times) =
      (do
        ping_packet ← build_reliable e (build_ping timestamp)
        send_counted i ping_packet count_ping)
      >> run_pings i times
