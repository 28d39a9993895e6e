-- ===== src/Apps/Benchmark/Echo.antt =====
-- A packet of the benchmark at the server, and on its way back.
use icelander.Prelude.{
  ℕ, ◌+◌, ◌-◌, ◌%◌, ◌^◌, ◌≤◌, ◌<◌, ◌≡◌, refl, ap, ◌∙◌, List, [], ◌∷◌, ◌++◌, Option, some, le→leb,
  gt→leb, length, length-append, size_mod, arith, done, ◌>>=◌, get_elem?,
}
use icelander.Bytes.{Platform, repr, length-repr}
use icelander.Enet.{Enet, NativePacket, PacketLaws}
use icelander.Types.{PacketFlag}
use icelander.Builder
use icelander.Builder.{PacketBuilder}
use icelander.Reader
use icelander.Packet
use icelander.Packet.{Packet}
use icelander.Packet.Contents.{span_live}
use icelander.Peer.{Peer}
use icelander.Dispatcher.{ReceiveEvent}
use icelander.Host.Refs.{on_world}
use icelander.Message.RoundTrip.{between, read_uint64-between}
use icelander.Apps.Handlers.{open_reader}
use icelander.Apps.Handlers.Laws.{open_reader_live, build_reliable_made, send_to_peer}
use icelander.Apps.Benchmark.{
  BenchState, size_of, bytes_of, count_received, build_ping, on_receive_server, on_receive_client,
}

module _ ⦃m : Platform⦄ (e : Enet) (laws : PacketLaws e) where
  -- A receive event with the packet `a`, which has the bytes `bs`.
  abbrev pub Brings : BenchState e → ReceiveEvent → List ℕ → Type 0
  Brings s v bs =
      (a : ℕ) × (n : NativePacket) × (◌≡◌ {A = Option Packet} v.packet_data
        (some (record { native = some a })))
      × (e.packet_at s.world a ≡ some n)
      × (n.contents ≡ bs)

  size_of_live :
      (v : ReceiveEvent) (bs : List ℕ) (s : BenchState e)
      → Brings s v bs
      → size_of e v.packet_data s ≡ done (length bs) s
  unfolding size_of on_world Packet.size Packet.deref
  size_of_live v bs s (a, n, here, alive, same) =
      rw (here, ◌>>=◌, size_of) (rw (alive, ◌>>=◌, Packet.deref, on_world) (rw same refl))

  bytes_of_live :
      (v : ReceiveEvent) (bs : List ℕ) (s : BenchState e)
      → Brings s v bs
      → bytes_of e v.packet_data s ≡ done bs s
  unfolding bytes_of on_world
  bytes_of_live v bs s (a, n, here, alive, same) =
      rw (here, ◌>>=◌, bytes_of)
        (rw (span_live e laws a n s.world alive, ◌>>=◌, on_world) (rw same refl))

  reader_of_live :
      (v : ReceiveEvent) (bs : List ℕ) (s : BenchState e)
      → Brings s v bs
      → open_reader e v.packet_data s ≡ done (Reader.new bs) s
  reader_of_live v bs s (a, n, here, alive, same) =
      rw here (open_reader_live e laws a n s alive ∙ rw same refl)

  -- The packet that the server sends back has the bytes of the packet.
  abbrev echo : List ℕ → PacketBuilder
  echo bs = Builder.write_memory bs Builder.new

  span-echo : (bs : List ℕ) → Builder.span (echo bs) ≡ bs
  unfolding Builder.span Builder.write_memory Builder.insert_end Builder.new
  span-echo bs = refl

  -- The server counts every packet; one of 8 bytes or more goes back to its peer with the same bytes,
  -- in the packet that ENet makes at `b`, and nothing is sent for a shorter one.
  server_lem :
      (b native : ℕ) (bs : List ℕ) (v : ReceiveEvent) (p : Peer) (w : e.World) (s : BenchState e)
      → Brings s v bs
      → get_elem? s.objects v.peer_handle ≡ some p
      → p.native_peer ≡ some native
      → let counted = record s { app = count_received (length bs) s.app } in
        (8 ≤ length bs
          → e.packet_create bs (e.flag_value PacketFlag.reliable) s.world ≡ (some b, w)
          → on_receive_server e v s
            ≡ done tt (record counted { world = (e.peer_send native 0 b w).1 }))
        × (length bs < 8 → on_receive_server e v s ≡ done tt counted)
  unfolding on_receive_server
  server_lem b native bs v p w s brings there on =
      let counted = record s { app = count_received (length bs) s.app } in
      (
        (λ long made.
            rw (size_of_live v bs s brings, ◌>>=◌)
              (rw (reader_of_live v bs counted brings, ◌>>=◌)
                (rw (size_of_live v bs counted brings, ◌>>=◌)
                  (rw (le→leb 8 (length bs) long) (
                    rw (bytes_of_live v bs counted brings, ◌>>=◌)
                      (rw
                        (
                          build_reliable_made e laws (echo bs) b w counted (rw (span-echo bs) made),
                          ◌>>=◌,
                        )
                        (send_to_peer e laws v.peer_handle b native p (record counted { world = w })
                          there on))))))),
        λ short.
            rw (size_of_live v bs s brings, ◌>>=◌)
              (rw (reader_of_live v bs counted brings, ◌>>=◌)
                (rw (size_of_live v bs counted brings, ◌>>=◌)
                  (rw (gt→leb 8 (length bs) short) refl))),
      )

  span-ping :
      (timestamp : ℕ)
      → Builder.span (build_ping timestamp) ≡ repr m.endian 8 timestamp ++ repr m.endian 8 0
  unfolding build_ping Builder.span Builder.write_uint64 Builder.write_memory Builder.insert_end
      Builder.new
  span-ping timestamp = refl

  length-ping : (timestamp : ℕ) → length (Builder.span (build_ping timestamp)) ≡ 16
  length-ping timestamp = rw (span-ping timestamp) (
      omega (
        arith,
        length-append (repr m.endian 8 timestamp) (repr m.endian 8 0),
        length-repr m.endian 8 timestamp,
        length-repr m.endian 8 0,
      ))

  read_ping :
      (timestamp : ℕ)
      → timestamp < 2 ^ 64
      → Reader.read_uint64 (Reader.new (Builder.span (build_ping timestamp)))
        ≡ done timestamp (between (repr m.endian 8 timestamp) (repr m.endian 8 0))
  unfolding Reader.new
  read_ping timestamp small = rw (span-ping timestamp) (
      read_uint64-between timestamp [] (repr m.endian 8 0) small
        (omega (arith, length-ping timestamp, ap length (span-ping timestamp))))

  -- What the client makes of a ping that comes back.
  client_lem :
      (timestamp now : ℕ) (v : ReceiveEvent) (c : BenchState e)
      → timestamp ≤ now
      → now < size_mod
      → Brings c v (Builder.span (build_ping timestamp))
      → on_receive_client e now v c
        ≡ done tt (record c {
          app = record (count_received 16 c.app) {
            latency_measurements = c.app.latency_measurements ++ (now - timestamp) ∷ [];
          };
        })
  unfolding on_receive_client count_received
  client_lem timestamp now v c order small brings =
      let bs = Builder.span (build_ping timestamp) in
      let counted = record c { app = count_received 16 c.app } in
      let sixteen = length-ping timestamp in
      let back : (now + size_mod - timestamp) % size_mod ≡ now - timestamp =
        omega (arith, order, small) in
      rw (size_of_live v bs c brings ∙ ap (λ n. done n c) sixteen, ◌>>=◌)
        (rw (size_of_live v bs counted brings ∙ ap (λ n. done n counted) sixteen, ◌>>=◌)
          (rw (reader_of_live v bs counted brings, ◌>>=◌)
            (rw (read_ping timestamp (omega (arith, order, small)), ◌>>=◌) (rw back refl))))

  -- Of the two receive handlers, called on their packets. Given a ping in a live packet, from a
  -- peer object with an ENet peer, the handler of the server sends back a packet with the same
  -- bytes, the one that ENet makes at `b`; and the handler of the client, given a live packet with
  -- those bytes at `now`, not before the timestamp and before 2 ^ 64, measures the difference of
  -- the two times as latency. Both count the packet as received. That the handler of the server is
  -- reached is not said.
  pub ping_round_trip :
      (timestamp b native : ℕ) (v : ReceiveEvent) (p : Peer) (w : e.World) (s : BenchState e)
      → let bs = Builder.span (build_ping timestamp) in
        Brings s v bs
        → get_elem? s.objects v.peer_handle ≡ some p
        → p.native_peer ≡ some native
        → e.packet_create bs (e.flag_value PacketFlag.reliable) s.world ≡ (some b, w)
        → (sent : NativePacket) × (e.packet_at w b ≡ some sent)
          × (on_receive_server e v s
              ≡ done tt (record s {
                world = (e.peer_send native 0 b w).1;
                app = count_received 16 s.app;
              }))
          × ((now : ℕ) (u : ReceiveEvent) (c : BenchState e)
              → timestamp ≤ now
              → now < size_mod
              → Brings c u sent.contents
              → on_receive_client e now u c
                ≡ done tt (record c {
                  app = record (count_received 16 c.app) {
                    latency_measurements = c.app.latency_measurements ++ (now - timestamp) ∷ [];
                  };
                }))
  ping_round_trip timestamp b native v p w s brings there on made =
      let bs = Builder.span (build_ping timestamp) in
      let fresh =
        rw made at
          (laws.created bs (e.flag_value PacketFlag.reliable) s.world b (ap (λ r. r.0) made)) in
      let (long, short) = server_lem b native bs v p w s brings there on in
      let sixteen = length-ping timestamp in
      (
        _,
        fresh,
        long (omega (arith, sixteen)) made
            ∙ ap
                (λ n.
                  done tt (record s {
                    world = (e.peer_send native 0 b w).1;
                    app = count_received n s.app;
                  }))
                sixteen,
        λ now u c order small came. client_lem timestamp now u c order small came,
      )
