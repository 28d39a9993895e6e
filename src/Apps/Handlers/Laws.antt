-- ===== src/Apps/Handlers/Laws.antt =====
-- What the parts of a handler come to where its packet is live and ENet makes the packets it asks for.
use icelander.Prelude.{
  ◌⊎◌, inl, inr, Option-cases, packet_create_failed, ℕ, ◌≡◌, refl, some, done, thrown, ◌>>=◌,
  get_elem?,
}
use icelander.Types.{PacketFlag}
use icelander.Enet.{Enet, NativePacket, PacketLaws}
use icelander.Builder
use icelander.Builder.{PacketBuilder}
use icelander.Reader
use icelander.Packet
use icelander.Packet.{Packet}
use icelander.Packet.Contents.{span_live, build_made, build_cases}
use icelander.Peer
use icelander.Peer.{Peer}
use icelander.Host.Refs.{State, on_world}
use icelander.Apps.Handlers.{build_reliable, send_to, open_reader}

module _ (e : Enet) (laws : PacketLaws e) {A : Type 0} where
  pub open_reader_live :
      (a : ℕ) (n : NativePacket) (s : State e A)
      → e.packet_at s.world a ≡ some n
      → open_reader e (some (record { native = some a })) s ≡ done (Reader.new n.contents) s
  unfolding open_reader on_world Packet.reader
  open_reader_live a n s alive = rw (span_live e laws a n s.world alive, ◌>>=◌, on_world) refl

  pub build_reliable_made :
      (b : PacketBuilder) (a : ℕ) (w : e.World) (s : State e A)
      → e.packet_create (Builder.span b) (e.flag_value PacketFlag.reliable) s.world ≡ (some a, w)
      → build_reliable e b s ≡ done (record { native = some a }) (record s { world = w })
  unfolding build_reliable on_world
  build_reliable_made b a w s made =
      rw (build_made e laws b (e.flag_value PacketFlag.reliable) a s.world w made, on_world) refl

  -- `send_to` hands the packet to ENet, whatever ENet answers.
  pub send_to_peer :
      (i a native : ℕ) (p : Peer) (s : State e A)
      → get_elem? s.objects i ≡ some p
      → p.native_peer ≡ some native
      → send_to e i (record { native = some a }) s
        ≡ done tt (record s { world = (e.peer_send native 0 a s.world).1 })
  unfolding send_to on_world Peer.send Peer.send_on Peer.native_send Packet.native_handle
  send_to_peer i a native p s there on = rw (there, ◌>>=◌) (rw (on, Peer.send_on) refl)

  -- A build throws or makes a live packet, and touches nothing but ENet.
  pub build_reliable_cases :
      (b : PacketBuilder) (s : State e A)
      → let w = (e.packet_create (Builder.span b) (e.flag_value PacketFlag.reliable) s.world).1 in
        (build_reliable e b s ≡ thrown packet_create_failed (record s { world = w }))
        ⊎ ((a : ℕ) × (n : NativePacket) × (build_reliable e b s
              ≡ done (record { native = some a }) (record s { world = w }))
            × (e.packet_at w a ≡ some n))
  unfolding build_reliable on_world
  build_reliable_cases b s =
      elim (build_cases e laws b (e.flag_value PacketFlag.reliable) s.world) [
        | inl failed ↦ inl (rw (failed, on_world) refl)
        | inr (a, n, made, alive) ↦ inr (a, n, rw (made, on_world) refl, alive)
      ]

  -- `send_to` of a live packet returns.
  pub send_to_done :
      (i a : ℕ) (n : NativePacket) (p : Peer) (s : State e A)
      → get_elem? s.objects i ≡ some p
      → e.packet_at s.world a ≡ some n
      → (w : e.World) × (send_to e i (record { native = some a }) s
          ≡ done tt (record s { world = w }))
  unfolding send_to on_world Peer.send Peer.send_on Peer.drop_packet Packet.destroy Packet.free
  send_to_done i a n p s there alive = elim (Option-cases p.native_peer) [
    | inl off ↦ (
      e.packet_destroy a s.world,
      rw (there, ◌>>=◌) (rw (off, Peer.send_on) (rw (alive, ◌>>=◌) refl)),
    )
    | inr (native, on) ↦ (_, send_to_peer i a native p s there on)
  ]
