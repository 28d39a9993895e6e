-- ===== src/Host/Broadcast.antt =====
-- What `Host::broadcast` does with its packet.
use icelander.Prelude.{ℕ, ◌≡◌, refl, ◌∙◌, Option, none, some, done}
use icelander.Enet.{Enet, NativePacket, PacketLaws}
use icelander.Packet
use icelander.Packet.{Packet}
use icelander.Peer.{drop_packet}
use icelander.Host.Refs.{State, on_world}
use icelander.Host.Calls.{broadcast_on, native_broadcast}

module _ (e : Enet) {A : Type 0} where
  broadcast_shut :
      (channel : ℕ) (pkt : Option Packet) (s : State e A)
      → s.native_host ≡ none
      → broadcast_on e channel pkt s ≡ on_world (drop_packet e pkt) s
  unfolding broadcast_on
  broadcast_shut channel pkt s shut = simp (shut, broadcast_on)

  -- A live packet that is given to `broadcast` is handed to ENet with its channel on an open
  -- host, and destroyed on a host without an ENet host.
  pub broadcast_lem :
      (laws : PacketLaws e) (channel a : ℕ) (n : NativePacket) (s : State e A)
      → e.packet_at s.world a ≡ some n
      → let pkt : Option Packet = some (record { native = some a }) in
        ((h : ℕ)
          → s.native_host ≡ some h
          → broadcast_on e channel pkt s
            ≡ done tt (record s { world = e.host_broadcast h channel a s.world }))
        × (s.native_host ≡ none
            → (t : State e A) × (broadcast_on e channel pkt s ≡ done tt t)
              × (e.packet_at t.world a ≡ none))
  unfolding broadcast_on native_broadcast on_world drop_packet Packet.destroy Packet.free
      Packet.native_handle
  broadcast_lem laws channel a n s alive = (
    λ h opened. simp (opened, broadcast_on),
    λ shut. (
      record s { world = e.packet_destroy a s.world },
      broadcast_shut channel (some (record { native = some a })) s shut ∙ rw (alive, on_world) refl,
      laws.destroyed a s.world,
    ),
  )
