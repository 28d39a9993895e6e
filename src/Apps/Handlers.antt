-- ===== src/Apps/Handlers.antt =====
-- What handlers are made of: the application's own state, calls on a Peer through its `shared_ptr`, a
-- local reader, a local packet, and `catch`.
pub mod Laws
use icelander.Prelude.{
  ℕ, ◌≡◌, List, ◌∷◌, [], ◌++◌, Option, none, some, Bool, Outcome, done, thrown, fault, Exec, ◌>>=◌,
  ◌>>◌, pure, or_fault, get_elem?,
}
use icelander.Types.{PacketFlag}
use icelander.Enet.{Enet}
use icelander.Builder.{PacketBuilder}
use icelander.Reader.{PacketReader}
use icelander.Packet
use icelander.Packet.{Packet}
use icelander.Peer
use icelander.Peer.{Peer}
use icelander.Host.Refs.{State, on_world}

module _ {e : Enet} {A : Type 0} where
  abbrev pub modify : (A → A) → Exec (State e A) (Unit {0})
  modify f s = done tt (record s { app = f s.app })

  -- `->` on a `shared_ptr` to a Peer
  abbrev pub object : ℕ → Exec (State e A) Peer
  object i s = or_fault (get_elem? s.objects i) s

  -- Reads of a local PacketReader, which ends with the block.
  abbrev pub reading : {B : Type 0} → Exec PacketReader B → PacketReader → Exec (State e A) B
  reading m r s = elim (m r) [ done b _ ↦ done b s | thrown x _ ↦ thrown x s | fault ↦ fault ]

  -- `try { … } catch (const std::exception& e) { … }`
  abbrev pub catching :
      Exec (State e A) (Unit {0}) → Exec (State e A) (Unit {0}) → Exec (State e A) (Unit {0})
  catching m k s = elim (m s) [ done _ t ↦ done tt t | thrown _ t ↦ k t | fault ↦ fault ]

module _ (e : Enet) {A : Type 0} where
  -- `builder.build(static_cast<PacketFlagsT>(PacketFlag::reliable))`
  unfoldable pub build_reliable : PacketBuilder → Exec (State e A) Packet
  build_reliable b = on_world (Packet.build e b (e.flag_value PacketFlag.reliable))

  -- `peer->send(std::move(packet))`, its result unused
  unfoldable pub send_to : ℕ → Packet → Exec (State e A) (Unit {0})
  send_to i pkt = do p ← object i; _ ← on_world (Peer.send e (some pkt) p); pure tt

  -- The destructor of a local packet, by the end of its block or by an exception.
  unfoldable pub with_packet : Packet → Exec (State e A) (Unit {0}) → Exec (State e A) (Unit {0})
  with_packet pkt m s = elim (m s) [
    | done _ t ↦ on_world (Packet.destroy e pkt) t
    | thrown x t ↦ (on_world (Packet.destroy e pkt) >>= λ _ u. thrown x u) t
    | fault ↦ fault
  ]

  -- `PacketReader reader(*event.packetData)`: undefined behaviour if the pointer is null.
  unfoldable pub open_reader : Option Packet → Exec (State e A) PacketReader
  open_reader packet_data = do pkt ← or_fault packet_data; on_world (Packet.reader e pkt)
