-- ===== src/Packet.antt =====
-- class Packet (include/icelander.hpp, src/packet.cpp): the owner of one ENet packet, or of none.
-- `build` of PacketBuilder and the constructor of PacketReader from a packet stand here too.
pub mod Ownership
pub mod Program
pub mod Calls
pub mod Lifetime
pub mod Contents
use icelander.Prelude.{
  ℕ, zero, ◌+◌, ◌<◌, ◌<◌, List, [], Option, none, some, Bool, true, false, not, ◌&&◌, length, ltb,
  ◌==◌, if◌then◌else◌, is_zero, Outcome, done, thrown, fault, Exec, ◌>>=◌, ◌>>◌, pure, throw,
  or_throw, or_fault, packet_create_failed, resize_null_packet, resize_failed, packet_too_small,
}
use Prim.Native.Nat.{bit_and}
use icelander.Bytes.{Serializable}
use icelander.Types.{PacketFlag}
use icelander.Enet.{Enet, NativePacket}
use icelander.Builder
use icelander.Builder.{PacketBuilder}
use icelander.Reader
use icelander.Reader.{PacketReader}

pub record Packet : Type 0 where
  pub native : Option ℕ

-- `Packet(Packet&&)`: the new object, and what is left of the old one
unfoldable pub move_construct : Packet → Packet × Packet
move_construct other = (record { native = other.native }, record { native = none })

unfoldable pub native_handle : Packet → Option ℕ
native_handle p = p.native

-- `fromNative`: a null pointer stays null.
unfoldable pub from_native : Option ℕ → Option Packet
from_native none = none
from_native (some a) = some (record { native = some a })

module _ (e : Enet) where
  -- A pointer to a packet is followed: undefined behaviour where no packet lies.
  unfoldable pub deref : ℕ → Exec e.World NativePacket
  deref a w = elim (e.packet_at w a) [ none ↦ fault | some p ↦ done p w ]

  -- `enet_packet_destroy`, a double free where no packet lies
  unfoldable pub free : ℕ → Exec e.World (Unit {0})
  free a w = elim (e.packet_at w a) [ none ↦ fault | some p ↦ done tt (e.packet_destroy a w) ]

  -- `Packet(const void*, size_t, PacketFlagsT)`; the constructors from a span and from a string
  -- delegate to it.
  unfoldable pub new : List ℕ → ℕ → Exec e.World Packet
  new bs flags w = elim (e.packet_create bs flags w).0 [
    | none ↦ thrown packet_create_failed (e.packet_create bs flags w).1
    | some a ↦ done (record { native = some a }) (e.packet_create bs flags w).1
  ]

  -- the template constructor and `create(const T&)`: `sizeof(T)` bytes of the object
  unfoldable pub create_value : {T : Type 0} → Serializable T → T → ℕ → Exec e.World Packet
  unfolding new
  create_value t v flags = new (t.to_memory v) flags

  -- `create`, from a span, from memory and from a string
  unfoldable pub create : List ℕ → ℕ → Exec e.World Packet
  unfolding new
  create bs flags = new bs flags

  -- `~Packet()`
  unfoldable pub destroy : Packet → Exec e.World (Unit {0})
  unfolding free
  destroy p = elim p.native [ none ↦ pure tt | some a ↦ free a ]

  -- `operator=(Packet&&)` between two objects: both as they are afterwards
  unfoldable pub move_assign : Packet → Packet → Exec e.World (Packet × Packet)
  unfolding free
  move_assign this other = do
    elim this.native [ none ↦ pure tt | some a ↦ free a ]
    pure (record { native = other.native }, record { native = none })

  -- `operator=(Packet&&)` of an object to itself
  unfoldable pub move_assign_self : Packet → Exec e.World Packet
  move_assign_self this = pure this

  -- `data()`: the null span is empty.
  unfoldable pub span : Packet → Exec e.World (List ℕ)
  unfolding deref
  span p = elim p.native [ none ↦ pure [] | some a ↦ do n ← deref a; pure n.contents ]

  unfoldable pub size : Packet → Exec e.World ℕ
  unfolding deref
  size p = elim p.native [ none ↦ pure 0 | some a ↦ do n ← deref a; pure (length n.contents) ]

  unfoldable pub flags : Packet → Exec e.World ℕ
  unfolding deref
  flags p = elim p.native [ none ↦ pure 0 | some a ↦ do n ← deref a; pure n.flags ]

  unfoldable pub reference_count : Packet → Exec e.World ℕ
  unfolding deref
  reference_count p = elim p.native [
    | none ↦ pure 0
    | some a ↦ do n ← deref a; pure n.reference_count
  ]

  -- the template `as<T>()`: the object that lies at the start of the data
  unfoldable pub as_value : {T : Type 0} → Serializable T → Packet → Exec e.World T
  unfolding size span
  as_value t p = do
    n ← size p
    if ltb n t.sizeof then throw packet_too_small else do bs ← span p; pure (t.from_memory bs)

  unfoldable pub as_string : Packet → Exec e.World (List ℕ)
  unfolding span
  as_string p = span p

  unfoldable pub to_vector : Packet → Exec e.World (List ℕ)
  unfolding span
  to_vector p = span p

  unfoldable pub resize : ℕ → Packet → Exec e.World (Unit {0})
  unfolding deref
  resize n p = elim p.native [
    | none ↦ throw resize_null_packet
    | some a ↦ do
      _ ← deref a
      λ w.
          if not (is_zero (e.packet_resize a n w).0)
          then thrown resize_failed (e.packet_resize a n w).1
          else done tt (e.packet_resize a n w).1
  ]

  unfoldable pub has_flag : PacketFlag → Packet → Exec e.World Bool
  unfolding deref
  has_flag f p = elim p.native [
    | none ↦ pure false
    | some a ↦ do n ← deref a; pure (not (bit_and n.flags (e.flag_value f) == 0))
  ]

  -- `PacketBuilder::build`
  unfoldable pub build : PacketBuilder → ℕ → Exec e.World Packet
  unfolding create Builder.span
  build b flags = create (Builder.span b) flags

  -- `PacketReader(const Packet&)`
  unfoldable pub reader : Packet → Exec e.World PacketReader
  unfolding span Reader.new
  reader p = do bs ← span p; pure (Reader.new bs)
