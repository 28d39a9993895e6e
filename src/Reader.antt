-- ===== src/Reader.antt =====
-- class PacketReader (include/icelander.hpp, src/packet.cpp): a span of bytes and a position in it.
-- Sums of positions wrap at 2 ^ 64, as `size_t` does.
pub mod Bounds
use icelander.Prelude.{
  ℕ, ◌+◌, ◌-◌, ◌%◌, List, Option, none, some, Bool, length, take, drop, get_elem?, ltb, leb,
  if◌then◌else◌, size_mod, done, thrown, fault, Exec, ◌>>=◌, pure, or_throw, no_data_for_type,
  no_data_for_uint8, no_data_for_uint16, no_data_for_uint32, no_data_for_uint64, no_data_for_string,
  string_length_error,
}
use icelander.Bytes.{Platform, Serializable, from_repr}

pub record PacketReader : Type 0 where
  pub data_span : List ℕ
  pub position_at : ℕ

unfoldable pub new : List ℕ → PacketReader
new bs = record { data_span = bs; position_at = 0 }

-- `n` bytes from `p` on, if they all lie in the span.
unfoldable pub slice : List ℕ → ℕ → ℕ → Option (List ℕ)
slice bs p n = if leb (p + n) (length bs) then some (take n (drop p bs)) else none

-- `read(void*, size_t)`: `none` is the result false, `some` the result true with the bytes copied.
unfoldable pub read_memory : ℕ → Exec PacketReader (Option (List ℕ))
unfolding slice
read_memory n r =
    let end = (r.position_at + n) % size_mod in
    if ltb (length r.data_span) end then done none r else elim (slice r.data_span r.position_at n) [
      | none ↦ fault
      | some bs ↦ done (some bs) (record r { position_at = end })
    ]

-- the template `read<T>()`
unfoldable pub read : {T : Type 0} → Serializable T → Exec PacketReader T
read t = do
  copied ← read_memory t.sizeof
  bs ← or_throw no_data_for_type copied
  pure (t.from_memory bs)

unfoldable pub read_uint8 : Exec PacketReader ℕ
read_uint8 r =
    if leb (length r.data_span) r.position_at
    then thrown no_data_for_uint8 r
    else elim (get_elem? r.data_span r.position_at) [
      | none ↦ fault
      | some b ↦ done b (record r { position_at = (r.position_at + 1) % size_mod })
    ]

module _ ⦃m : Platform⦄ where
  unfoldable pub read_uint16 : Exec PacketReader ℕ
  read_uint16 = do
    copied ← read_memory 2
    bs ← or_throw no_data_for_uint16 copied
    pure (from_repr m.endian bs)

  unfoldable pub read_uint32 : Exec PacketReader ℕ
  read_uint32 = do
    copied ← read_memory 4
    bs ← or_throw no_data_for_uint32 copied
    pure (from_repr m.endian bs)

  unfoldable pub read_uint64 : Exec PacketReader ℕ
  read_uint64 = do
    copied ← read_memory 8
    bs ← or_throw no_data_for_uint64 copied
    pure (from_repr m.endian bs)

  -- The string's constructor refuses a length above `max_size()` before it reads.
  unfoldable pub read_string : ℕ → Exec PacketReader (List ℕ)
  unfolding slice
  read_string n r =
      let end = (r.position_at + n) % size_mod in
      if ltb (length r.data_span) end
      then thrown no_data_for_string r
      else if ltb m.string_max n
      then thrown string_length_error r
      else elim (slice r.data_span r.position_at n) [
        | none ↦ fault
        | some s ↦ done s (record r { position_at = end })
      ]

unfoldable pub remaining : PacketReader → ℕ
remaining r = (length r.data_span + size_mod - r.position_at) % size_mod

unfoldable pub position : PacketReader → ℕ
position r = r.position_at

unfoldable pub size : PacketReader → ℕ
size r = length r.data_span

unfoldable pub at_end : PacketReader → Bool
at_end r = leb (length r.data_span) r.position_at

unfoldable pub seek : ℕ → PacketReader → PacketReader
seek p r = record r { position_at = if ltb p (length r.data_span) then p else length r.data_span }

unfoldable pub skip : ℕ → PacketReader → PacketReader
skip n r =
    let new_pos = (r.position_at + n) % size_mod in
    record r {
      position_at = if ltb new_pos (length r.data_span) then new_pos else length r.data_span;
    }

unfoldable pub reset : PacketReader → PacketReader
reset r = record r { position_at = 0 }

unfoldable pub as_string : PacketReader → List ℕ
as_string r = r.data_span
