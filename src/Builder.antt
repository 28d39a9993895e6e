-- ===== src/Builder.antt =====
-- class PacketBuilder (include/icelander.hpp, src/packet.cpp), over the byte vector `buffer_`.
-- A std::string and a span are the list of their bytes; `build` stands in Packet.antt.
pub mod Capacity
use icelander.Prelude.{
  ℕ, ◌+◌, ◌%◌, ◌^◌, List, [], ◌∷◌, ◌++◌, Bool, length, ltb, ◌==◌, if◌then◌else◌,
}
use icelander.Bytes.{Platform, Serializable, repr}

pub record PacketBuilder : Type 0 where
  pub buffer : List ℕ
  pub buffer_capacity : ℕ

module _ ⦃m : Platform⦄ where
  -- `buffer_.insert(buffer_.end(), …)`: the vector grows if the bytes do not fit.
  unfoldable pub insert_end : List ℕ → PacketBuilder → PacketBuilder
  insert_end bs b =
      let need = length b.buffer + length bs in
      record {
        buffer = b.buffer ++ bs;
        buffer_capacity =
            if ltb b.buffer_capacity need then m.grow b.buffer_capacity need else b.buffer_capacity;
      }

  unfoldable pub reserve : ℕ → PacketBuilder → PacketBuilder
  reserve n b = record b {
    buffer_capacity =
        if ltb b.buffer_capacity n then m.reserved b.buffer_capacity n else b.buffer_capacity;
  }

-- `PacketBuilder()`
unfoldable pub new : PacketBuilder
new = record { buffer = []; buffer_capacity = 0 }

-- `PacketBuilder(size_t)`
unfoldable pub new_reserved : ⦃m : Platform⦄ → ℕ → PacketBuilder
unfolding reserve new
new_reserved n = reserve n new

module _ ⦃m : Platform⦄ where
  unfoldable pub write_span : List ℕ → PacketBuilder → PacketBuilder
  write_span bs b = insert_end bs b

  unfoldable pub write_text : List ℕ → PacketBuilder → PacketBuilder
  write_text s b = insert_end s b

  -- `write(const void*, size_t)` on the `size` bytes at the pointer
  unfoldable pub write_memory : List ℕ → PacketBuilder → PacketBuilder
  write_memory bs b = insert_end bs b

  -- the template `write(const T&)`
  unfoldable pub write : {T : Type 0} → Serializable T → T → PacketBuilder → PacketBuilder
  unfolding write_memory
  write t v b = write_memory (t.to_memory v) b

  unfoldable pub write_uint8 : ℕ → PacketBuilder → PacketBuilder
  write_uint8 v b = insert_end (v ∷ []) b

  unfoldable pub write_uint16 : ℕ → PacketBuilder → PacketBuilder
  unfolding write_memory
  write_uint16 v b = write_memory (repr m.endian 2 v) b

  unfoldable pub write_uint32 : ℕ → PacketBuilder → PacketBuilder
  unfolding write_memory
  write_uint32 v b = write_memory (repr m.endian 4 v) b

  unfoldable pub write_uint64 : ℕ → PacketBuilder → PacketBuilder
  unfolding write_memory
  write_uint64 v b = write_memory (repr m.endian 8 v) b

  -- The cast to uint32_t keeps the length modulo 2 ^ 32.
  unfoldable pub write_string : List ℕ → PacketBuilder → PacketBuilder
  unfolding write_uint32 write_text
  write_string s b = write_text s (write_uint32 (length s % 2 ^ 32) b)

unfoldable pub clear : PacketBuilder → PacketBuilder
clear b = record b { buffer = [] }

unfoldable pub size : PacketBuilder → ℕ
size b = length b.buffer

unfoldable pub capacity : PacketBuilder → ℕ
capacity b = b.buffer_capacity

unfoldable pub empty : PacketBuilder → Bool
empty b = length b.buffer == 0

-- `data()`
unfoldable pub span : PacketBuilder → List ℕ
span b = b.buffer
