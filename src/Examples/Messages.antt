-- ===== src/Examples/Messages.antt =====
-- Builders and readers, on the message of examples/tests/unit_tests.cpp.
use icelander.Prelude.{
  ℕ, ◌-◌, ◌≡◌, refl, List, [], ◌∷◌, map, length, size_mod, some, true, done, thrown, Error, arith,
}
use icelander.Bytes.{Platform, Serializable, repr, from_repr, low_bytes, from_low_bytes}
use icelander.Builder
use icelander.Reader
use icelander.Reader.{PacketReader, read_memory, slice}
use icelander.Builder.{PacketBuilder, insert_end}
use icelander.Reader.Bounds
use icelander.Reader.Bounds.{IsReader, Keeps}
use icelander.Message.{
  Field, uint8, uint16, uint32, string, shape, write_fields, write_field, read_fields,
}
use icelander.Message.RoundTrip.{read_fields-write_fields}
use icelander.Message.Truncation.{read_fields_truncated}
use icelander.Examples.Platforms.{little_machine, big_machine}

instance abbrev pub little_platform : Platform
little_platform = little_machine

abbrev pub greeting : List Field
greeting = uint32 0x12345678 ∷ string (0x48 ∷ 0x69 ∷ []) ∷ uint16 42 ∷ uint8 255 ∷ []

abbrev pub greeting_bytes : List ℕ
greeting_bytes = 0x78 ∷ 0x56 ∷ 0x34 ∷ 0x12 ∷ 2 ∷ 0 ∷ 0 ∷ 0 ∷ 0x48 ∷ 0x69 ∷ 42 ∷ 0 ∷ 255 ∷ []

-- On a little-endian machine, and the first field on a big-endian one.
pub greeting_layout : Builder.span (write_fields greeting Builder.new) ≡ greeting_bytes
unfolding write_fields write_field Builder.span Builder.new Builder.write_uint8 Builder.write_uint16
    Builder.write_uint32 Builder.write_string insert_end repr low_bytes
greeting_layout = refl

big_endian_layout :
    Builder.span (write_fields ⦃m = big_machine⦄ (uint32 0x12345678 ∷ []) Builder.new)
    ≡ 0x12 ∷ 0x34 ∷ 0x56 ∷ 0x78 ∷ []
unfolding write_fields write_field Builder.span Builder.new Builder.write_uint32 insert_end repr
    low_bytes
big_endian_layout = refl

-- A message of one byte order is another number in the other.
foreign_number :
    Reader.read_uint16 ⦃m = big_machine⦄ (Reader.new (1 ∷ 0 ∷ []))
    ≡ done 256 (record { data_span = 1 ∷ 0 ∷ []; position_at = 2 })
unfolding Reader.read_uint16 Reader.new read_memory slice from_repr from_low_bytes
foreign_number = refl

read_fields-write_fields_example :
    (r : PacketReader) × (read_fields
        (map shape greeting)
        (Reader.new (Builder.span (write_fields greeting Builder.new)))
      ≡ done greeting r)
    × (Reader.at_end r ≡ true)
    × (Reader.remaining r ≡ 0)
read_fields-write_fields_example =
    read_fields-write_fields greeting (omega arith) (omega arith) (rw greeting_layout (omega arith))

read_fields_truncated_example :
    (e : Error) × (r : PacketReader) × (read_fields
        (map shape greeting)
        (Reader.new (0x78 ∷ 0x56 ∷ 0x34 ∷ 0x12 ∷ 2 ∷ 0 ∷ 0 ∷ 0 ∷ 0x48 ∷ []))
      ≡ thrown e r)
read_fields_truncated_example =
    read_fields_truncated greeting (0x78 ∷ 0x56 ∷ 0x34 ∷ 0x12 ∷ 2 ∷ 0 ∷ 0 ∷ 0 ∷ 0x48 ∷ []) 0x69
      (42 ∷ 0 ∷ 255 ∷ []) (omega arith) (omega arith) (omega arith)
      (rw greeting_layout (omega arith)) greeting_layout

-- A structure of two bytes.
abbrev pair_memory : ℕ × ℕ → List ℕ
pair_memory (a, b) = a ∷ b ∷ []

abbrev pair_value : List ℕ → ℕ × ℕ
pair_value (a ∷ b ∷ _) = (a, b)
pair_value _ = (0, 0)

length-pair_memory : (v : ℕ × ℕ) → length (pair_memory v) ≡ 2
length-pair_memory (a, b) = refl

pair_memory_back : (v : ℕ × ℕ) → pair_value (pair_memory v) ≡ v
pair_memory_back (a, b) = refl

abbrev pair_type : Serializable (ℕ × ℕ)
pair_type = record {
  sizeof = 2;
  to_memory = pair_memory;
  from_memory = pair_value;
  length-to_memory = length-pair_memory;
  from_memory-to_memory = pair_memory_back;
}

abbrev one_byte : PacketBuilder
one_byte = record { buffer = 9 ∷ []; buffer_capacity = 4 }

abbrev three : PacketReader
three = record { data_span = 7 ∷ 8 ∷ 9 ∷ []; position_at = 1 }

run-Keeps_example :
    (r : PacketReader) × (Bounds.run
        (Bounds.uint8
          ∷ Bounds.string (size_mod - 1)
          ∷ Bounds.skip_by (size_mod - 1)
          ∷ Bounds.uint32
          ∷ [])
        three
      ≡ some r)
    × Keeps three r
run-Keeps_example =
    Bounds.run-Keeps (omega arith)
      (Bounds.uint8
        ∷ Bounds.string (size_mod - 1)
        ∷ Bounds.skip_by (size_mod - 1)
        ∷ Bounds.uint32
        ∷ [])
      three (omega arith) (omega arith)
