-- ===== src/Apps/Suite/Reads.antt =====
-- The message of examples/tests/unit_tests.cpp comes back from its bytes, in either byte order.
use icelander.Prelude.{◌≤◌, ◌≡◌, refl, ◌⊎◌, inl, inr, length, done, ge→ltb, ◌>>=◌}
use icelander.Bytes.{Platform, Endian, little, big, repr, low_bytes, from_repr, from_low_bytes}
use icelander.Builder
use icelander.Reader
use icelander.Reader.{PacketReader}
use icelander.Apps.Suite.{test_text, Values, build_test, read_test}

abbrev pub test_values : Values
test_values = record { magic = 0x12345678; message = test_text; number = 42; byte_val = 255 }

Endian-cases : (d : Endian) → (d ≡ little) ⊎ (d ≡ big)
Endian-cases little = inl refl
Endian-cases big = inr refl

module _ ⦃m : Platform⦄ where
  pub length-build_test : length (Builder.span build_test) ≡ 23
  unfolding Builder.span build_test Builder.write_uint8 Builder.write_uint16 Builder.write_uint32
      Builder.write_string Builder.new Builder.insert_end repr low_bytes
  length-build_test = elim (Endian-cases m.endian) [ inl q ↦ rw q | inr q ↦ rw q ]

  pub read_test-build_test :
      12 ≤ m.string_max
      → (r : PacketReader) × (read_test (Reader.new (Builder.span build_test)) ≡ done test_values r)
  unfolding Builder.span build_test Builder.write_uint8 Builder.write_uint16 Builder.write_uint32
      Builder.write_string Builder.new Builder.insert_end repr low_bytes read_test Reader.new
      Reader.read_uint32 Reader.read_uint16 Reader.read_uint8 Reader.read_string Reader.read_memory
      Reader.slice from_repr from_low_bytes
  read_test-build_test h = elim (Endian-cases m.endian) [
    | inl q ↦ (
      record { data_span = Builder.span build_test; position_at = 23 },
      rw q (rw (ge→ltb m.string_max 12 h, ◌>>=◌) refl),
    )
    | inr q ↦ (
      record { data_span = Builder.span build_test; position_at = 23 },
      rw q (rw (ge→ltb m.string_max 12 h, ◌>>=◌) refl),
    )
  ]
