-- ===== src/Message.antt =====
-- Messages: fields that a PacketBuilder writes one after another and a PacketReader reads back in
-- the same order, as examples/basic/packet_builder_example.cpp and examples/tests/unit_tests.cpp do.
pub mod RoundTrip
pub mod Truncation
pub mod Packed
use icelander.Prelude.{ℕ, ◌^◌, ◌<◌, List, [], ◌∷◌, ◌++◌, map, length, Exec, ◌>>=◌, pure}
use icelander.Bytes.{Platform, Endian, repr}
use icelander.Builder
use icelander.Builder.{PacketBuilder}
use icelander.Reader
use icelander.Reader.{PacketReader}

pub data Field : Type 0 where
  uint8 uint16 uint32 uint64 : ℕ → Field
  string : List ℕ → Field

pub data Shape : Type 0 where
  byte half word double text : Shape

abbrev pub shape : Field → Shape
shape (uint8 _) = byte
shape (uint16 _) = half
shape (uint32 _) = word
shape (uint64 _) = double
shape (string _) = text

-- The values that the parameters of the calls can take, and a string whose length fits its prefix.
abbrev pub IsField : Field → Type 0
IsField (uint8 v) = v < 256
IsField (uint16 v) = v < 2 ^ 16
IsField (uint32 v) = v < 2 ^ 32
IsField (uint64 v) = v < 2 ^ 64
IsField (string s) = length s < 2 ^ 32

module _ ⦃m : Platform⦄ where
  unfoldable pub write_field : Field → PacketBuilder → PacketBuilder
  write_field (uint8 v) b = Builder.write_uint8 v b
  write_field (uint16 v) b = Builder.write_uint16 v b
  write_field (uint32 v) b = Builder.write_uint32 v b
  write_field (uint64 v) b = Builder.write_uint64 v b
  write_field (string s) b = Builder.write_string s b

  unfoldable pub write_fields : List Field → PacketBuilder → PacketBuilder
  unfolding write_field
  write_fields [] b = b
  write_fields (f ∷ fs) b = write_fields fs (write_field f b)

  unfoldable pub read_field : Shape → Exec PacketReader Field
  read_field byte = do v ← Reader.read_uint8; pure (uint8 v)
  read_field half = do v ← Reader.read_uint16; pure (uint16 v)
  read_field word = do v ← Reader.read_uint32; pure (uint32 v)
  read_field double = do v ← Reader.read_uint64; pure (uint64 v)
  read_field text = do n ← Reader.read_uint32; s ← Reader.read_string n; pure (string s)

  unfoldable pub read_fields : List Shape → Exec PacketReader (List Field)
  unfolding read_field
  read_fields [] = pure []
  read_fields (s ∷ ss) = do f ← read_field s; fs ← read_fields ss; pure (f ∷ fs)

-- The bytes of a field, and of a message.
abbrev pub encode : Endian → Field → List ℕ
encode e (uint8 v) = v ∷ []
encode e (uint16 v) = repr e 2 v
encode e (uint32 v) = repr e 4 v
encode e (uint64 v) = repr e 8 v
encode e (string s) = repr e 4 (length s) ++ s

abbrev pub encode_all : Endian → List Field → List ℕ
encode_all e [] = []
encode_all e (f ∷ fs) = encode e f ++ encode_all e fs
