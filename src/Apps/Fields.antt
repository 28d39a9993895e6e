-- ===== src/Apps/Fields.antt =====
-- examples/basic/packet_builder_example.cpp: a packet of four fields is built, read, and shown.
use icelander.Prelude.{ℕ, List, [], ◌∷◌, done, thrown, fault, Exec, ◌>>=◌, ◌>>◌, pure}
use icelander.Bytes.{Platform}
use icelander.Types.{PacketFlag}
use icelander.Enet.{Enet}
use icelander.Builder
use icelander.Builder.{PacketBuilder}
use icelander.Reader
use icelander.Reader.{PacketReader}
use icelander.Packet

-- "Hello, World!"
abbrev pub hello : List ℕ
hello =
    0x48 ∷ 0x65 ∷ 0x6c ∷ 0x6c ∷ 0x6f ∷ 0x2c ∷ 0x20 ∷ 0x57 ∷ 0x6f ∷ 0x72 ∷ 0x6c ∷ 0x64 ∷ 0x21 ∷ []

pub record Fields : Type 0 where
  pub magic : ℕ
  pub message : List ℕ
  pub number : ℕ
  pub max_byte : ℕ

module _ ⦃m : Platform⦄ where
  unfoldable pub build_fields : PacketBuilder
  build_fields = Builder.write_uint8 255 (
      Builder.write_uint32 314159
        (Builder.write_string hello (Builder.write_uint32 0x12345678 (Builder.new_reserved 1024))))

  unfoldable pub read_fields : Exec PacketReader Fields
  read_fields = do
    magic ← Reader.read_uint32
    str_len ← Reader.read_uint32
    message ← Reader.read_string str_len
    number ← Reader.read_uint32
    max_byte ← Reader.read_uint8
    pure (record { magic = magic; message = message; number = number; max_byte = max_byte })

  -- What `main` prints, the size last; the packet ends with it. Nothing catches an exception.
  unfoldable pub show_fields : (e : Enet) → Exec e.World (Fields × ℕ)
  show_fields e = do
    pkt ← Packet.build e build_fields (e.flag_value PacketFlag.reliable)
    reader ← Packet.reader e pkt
    fields ← (λ w. elim (read_fields reader) [
      | done x _ ↦ done x w
      | thrown x _ ↦ thrown x w
      | fault ↦ fault
    ])
    size ← Packet.size e pkt
    Packet.destroy e pkt
    pure (fields, size)
