-- ===== src/Message/Packed.antt =====
-- A message on its way through a packet, as in main of examples/basic/packet_builder_example.cpp:
-- the fields are built into a packet, and a reader on the packet reads them back.
use icelander.Prelude.{ℕ, ◌^◌, ◌≤◌, ◌<◌, ◌≡◌, List, map, some, true, length, All, done, ◌>>=◌}
use icelander.Bytes.{Platform}
use icelander.Builder
use icelander.Reader
use icelander.Reader.{PacketReader}
use icelander.Enet.{Enet, PacketLaws}
use icelander.Packet.{build, reader}
use icelander.Packet.Contents.{reader-build}
use icelander.Message.{Field, IsField, shape, write_fields, read_fields}
use icelander.Message.RoundTrip.{read_fields-write_fields}

module _ ⦃m : Platform⦄ (e : Enet) (laws : PacketLaws e) where
  -- If ENet makes the packet, the fields of such a message that were built into it are read back
  -- from it, and nothing is left.
  pub read_fields-build :
      (fs : List Field) (flags a : ℕ) (w w' : e.World)
      → 2 ^ 32 ≤ m.string_max
      → All IsField fs
      → length (Builder.span (write_fields fs Builder.new)) < 2 ^ 63
      → e.packet_create (Builder.span (write_fields fs Builder.new)) flags w ≡ (some a, w')
      → (r r' : PacketReader) × ((build e (write_fields fs Builder.new) flags >>= reader e) w
          ≡ done r w')
        × (read_fields (map shape fs) r ≡ done fs r')
        × (Reader.at_end r' ≡ true)
  read_fields-build fs flags a w w' big h fits made =
      let (r', back, at_last, rest) = read_fields-write_fields fs big h fits in
      (
        Reader.new (Builder.span (write_fields fs Builder.new)),
        r',
        reader-build e laws (write_fields fs Builder.new) flags a w w' made,
        back,
        at_last,
      )
