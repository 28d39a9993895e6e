-- ===== src/Examples/Fields.antt =====
-- The packet builder example on the sample ENet, on machines of both byte orders.
use icelander.Prelude.{◌≡◌, refl, [], ◌∷◌, none, done}
use icelander.Bytes.{repr, low_bytes, from_repr, from_low_bytes}
use icelander.Enet.Sample.{World, sample}
use icelander.Builder
use icelander.Reader
use icelander.Packet
use icelander.Apps.Fields.{hello, build_fields, read_fields, show_fields}
use icelander.Examples.Platforms.{little_machine, big_machine}

abbrev nothing : World
nothing = record { heap = []; peers = []; inbox = [] }

show_fields_little :
    show_fields ⦃m = little_machine⦄ sample nothing
    ≡ done
        (record { magic = 0x12345678; message = hello; number = 314159; max_byte = 255 }, 26)
        (record { heap = none ∷ []; peers = []; inbox = [] })
unfolding show_fields build_fields read_fields Builder.write_uint8 Builder.write_uint32
    Builder.write_string Builder.write_text Builder.write_memory Builder.insert_end
    Builder.new_reserved Builder.reserve Builder.new Builder.span Packet.build Packet.create
    Packet.new Packet.reader Packet.span Packet.deref Packet.size Packet.destroy Packet.free
    Reader.new Reader.read_uint32 Reader.read_uint8 Reader.read_string Reader.read_memory
    Reader.slice repr low_bytes from_repr from_low_bytes
show_fields_little = refl

show_fields_big :
    show_fields ⦃m = big_machine⦄ sample nothing
    ≡ done
        (record { magic = 0x12345678; message = hello; number = 314159; max_byte = 255 }, 26)
        (record { heap = none ∷ []; peers = []; inbox = [] })
unfolding show_fields build_fields read_fields Builder.write_uint8 Builder.write_uint32
    Builder.write_string Builder.write_text Builder.write_memory Builder.insert_end
    Builder.new_reserved Builder.reserve Builder.new Builder.span Packet.build Packet.create
    Packet.new Packet.reader Packet.span Packet.deref Packet.size Packet.destroy Packet.free
    Reader.new Reader.read_uint32 Reader.read_uint8 Reader.read_string Reader.read_memory
    Reader.slice repr low_bytes from_repr from_low_bytes
show_fields_big = refl
