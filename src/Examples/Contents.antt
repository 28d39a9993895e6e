-- ===== src/Examples/Contents.antt =====
-- A message in a packet of the sample ENet, and a packet that is resized.
use icelander.Prelude.{ℕ, List, [], ◌∷◌, some}
use icelander.Bytes.{Platform}
use icelander.Builder
use icelander.Builder.{PacketBuilder}
use icelander.Enet.{NativePacket}
use icelander.Enet.Sample.{World}
use icelander.Packet.{Packet}
use icelander.Message.{write_fields}
use icelander.Examples.Platforms.{little_machine}
use icelander.Examples.Messages.{greeting}

instance abbrev machine : Platform
machine = little_machine

abbrev nothing : World
nothing = record { heap = []; peers = []; inbox = [] }

abbrev packed : List ℕ → World
packed bs = record {
  heap = some (record { reference_count = 0; flags = 1; contents = bs }) ∷ [];
  peers = [];
  inbox = [];
}

abbrev two : PacketBuilder
two = record { buffer = 7 ∷ 8 ∷ []; buffer_capacity = 2 }

abbrev written : PacketBuilder
written = write_fields greeting Builder.new

abbrev short : NativePacket
short = record { reference_count = 0; flags = 1; contents = 7 ∷ 8 ∷ 9 ∷ [] }

abbrev holder : Packet
holder = record { native = some 0 }
