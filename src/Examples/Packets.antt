-- ===== src/Examples/Packets.antt =====
-- The lifetime theorems on the sample ENet: a packet is made, moved to another object and destroyed.
use icelander.Prelude.{ℕ, ◌≡◌, refl, List, [], ◌∷◌, none, some, done, update, arith}
use icelander.Enet.Sample.{World, sample, sample_laws}
use icelander.Packet.{Packet, new, destroy, free, span, move_construct}
use icelander.Packet.Program.{
  State, IsStart, Reach, here, next, constructs, move_constructs, destroys,
}
use icelander.Packet.Lifetime.{destroy_safe}

abbrev start : State sample
start = record { world = record { heap = []; peers = []; inbox = [] }; objects = λ _. none }

start-IsStart : IsStart sample start
start-IsStart = (λ i. refl, λ a. refl)

abbrev two_bytes : List ℕ
two_bytes = 1 ∷ 2 ∷ []

abbrev packet_0 : Packet
packet_0 = record { native = some 0 }

abbrev world_1 : World
world_1 = record {
  heap = some (record { reference_count = 0; flags = 1; contents = two_bytes }) ∷ [];
  peers = [];
  inbox = [];
}

abbrev made : State sample
made = record { world = world_1; objects = update (λ _. none) 0 (some packet_0) }

start-made : Reach sample start made
unfolding new
start-made = next here (constructs 0 two_bytes 1 packet_0 world_1 refl refl)

abbrev moved : State sample
moved = record {
  world = world_1;
  objects = update (update made.objects 1 (some packet_0)) 0 (some (record { native = none }));
}

start-moved : Reach sample start moved
unfolding move_construct
start-moved = next start-made (move_constructs 1 0 packet_0 refl refl)

destroy_safe_example :
    ((w : World) × (destroy sample packet_0 moved.world ≡ done tt w))
    × ((bs : List ℕ) × (span sample packet_0 moved.world ≡ done bs moved.world))
destroy_safe_example = destroy_safe sample sample_laws start-IsStart start-moved 1 packet_0 refl

abbrev world_2 : World
world_2 = record { heap = none ∷ []; peers = []; inbox = [] }

abbrev cleared : State sample
cleared = record { world = world_2; objects = update made.objects 0 none }

start-cleared : Reach sample start cleared
unfolding destroy free
start-cleared = next start-made (destroys 0 packet_0 world_2 refl refl)

cleared_empty : (i : ℕ) → cleared.objects i ≡ none
cleared_empty i = ground arith
