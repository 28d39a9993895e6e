-- ===== src/Enet/Sample.antt =====
-- A small concrete ENet, which meets the laws of Enet.antt: the theorems are run on it.
use icelander.Prelude.{
  ℕ, ◌-◌, ◌<◌, ◌≡◌, ◌≢◌, ap, List, [], ◌∷◌, ◌++◌, Option, none, some, ℤ, pos, negsuc, length,
  length-append, length-take, take, get_elem?, set, replicate, length-replicate, get_elem?-set_self,
  get_elem?-set_ne, get_elem?-push, get_elem?-push_ne, get_elem?-end, get_elem?-set_out,
  get_elem?-lt, arith, Option-cases, inl, inr,
}
use icelander.Types.{PacketFlag, EventType}
use icelander.Enet.{Enet, NativePacket, NativePeer, NativeEvent, PacketLaws}

-- The packet at address `a` is entry `a` of the heap, `none` once it is destroyed.
pub record World : Type 0 where
  pub heap : List (Option NativePacket)
  pub peers : List NativePeer
  pub inbox : List NativeEvent

abbrev pub packet_in : Option (Option NativePacket) → Option NativePacket
packet_in none = none
packet_in (some p) = p

abbrev pub sample_packet_at : World → ℕ → Option NativePacket
sample_packet_at w a = packet_in (get_elem? w.heap a)

abbrev sample_create : List ℕ → ℕ → World → Option ℕ × World
sample_create bs fl w = (
  some (length w.heap),
  record w {
    heap = w.heap ++ some (record { reference_count = 0; flags = fl; contents = bs }) ∷ [];
  },
)

abbrev sample_destroy : ℕ → World → World
sample_destroy a w = record w { heap = set w.heap a none }

abbrev resized_to : ℕ → NativePacket → NativePacket
resized_to n p = record p { contents = take n p.contents ++ replicate (n - length p.contents) 0 }

abbrev sample_resize : ℕ → ℕ → World → ℤ × World
sample_resize a n w = elim (sample_packet_at w a) [
  | none ↦ (negsuc 0, w)
  | some p ↦ (pos 0, record w { heap = set w.heap a (some (resized_to n p)) })
]

abbrev sample_flag : PacketFlag → ℕ
sample_flag PacketFlag.reliable = 1
sample_flag PacketFlag.unsequenced = 2
sample_flag PacketFlag.no_allocate = 4
sample_flag PacketFlag.unreliable_fragment = 8
sample_flag PacketFlag.sent = 256

abbrev no_event : NativeEvent
no_event = record { kind = EventType.none; peer = 0; channel_id = 0; payload = 0; packet = none }

abbrev sample_service : ℕ → ℕ → World → ℤ × NativeEvent × World
sample_service h t w = elim w.inbox [
  | [] ↦ (pos 0, no_event, w)
  | v ∷ rest ↦ (pos 1, v, record w { inbox = rest })
]

abbrev pub sample : Enet
sample = record {
  World = World;
  version = 0x010312;
  initialize = λ w. (pos 0, w);
  deinitialize = λ w. w;
  flag_value = sample_flag;
  packet_at = sample_packet_at;
  packet_create = sample_create;
  packet_destroy = sample_destroy;
  packet_resize = sample_resize;
  address_set_host = λ name w. (pos 0, length name, w);
  address_get_host = λ a n w. (pos 0, replicate a.host 0x61, w);
  peer_at = λ w p. get_elem? w.peers p;
  peer_send = λ p c a w. (pos 0, w);
  peer_disconnect = λ p d w. w;
  peer_disconnect_now = λ p d w. w;
  peer_disconnect_later = λ p d w. w;
  peer_ping = λ p w. w;
  peer_timeout = λ p a b c w. w;
  peer_reset = λ p w. w;
  host_create = λ a p c i o w. (some 0, w);
  host_compress_with_range_coder = λ h w. w;
  host_destroy = λ h w. w;
  host_connect = λ h a c d w. (some 0, w);
  host_service = sample_service;
  host_flush = λ h w. w;
  host_broadcast = λ h c a w. w;
}

resized_others_lem :
    (a b n : ℕ) (w : World)
    → a ≢ b
    → sample_packet_at (sample_resize a n w).1 b ≡ sample_packet_at w b
resized_others_lem a b n w h = elim (Option-cases (sample_packet_at w a)) [
  | inl dead ↦ ground arith
  | inr (p, alive) ↦ ground (arith, get_elem?-set_ne w.heap a b (some (resized_to n p)) h)
]

length-resized : (n : ℕ) (p : NativePacket) → length (resized_to n p).contents ≡ n
length-resized n p = omega (
  arith,
  length-append (take n p.contents) (replicate (n - length p.contents) 0),
  length-take n p.contents,
  length-replicate {A = ℕ} (n - length p.contents) 0,
)

packet_in-lt :
    (xs : List (Option NativePacket)) (a : ℕ) {p : NativePacket}
    → packet_in (get_elem? xs a) ≡ some p
    → a < length xs
packet_in-lt xs a q = elim (Option-cases (get_elem? xs a)) [
  | inl out ↦ absurd (ground arith)
  | inr (x, there) ↦ get_elem?-lt xs a x there
]

resized_lem :
    (a n : ℕ) (w : World) (p : NativePacket)
    → sample_packet_at w a ≡ some p
    → sample_packet_at (sample_resize a n w).1 a ≡ some (resized_to n p)
resized_lem a n w p alive =
    ground
      (arith, get_elem?-set_self w.heap a (some (resized_to n p)) (packet_in-lt w.heap a alive))

destroyed_lem : (a : ℕ) (w : World) → sample_packet_at (sample_destroy a w) a ≡ none
destroyed_lem a w = elim (Option-cases (get_elem? w.heap a)) [
  | inl out ↦ ground (arith, get_elem?-set_out w.heap a none out)
  | inr (x, there) ↦
      ground (arith, get_elem?-set_self w.heap a none (get_elem?-lt w.heap a x there))
]

pub sample_laws : PacketLaws sample
sample_laws = record {
  created = λ bs fl w a q. ground (
    arith,
    get_elem?-push w.heap (some (record { reference_count = 0; flags = fl; contents = bs })),
  );
  created_fresh = λ bs fl w a q. ground (arith, get_elem?-end w.heap);
  created_others = λ bs fl w b q. ap packet_in (get_elem?-push_ne w.heap b _ (λ e. q (ap some e)));
  destroyed = destroyed_lem;
  destroyed_others = λ a b w ne. ap packet_in (get_elem?-set_ne w.heap a b none ne);
  resized = λ a n w p alive good.
      (replicate (n - length p.contents) 0, resized_lem a n w p alive, length-resized n p);
  resize_failed = λ a n w bad. ground arith;
  resized_others = resized_others_lem;
}
