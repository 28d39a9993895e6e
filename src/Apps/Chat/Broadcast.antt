-- ===== src/Apps/Chat/Broadcast.antt =====
-- `broadcastMessage`: the references that it takes and gives back, and the peers that it uses.
pub mod Loop
pub mod Balance
use icelander.Prelude.{
  ℕ, ◌≡◌, ◌≢◌, refl, ap, ◌∙◌, fun_ext, inl, inr, List, [], ◌∷◌, Option, none, some, Bool,
  Bool-cases, Option-cases, All, false, ◌⊎◌, arith, Outcome, done, thrown, fault, Exec, ◌>>=◌,
  Leaves, Leaves-mono, >>=-Leaves, get_elem?,
}
use icelander.Bytes.{Platform}
use icelander.Types.{PacketFlag}
use icelander.Enet.{Enet, NativePacket, NativePeer, PacketLaws}
use icelander.Builder
use icelander.Builder.{PacketBuilder}
use icelander.Packet
use icelander.Packet.{Packet}
use icelander.Peer
use icelander.Peer.{Peer}
use icelander.Host.Refs.{State, on_world, retain, release, retain_ref, release_ref}
use icelander.Host.Peers.{get_peers}
use icelander.Host.Lookup.{live_of, live_of-retain, lock_all_live, release_all-lock_all}
use icelander.Host.Unchanged.{finally-Leaves}
use icelander.Apps.Handlers.{build_reliable, send_to, with_packet}
use icelander.Apps.Handlers.Laws.{build_reliable_cases, send_to_peer}
use icelander.Apps.Chat.{build_text}
use icelander.Apps.Chat.Server.{
  ServerState, is_excluded, tell, tell_all, tell_peers, announce, broadcast_message,
}

-- A property of ENet's state that making and sending packets keep.
pub record IsKept (e : Enet) (Good : e.World → Type 0) : Type 0 where
  pub created :
      (bs : List ℕ) (flags : ℕ) (w : e.World) → Good w → Good (e.packet_create bs flags w).1
  pub sent : (native channel a : ℕ) (w : e.World) → Good w → Good (e.peer_send native channel a w).1

-- One that freeing a packet keeps too; and a send frees no packet.
pub record IsSteady (e : Enet) (Good : e.World → Type 0) : Type 0 where
  pub kept : IsKept e Good
  pub freed : (a : ℕ) (w : e.World) → Good w → Good (e.packet_destroy a w)
  pub unharmed :
      (native channel a b : ℕ) (n : NativePacket) (w : e.World)
      → e.packet_at w b ≡ some n
      → (n' : NativePacket) × (e.packet_at (e.peer_send native channel a w).1 b ≡ some n')

module _ (e : Enet) (Good : e.World → Type 0) where
  -- An ENet peer that is there whenever ENet's state is good: a slot of a host that is open.
  abbrev pub IsSlot : ℕ → Type 0
  IsSlot a = (w : e.World) → Good w → (n : NativePeer) × (e.peer_at w a ≡ some n)

  -- The objects of a list, each with an ENet peer that is there or with none.
  abbrev pub AreUsable : List Peer → List ℕ → Type 0
  AreUsable objects = All (λ i.
      (p : Peer) × (get_elem? objects i ≡ some p) × ((a : ℕ) → p.native_peer ≡ some a → IsSlot a))

module _ (e : Enet) (Good : e.World → Type 0) {A : Type 0} where
  -- The state `s`, with ENet in another good state.
  abbrev pub Moved : State e A → State e A → Type 0
  Moved s t = (w : e.World) × (t ≡ record s { world = w }) × Good w

-- What a broadcast leaves as it was. The walk over the peers may erase the expired ones.
pub record IsBalanced {e : Enet} {A : Type 0} (Good : e.World → Type 0) (s t : State e A)
    : Type 0 where
  pub same_strong : t.strong ≡ s.strong
  pub same_objects : t.objects ≡ s.objects
  pub same_app : t.app ≡ s.app
  pub same_host : t.native_host ≡ s.native_host
  pub walked : (t.peers ≡ s.peers) ⊎ (t.peers ≡ live_of s.strong s.peers)
  pub still_good : Good t.world
