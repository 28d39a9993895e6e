-- ===== src/Apps/Sync/Kept.antt =====
-- A property of the state of ENet that its calls keep, but for those that make and destroy hosts, is
-- kept by the calls of Icelander that the programs make.
use icelander.Prelude.{
  ℕ, ◌≡◌, Option, none, some, List, false, Outcome, done, thrown, fault, Exec, ◌>>=◌, pure, is_zero,
  Option-cases, Bool-cases, inl, inr,
}
use icelander.Types.{Endpoint}
use icelander.Enet.{Enet, Address}
use icelander.Endpoint.{c_string, to_enet_address, from_enet_address}
use icelander.Packet
use icelander.Packet.{Packet}
use icelander.Peer
use icelander.Peer.{Peer}
use icelander.Host.Refs.{State, on_world}

-- A return or an exception leaves `P`.
abbrev pub Keeps : {W A : Type 0} → (W → Type 0) → Outcome W A → Type 0
Keeps P (done a w) = P w
Keeps P (thrown x w) = P w
Keeps P fault = Unit {0}

pub >>=-Keeps :
    {W A B : Type 0} (P : W → Type 0) (m : Exec W A) (f : A → Exec W B) (w : W)
    → Keeps P (m w)
    → ((a : A) (u : W) → P u → Keeps P (f a u))
    → Keeps P ((m >>= f) w)
>>=-Keeps {W} {A} P m f w h k = go (m w) h
  where
    go :
        (o : Outcome W A)
        → Keeps P o
        → Keeps P (elim o [ done a u ↦ f a u | thrown x u ↦ thrown x u | fault ↦ fault ])
    go (done a u) p = k a u p
    go (thrown x u) p = p
    go fault p = tt

-- It holds of ENet, and the host is the one on `native`.
abbrev pub Holds : {e : Enet} {A : Type 0} → (e.World → Type 0) → Option ℕ → State e A → Type 0
Holds I native t = I t.world × (t.native_host ≡ native)

pub record IsKept (e : Enet) (I : e.World → Type 0) : Type 0 where
  pub created : (bs : List ℕ) (fl : ℕ) (w : e.World) → I w → I (e.packet_create bs fl w).1
  pub freed : (a : ℕ) (w : e.World) → I w → I (e.packet_destroy a w)
  pub resolved : (name : List ℕ) (w : e.World) → I w → I (e.address_set_host name w).2
  pub named : (a : Address) (w : e.World) → I w → I (e.address_get_host a 256 w).2
  pub sent : (peer channel a : ℕ) (w : e.World) → I w → I (e.peer_send peer channel a w).1
  pub left : (peer payload : ℕ) (w : e.World) → I w → I (e.peer_disconnect peer payload w)
  pub joined :
      (h : ℕ) (a : Address) (channels payload : ℕ) (w : e.World)
      → I w
      → I (e.host_connect h a channels payload w).1
  pub serviced : (h timeout : ℕ) (w : e.World) → I w → I (e.host_service h timeout w).2

module _ (e : Enet) (I : e.World → Type 0) (kept : IsKept e I) where
  pub create-Keeps : (bs : List ℕ) (fl : ℕ) (w : e.World) → I w → Keeps I (Packet.create e bs fl w)
  unfolding Packet.create Packet.new
  create-Keeps bs fl w i = elim (Option-cases (e.packet_create bs fl w).0) [
    | inl failed ↦ rw (failed, Packet.new) (kept.created bs fl w i)
    | inr (a, made) ↦ rw (made, Packet.new) (kept.created bs fl w i)
  ]

  pub free-Keeps : (a : ℕ) (w : e.World) → I w → Keeps I (Packet.free e a w)
  unfolding Packet.free
  free-Keeps a w i = elim (Option-cases (e.packet_at w a)) [
    | inl gone ↦ rw (gone, Packet.free) tt
    | inr (n, alive) ↦ rw (alive, Packet.free) (kept.freed a w i)
  ]

  destroy-Keeps : (pkt : Packet) (w : e.World) → I w → Keeps I (Packet.destroy e pkt w)
  unfolding Packet.destroy
  destroy-Keeps pkt w i = elim (Option-cases pkt.native) [
    | inl null ↦ rw (null, Packet.destroy) i
    | inr (a, there) ↦ rw (there, Packet.destroy) (free-Keeps a w i)
  ]

  native_send-Keeps :
      (peer channel : ℕ) (a : Option ℕ) (w : e.World)
      → I w
      → Keeps I (Peer.native_send e peer channel a w)
  unfolding Peer.native_send
  native_send-Keeps peer channel none w i = tt
  native_send-Keeps peer channel (some a) w i = kept.sent peer channel a w i

  pub send-Keeps :
      (pkt : Packet) (p : Peer) (w : e.World) → I w → Keeps I (Peer.send e (some pkt) p w)
  unfolding Peer.send Peer.send_on Peer.drop_packet Packet.native_handle
  send-Keeps pkt p w i = elim (Option-cases p.native_peer) [
    | inl off ↦
        rw (off, Peer.send_on)
          (>>=-Keeps I (Packet.destroy e pkt) (λ _. pure false) w (destroy-Keeps pkt w i)
            (λ _ u h. h))
    | inr (peer, on) ↦ rw (on, Peer.send_on) (native_send-Keeps peer 0 pkt.native w i)
  ]

  pub disconnect-Keeps :
      (payload : ℕ) (p : Peer) (w : e.World) → I w → Keeps I (Peer.disconnect e payload p w)
  unfolding Peer.disconnect
  disconnect-Keeps payload p w i = elim (Option-cases p.native_peer) [
    | inl off ↦ rw (off, Peer.disconnect) i
    | inr (peer, on) ↦ rw (on, Peer.disconnect) (kept.left peer payload w i)
  ]

  pub to_enet_address-Keeps : (p : Endpoint) (w : e.World) → I w → Keeps I (to_enet_address e p w)
  unfolding to_enet_address
  to_enet_address-Keeps p w i =
      elim (Bool-cases (is_zero (e.address_set_host (c_string p.host) w).0)) [
        | inl good ↦ rw (good, to_enet_address) (kept.resolved (c_string p.host) w i)
        | inr bad ↦ rw (bad, to_enet_address) (kept.resolved (c_string p.host) w i)
      ]

  pub from_enet_address-Keeps :
      (a : Address) (w : e.World) → I w → Keeps I (from_enet_address e a w)
  unfolding from_enet_address
  from_enet_address-Keeps a w i = elim (Bool-cases (is_zero (e.address_get_host a 256 w).0)) [
    | inl good ↦ rw (good, from_enet_address) (kept.named a w i)
    | inr bad ↦ rw (bad, from_enet_address) (kept.named a w i)
  ]

  pub reader-Keeps : (pkt : Packet) (w : e.World) → I w → Keeps I (Packet.reader e pkt w)
  unfolding Packet.reader Packet.span Packet.deref
  reader-Keeps pkt w i = elim (Option-cases pkt.native) [
    | inl null ↦ rw (null, Packet.span) i
    | inr (a, there) ↦ elim (Option-cases (e.packet_at w a)) [
      | inl gone ↦ rw (there, Packet.span) (rw (gone, ◌>>=◌, Packet.deref) tt)
      | inr (n, alive) ↦ rw (there, Packet.span) (rw (alive, ◌>>=◌, Packet.deref) i)
    ]
  ]

  pub on_world-Keeps :
      {A B : Type 0} (native : Option ℕ) (m : Exec e.World B) (s : State e A)
      → s.native_host ≡ native
      → Keeps I (m s.world)
      → Keeps (Holds I native) (on_world m s)
  unfolding on_world
  on_world-Keeps {A} {B} native m s same h = go (m s.world) h
    where
      go :
          (o : Outcome e.World B)
          → Keeps I o
          → Keeps {W = State e A} (Holds I native) (elim o [
            | done b w ↦ done b (record s { world = w })
            | thrown x w ↦ thrown x (record s { world = w })
            | fault ↦ fault
          ])
      go (done b w) p = (p, same)
      go (thrown x w) p = (p, same)
      go fault p = tt
