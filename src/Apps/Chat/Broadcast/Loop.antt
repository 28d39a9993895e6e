-- ===== src/Apps/Chat/Broadcast/Loop.antt =====
-- The loop of `broadcastMessage`, and the vector of peers that it runs over.
use icelander.Prelude.{
  ℕ, ◌≡◌, refl, inl, inr, List, [], ◌∷◌, Option, some, Bool, Bool-cases, Option-cases, false, ◌⊎◌,
  done, Exec, ◌>>=◌, Leaves, >>=-Leaves, get_elem?,
}
use icelander.Bytes.{Platform}
use icelander.Types.{PacketFlag}
use icelander.Enet.{Enet, NativePacket, PacketLaws}
use icelander.Builder
use icelander.Builder.{PacketBuilder}
use icelander.Packet.{Packet}
use icelander.Peer
use icelander.Peer.{Peer}
use icelander.Host.Refs.{on_world}
use icelander.Host.Peers.{get_peers}
use icelander.Host.Lookup.{live_of, lock_all_live, release_all-lock_all}
use icelander.Host.Unchanged.{finally-Leaves}
use icelander.Apps.Handlers.{build_reliable, send_to}
use icelander.Apps.Handlers.Laws.{build_reliable_cases, send_to_peer}
use icelander.Apps.Chat.{build_text}
use icelander.Apps.Chat.Server.{ServerState, is_excluded, tell, tell_all, tell_peers}
use icelander.Apps.Chat.Broadcast.{IsKept, IsSlot, AreUsable, Moved, IsBalanced}

module _ ⦃m : Platform⦄ (e : Enet) (laws : PacketLaws e) (Good : e.World → Type 0)
    (kept : IsKept e Good) where
  then_Moved :
      {A B : Type 0} (b : Exec (ServerState e) A) (f : A → Exec (ServerState e) B)
      (s : ServerState e)
      → Leaves (Moved e Good s) (b s)
      → ((a : A) (w : e.World) → Good w → Leaves (Moved e Good s) (f a (record s { world = w })))
      → Leaves (Moved e Good s) ((b >>= f) s)
  then_Moved b f s h k =
      >>=-Leaves b f s (Moved e Good s) (Moved e Good s) h (λ t v. v)
        λ a t (w, same, good). rw same (k a w good)

  -- What follows a build gets a live packet, if anything.
  built_Moved :
      {B : Type 0} (b : PacketBuilder) (f : Packet → Exec (ServerState e) B) (s : ServerState e)
      → Good s.world
      → ((a : ℕ) (n : NativePacket) (w : e.World)
          → Good w
          → e.packet_at w a ≡ some n
          → Leaves (Moved e Good s) (f (record { native = some a }) (record s { world = w })))
      → Leaves (Moved e Good s) ((build_reliable e b >>= f) s)
  built_Moved b f s good k =
      let kept' = kept.created (Builder.span b) (e.flag_value PacketFlag.reliable) s.world good in
      elim (build_reliable_cases e laws b s) [
        | inl failed ↦ rw (failed, ◌>>=◌) (_, refl, kept')
        | inr (a, n, made, alive) ↦ rw (made, ◌>>=◌) (k a n _ kept' alive)
      ]

  sent_Moved :
      (i a native : ℕ) (p : Peer) (s : ServerState e)
      → Good s.world
      → get_elem? s.objects i ≡ some p
      → p.native_peer ≡ some native
      → Leaves (Moved e Good s) (send_to e i (record { native = some a }) s)
  sent_Moved i a native p s good there on =
      rw (send_to_peer e laws i a native p s there on) (_, refl, kept.sent native 0 a s.world good)

  -- What `isConnected` answers, without a change; only an ENet peer can be connected.
  pub asked :
      (p : Peer) (w : e.World)
      → ((a : ℕ) → p.native_peer ≡ some a → IsSlot e Good a)
      → Good w
      → (Peer.is_connected e p w ≡ done false w)
        ⊎ ((a : ℕ) × (b : Bool) × (p.native_peer ≡ some a) × (Peer.is_connected e p w ≡ done b w))
  unfolding Peer.is_connected Peer.state Peer.deref
  asked p w slot good = elim (Option-cases p.native_peer) [
    | inl off ↦ inl (rw (off, ◌>>=◌, Peer.state) refl)
    | inr (a, on) ↦
        let (n, alive) = slot a on w good in
        inr (
          a,
          Peer.state_is_connected n.state,
          on,
          rw (on, ◌>>=◌, Peer.state) (rw (alive, ◌>>=◌, Peer.deref) refl),
        )
  ]

  tell-Moved :
      (msg_type : List ℕ) (exclude_peer : Option ℕ) (i : ℕ) (p : Peer) (s : ServerState e)
      → Good s.world
      → get_elem? s.objects i ≡ some p
      → ((a : ℕ) → p.native_peer ≡ some a → IsSlot e Good a)
      → Leaves (Moved e Good s) (tell e msg_type exclude_peer i s)
  unfolding tell on_world
  tell-Moved msg_type exclude_peer i p s good there slot =
      elim (Bool-cases (is_excluded e exclude_peer i)) [
        | inl excluded ↦ rw (excluded, tell) (s.world, refl, good)
        | inr told ↦
            rw (told, tell)
              (rw (there, ◌>>=◌)
                (elim (asked p s.world slot good) [
                  | inl off ↦ rw (off, ◌>>=◌, on_world) (s.world, refl, good)
                  | inr (a, b, on, answered) ↦
                      rw (answered, ◌>>=◌, on_world)
                        (elim (Bool-cases b) [
                          | inl connected ↦ rw connected (
                              built_Moved (build_text msg_type) (send_to e i) s good
                                λ pkt n w good' alive.
                                  sent_Moved i pkt a p (record s { world = w }) good' there on)
                          | inr waiting ↦ rw waiting (s.world, refl, good)
                        ])
                ]))
      ]

  tell_all-Moved :
      (msg_type : List ℕ) (exclude_peer : Option ℕ) (is : List ℕ) (s : ServerState e)
      → Good s.world
      → AreUsable e Good s.objects is
      → Leaves (Moved e Good s) (tell_all e msg_type exclude_peer is s)
  unfolding tell_all
  tell_all-Moved msg_type exclude_peer [] s good usable = (s.world, refl, good)
  tell_all-Moved msg_type exclude_peer (i ∷ is) s good usable =
      let (p, there, slot) = usable.0 in
      then_Moved (tell e msg_type exclude_peer i) (λ _. tell_all e msg_type exclude_peer is) s
        (tell-Moved msg_type exclude_peer i p s good there slot)
        λ _ w good'. tell_all-Moved msg_type exclude_peer is (record s { world = w }) good' usable.1

  pub balanced :
      (s : ServerState e) (w : e.World) → Good w → IsBalanced Good s (record s { world = w })
  balanced s w good = record {
    same_strong = refl;
    same_objects = refl;
    same_app = refl;
    same_host = refl;
    walked = inl refl;
    still_good = good;
  }

  pub tell_peers-IsBalanced :
      (msg_type : List ℕ) (exclude_peer : Option ℕ) (s : ServerState e)
      → Good s.world
      → AreUsable e Good s.objects (live_of s.strong s.peers)
      → Leaves (IsBalanced Good s) (tell_peers e msg_type exclude_peer s)
  unfolding tell_peers get_peers
  tell_peers-IsBalanced msg_type exclude_peer s good usable =
      let locked = (get_peers s).1 in
      finally-Leaves (Moved e Good locked) (IsBalanced Good s) _
        (tell_all e msg_type exclude_peer (get_peers s).0) locked
        (tell_all-Moved msg_type exclude_peer (get_peers s).0 locked good
          (rw (lock_all_live s.peers s.strong) usable))
        λ t (w, same, good'). rw same (record {
          same_strong = release_all-lock_all s.peers s.strong;
          same_objects = refl;
          same_app = refl;
          same_host = refl;
          walked = inr (lock_all_live s.peers s.strong);
          still_good = good';
        })
