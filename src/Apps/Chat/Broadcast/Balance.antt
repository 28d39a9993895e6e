-- ===== src/Apps/Chat/Broadcast/Balance.antt =====
-- `broadcastMessage`: the packet that it does not send, and its copy of `exclude_peer`.
use icelander.Prelude.{
  ℕ, ◌≡◌, ◌≢◌, refl, ap, ◌∙◌, fun_ext, inl, inr, List, [], ◌∷◌, Option, none, some, arith, Outcome,
  done, thrown, fault, Exec, ◌>>=◌, Leaves, Leaves-mono,
}
use icelander.Bytes.{Platform}
use icelander.Types.{PacketFlag}
use icelander.Enet.{Enet, NativePacket, PacketLaws}
use icelander.Builder
use icelander.Builder.{PacketBuilder}
use icelander.Packet
use icelander.Packet.{Packet}
use icelander.Peer.{Peer}
use icelander.Host.Refs.{on_world, retain, release, retain_ref, release_ref}
use icelander.Host.Lookup.{live_of, live_of-retain}
use icelander.Host.Unchanged.{finally-Leaves}
use icelander.Apps.Handlers.{with_packet}
use icelander.Apps.Handlers.Laws.{build_reliable_cases}
use icelander.Apps.Chat.{build_text}
use icelander.Apps.Chat.Server.{ServerState, tell_peers, announce, broadcast_message}
use icelander.Apps.Chat.Broadcast.{IsKept, IsSteady, AreUsable, IsBalanced}
use icelander.Apps.Chat.Broadcast.Loop.{balanced, tell_peers-IsBalanced}

release-retain : (j : ℕ) (strong : ℕ → ℕ) → release j (retain j strong) ≡ strong
unfolding release retain
release-retain j strong = fun_ext λ i. ground arith

module _ ⦃m : Platform⦄ (e : Enet) (laws : PacketLaws e) (Good : e.World → Type 0)
    (steady : IsSteady e Good) where
  -- Good, with the packet `a` alive.
  abbrev Holding : ℕ → e.World → Type 0
  Holding a w = Good w × ((n : NativePacket) × (e.packet_at w a ≡ some n))

  Holding-IsKept : (a : ℕ) → IsKept e (Holding a)
  Holding-IsKept a = record {
    created = λ bs flags w (good, (n, alive)). (
      steady.kept.created bs flags w good,
      (
        n,
        laws.created_others bs flags w a (λ q. cc (laws.created_fresh bs flags w a q, alive))
            ∙ alive,
      ),
    );
    sent = λ native channel b w (good, (n, alive)).
        (steady.kept.sent native channel b w good, steady.unharmed native channel b a n w alive);
  }

  destroyed :
      (a : ℕ) (s t : ServerState e)
      → IsBalanced (Holding a) s t
      → (on_world (Packet.destroy e (record { native = some a })) t
          ≡ done tt (record t { world = e.packet_destroy a t.world }))
        × IsBalanced Good s (record t { world = e.packet_destroy a t.world })
  unfolding on_world Packet.destroy Packet.free
  destroyed a s t h =
      let (good, (n, alive)) = h.still_good in
      (
        rw (alive, Packet.free, on_world) refl,
        record {
          same_strong = h.same_strong;
          same_objects = h.same_objects;
          same_app = h.same_app;
          same_host = h.same_host;
          walked = h.walked;
          still_good = steady.freed a t.world good;
        },
      )

  with_packet-IsBalanced :
      (a : ℕ) (b : Exec (ServerState e) (Unit {0})) (s u : ServerState e)
      → Leaves (IsBalanced (Holding a) s) (b u)
      → Leaves (IsBalanced Good s) (with_packet e (record { native = some a }) b u)
  unfolding with_packet
  with_packet-IsBalanced a b s u h = go (b u) h
    where
      pkt : Packet
      pkt = record { native = some a }

      go :
          (o : Outcome (ServerState e) (Unit {0}))
          → Leaves (IsBalanced (Holding a) s) o
          → Leaves (IsBalanced Good s) (elim o as (λ _. Outcome (ServerState e) (Unit {0})) [
            | done _ t ↦ on_world (Packet.destroy e pkt) t
            | thrown x t ↦ (on_world (Packet.destroy e pkt) >>= λ _ v. thrown x v) t
            | fault ↦ fault
          ])
      go (done _ t) l = rw ((destroyed a s t l).0) ((destroyed a s t l).1)
      go (thrown x t) l = rw ((destroyed a s t l).0, ◌>>=◌) ((destroyed a s t l).1)
      go fault l = absurd l

  AreUsable-Holding :
      (a : ℕ) (objects : List Peer) (is : List ℕ)
      → AreUsable e Good objects is
      → AreUsable e (Holding a) objects is
  AreUsable-Holding a objects [] h = tt
  AreUsable-Holding a objects (i ∷ is) ((p, there, slot), h) =
      ((p, there, λ b on w g. slot b on w g.0), AreUsable-Holding a objects is h)

  announce-IsBalanced :
      (msg_type : List ℕ) (exclude_peer : Option ℕ) (s : ServerState e)
      → Good s.world
      → AreUsable e Good s.objects (live_of s.strong s.peers)
      → Leaves (IsBalanced Good s) (announce e msg_type exclude_peer s)
  unfolding announce
  announce-IsBalanced msg_type exclude_peer s good usable =
      let w =
        (e.packet_create (Builder.span (build_text msg_type)) (e.flag_value PacketFlag.reliable)
          s.world).1 in
      let good' =
        steady.kept.created (Builder.span (build_text msg_type)) (e.flag_value PacketFlag.reliable)
          s.world good in
      elim (build_reliable_cases e laws (build_text msg_type) s) [
        | inl failed ↦ rw (failed, ◌>>=◌) (balanced e laws Good steady.kept s w good')
        | inr (a, n, made, alive) ↦
            rw (made, ◌>>=◌)
              (Leaves-mono (IsBalanced Good (record s { world = w })) (IsBalanced Good s) _
                (with_packet-IsBalanced a (tell_peers e msg_type exclude_peer)
                  (record s { world = w }) (record s { world = w })
                  (tell_peers-IsBalanced e laws (Holding a) (Holding-IsKept a) msg_type exclude_peer
                    (record s { world = w }) (good', (n, alive))
                    (AreUsable-Holding a s.objects (live_of s.strong s.peers) usable)))
                λ t h. record {
                  same_strong = h.same_strong;
                  same_objects = h.same_objects;
                  same_app = h.same_app;
                  same_host = h.same_host;
                  walked = h.walked;
                  still_good = h.still_good;
                })
      ]

  -- `broadcastMessage` uses no object or packet that is gone, and leaves the references, the objects and
  -- the output as they were and at most the expired entries of `peers_` erased, by a return or by an
  -- exception; the excluded peer is alive, and each live peer has an ENet peer that is there, or none.
  pub broadcast_message_lem :
      (msg_type : List ℕ) (exclude_peer : Option ℕ) (s : ServerState e)
      → Good s.world
      → ((j : ℕ) → exclude_peer ≡ some j → s.strong j ≢ 0)
      → AreUsable e Good s.objects (live_of s.strong s.peers)
      → Leaves (IsBalanced Good s) (broadcast_message e msg_type exclude_peer s)
  unfolding broadcast_message release_ref retain_ref
  broadcast_message_lem msg_type none s good held usable =
      announce-IsBalanced msg_type none s good usable
  broadcast_message_lem msg_type (some j) s good held usable =
      finally-Leaves (IsBalanced Good (retain_ref j s)) (IsBalanced Good s) (release_ref j)
        (announce e msg_type (some j)) (retain_ref j s)
        (announce-IsBalanced msg_type (some j) (retain_ref j s) good
          (rw (live_of-retain s.peers s.strong j (held j refl)) usable))
        λ t h.
          let back = ap (release j) h.same_strong ∙ release-retain j s.strong in
          record {
            same_strong = back;
            same_objects = h.same_objects;
            same_app = h.same_app;
            same_host = h.same_host;
            walked = elim h.walked [
              | inl same ↦ inl same
              | inr cleaned ↦ inr (cleaned ∙ live_of-retain s.peers s.strong j (held j refl))
            ];
            still_good = h.still_good;
          }
