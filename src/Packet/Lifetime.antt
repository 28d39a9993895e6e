-- ===== src/Packet/Lifetime.antt =====
-- No destructor of such a program frees a packet twice, and a packet that no object holds is gone.
use icelander.Prelude.{
  ℕ, ◌≡◌, ap, fun_ext, List, Option, none, some, arith, inl, inr, Option-cases, update, done, subst,
  [],
}
use icelander.Enet.{Enet, PacketLaws}
use icelander.Packet.{Packet, free, deref, destroy, move_construct, move_assign_self, span}
use icelander.Packet.Ownership.{Owns, move-Owns}
use icelander.Packet.Program.{
  State, Step, constructs, construct_throws, move_constructs, move_assigns, self_assigns, resizes,
  destroys, Reach, here, next, IsStart,
}
use icelander.Packet.Calls.{new-Owns, new_failed-Owns, destroy-Owns, move_assign-Owns, resize-Owns}

held : Option Packet → Option ℕ
held none = none
held (some p) = p.native

held-update :
    (f : ℕ → Option Packet) (i : ℕ) (x : Option Packet)
    → (λ j. held (update f i x j)) ≡ update (λ j. held (f j)) i (held x)
held-update f i x = fun_ext (λ j. ground arith)

module _ (e : Enet) (laws : PacketLaws e) where
  abbrev handle : State e → ℕ → Option ℕ
  handle s i = held (s.objects i)

  pub IsOwned : State e → Type 0
  IsOwned s = Owns (handle s) (e.packet_at s.world)

  -- Every step of the program keeps the ownership.
  Step-IsOwned : {s t : State e} → Step e s t → IsOwned s → IsOwned t
  unfolding IsOwned held move_construct move_assign_self
  Step-IsOwned {s} (constructs i bs flags p w empty r) o =
      rw (held-update s.objects i (some p))
        (new-Owns e laws (handle s) s.world w i bs flags p o (ap held empty) r)
  Step-IsOwned {s} (construct_throws bs flags x w r) o =
      new_failed-Owns e laws (handle s) s.world w bs flags x o r
  Step-IsOwned {s} (move_constructs i j q empty full) o =
      subst (λ g. Owns g (e.packet_at s.world)) (fun_ext (λ k. ground arith))
        (move-Owns (handle s) (e.packet_at s.world) i j o (λ (q' : i ≡ j). ground arith)
          (ap held empty))
  Step-IsOwned {s} (move_assigns i j p q r w ne this other m) o =
      subst (λ g. Owns g (e.packet_at w)) (fun_ext (λ k. ground arith))
        (move_assign-Owns e laws (handle s) s.world w i j p q r o ne (ap held this) (ap held other)
          m)
  Step-IsOwned {s} (self_assigns i p r w this m) o =
      let world : s.world ≡ w = ground arith in
      let same : (k : ℕ) → handle s k ≡ held (update s.objects i (some r) k) = λ k. ground arith in
      subst (λ v. Owns (λ k. held (update s.objects i (some r) k)) (e.packet_at v)) world
        (subst (λ g. Owns g (e.packet_at s.world)) (fun_ext same) o)
  Step-IsOwned {s} (resizes i n p w this r) o = resize-Owns e laws (handle s) s.world w n p o r
  Step-IsOwned {s} (destroys i p w this r) o =
      rw (held-update s.objects i none)
        (destroy-Owns e laws (handle s) s.world w i p o (ap held this) r)

  Reach-IsOwned : {s t : State e} → IsOwned s → Reach e s t → IsOwned t
  Reach-IsOwned o here = o
  Reach-IsOwned o (next r st) = Step-IsOwned st (Reach-IsOwned o r)

  start-IsOwned : {s : State e} → IsStart e s → IsOwned s
  unfolding IsOwned held
  start-IsOwned {s} st = record {
    live = λ i a q. absurd (cc (st.0 i));
    unique = λ i j a p q. absurd (cc (st.0 i));
    no_leak = λ a n q. absurd (cc (st.1 a));
  }

  -- In every state that a program over Packet objects reaches, each object can be destroyed and
  -- its data read, with no double free and no use after free.
  pub destroy_safe :
      {s t : State e}
      → IsStart e s
      → Reach e s t
      → (i : ℕ) (p : Packet) → t.objects i ≡ some p
      → ((w : e.World) × (destroy e p t.world ≡ done tt w))
        × ((bs : List ℕ) × (span e p t.world ≡ done bs t.world))
  unfolding destroy free span deref IsOwned held
  destroy_safe {s} {t} st r i p this = elim (Option-cases p.native) [
    | inl empty ↦ ((t.world, ground arith), ([], ground arith))
    | inr (a, full) ↦
        let (n, alive) = (Reach-IsOwned (start-IsOwned st) r).live i a (ground arith) in
        ((e.packet_destroy a t.world, ground arith), (n.contents, ground arith))
  ]

  -- Where a reachable state has no Packet object left, no ENet packet is left.
  pub destroyed_all :
      {s t : State e}
      → IsStart e s
      → Reach e s t
      → ((i : ℕ) → t.objects i ≡ none)
      → (a : ℕ) → e.packet_at t.world a ≡ none
  unfolding IsOwned held
  destroyed_all {s} {t} st r empty a = elim (Option-cases (e.packet_at t.world a)) [
    | inl gone ↦ gone
    | inr (n, alive) ↦
        let (i, mine) = (Reach-IsOwned (start-IsOwned st) r).no_leak a n alive in
        absurd (cc (empty i))
  ]
