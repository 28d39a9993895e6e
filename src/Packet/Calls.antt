-- ===== src/Packet/Calls.antt =====
-- What each call of Packet does to the ownership of packets.
use icelander.Prelude.{
  ℕ, ◌≡◌, ◌≢◌, ◌∙◌, fun_ext, List, Option, none, some, ◌==◌, arith, Bool-cases, inl, inr, ◌⊎◌,
  Option-cases, update, done, thrown, Error, is_zero, after, subst, take, ◌++◌,
}
use icelander.Enet.{Enet, NativePacket, PacketLaws}
use icelander.Packet.{Packet, new, free, deref, destroy, move_assign, resize}
use icelander.Packet.Ownership.{Owns, allocate-Owns, release-Owns, rewrite-Owns, move-Owns}

module _ (e : Enet) (laws : PacketLaws e) where
  -- What the calls do to the world, read off their results.
  new_made :
      (bs : List ℕ) (flags : ℕ) (w w' : e.World) (p : Packet)
      → new e bs flags w ≡ done p w'
      → (a : ℕ) × ((e.packet_create bs flags w).0 ≡ some a)
        × (p.native ≡ some a)
        × (w' ≡ (e.packet_create bs flags w).1)
  unfolding new
  new_made bs flags w w' p r = elim (Option-cases (e.packet_create bs flags w).0) [
    | inl failed ↦ absurd (ground arith)
    | inr (a, made) ↦ (a, made, ground arith, ground arith)
  ]

  new_failed :
      (bs : List ℕ) (flags : ℕ) (w w' : e.World) (x : Error)
      → new e bs flags w ≡ thrown x w'
      → ((e.packet_create bs flags w).0 ≡ none) × (w' ≡ (e.packet_create bs flags w).1)
  unfolding new
  new_failed bs flags w w' x r = elim (Option-cases (e.packet_create bs flags w).0) [
    | inl failed ↦ (failed, ground arith)
    | inr (a, made) ↦ absurd (ground arith)
  ]

  free_freed : (a : ℕ) (w w' : e.World) → free e a w ≡ done tt w' → w' ≡ e.packet_destroy a w
  unfolding free
  free_freed a w w' r = ground arith

  pub new-Owns :
      (h : ℕ → Option ℕ) (w w' : e.World) (i : ℕ) (bs : List ℕ) (flags : ℕ) (p : Packet)
      → Owns h (e.packet_at w)
      → h i ≡ none
      → new e bs flags w ≡ done p w'
      → Owns (update h i p.native) (e.packet_at w')
  new-Owns h w w' i bs flags p o empty r =
      let (a, made, owner, after) = new_made bs flags w w' p r in
      rw (owner, after)
        (allocate-Owns h (e.packet_at w) _ o i a _ empty (laws.created_fresh bs flags w a made)
          (laws.created bs flags w a made)
          (λ b ne. laws.created_others bs flags w b (λ q. ne (ground arith))))

  pub new_failed-Owns :
      (h : ℕ → Option ℕ) (w w' : e.World) (bs : List ℕ) (flags : ℕ) (x : Error)
      → Owns h (e.packet_at w)
      → new e bs flags w ≡ thrown x w'
      → Owns h (e.packet_at w')
  new_failed-Owns h w w' bs flags x o r =
      let (failed, after) = new_failed bs flags w w' x r in
      let same : (b : ℕ) → e.packet_at (e.packet_create bs flags w).1 b ≡ e.packet_at w b =
        λ b. laws.created_others bs flags w b (λ q. cc) in
      rw (after, fun_ext same) o

  free-Owns :
      (h : ℕ → Option ℕ) (w w' : e.World) (i a : ℕ)
      → Owns h (e.packet_at w)
      → h i ≡ some a
      → free e a w ≡ done tt w'
      → Owns (update h i none) (e.packet_at w')
  free-Owns h w w' i a o mine r = rw (free_freed a w w' r) (
      release-Owns h (e.packet_at w) _ o i a mine (laws.destroyed a w)
        (λ b ne. laws.destroyed_others a b w ne))

  update_same : (h : ℕ → Option ℕ) (i : ℕ) (x : Option ℕ) → h i ≡ x → h ≡ update h i x
  update_same h i x q = fun_ext (λ k. ground arith)

  pub destroy-Owns :
      (h : ℕ → Option ℕ) (w w' : e.World) (i : ℕ) (p : Packet)
      → Owns h (e.packet_at w)
      → h i ≡ p.native
      → destroy e p w ≡ done tt w'
      → Owns (update h i none) (e.packet_at w')
  unfolding destroy
  destroy-Owns h w w' i p o mine r = elim (Option-cases p.native) [
    | inl empty ↦
        let same : w ≡ w' = ground arith in
        subst (λ v. Owns (update h i none) (e.packet_at v)) same
          (subst (λ g. Owns g (e.packet_at w)) (update_same h i none (mine ∙ empty)) o)
    | inr (a, full) ↦ free-Owns h w w' i a o (mine ∙ full) (rw (full, destroy) at r)
  ]

  move_assign_freed :
      (p q : Packet) (r : Packet × Packet) (w w' : e.World)
      → move_assign e p q w ≡ done r w'
      → (destroy e p w ≡ done tt w') × (r.0.native ≡ q.native) × (r.1.native ≡ none)
  unfolding move_assign destroy
  move_assign_freed p q r w w' m = elim (Option-cases p.native) [
    | inl empty ↦ (ground arith, ground arith, ground arith)
    | inr (a, full) ↦ ground arith
  ]

  pub move_assign-Owns :
      (h : ℕ → Option ℕ) (w w' : e.World) (i j : ℕ) (p q : Packet) (r : Packet × Packet)
      → Owns h (e.packet_at w)
      → i ≢ j
      → h i ≡ p.native
      → h j ≡ q.native
      → move_assign e p q w ≡ done r w'
      → Owns (update (update h i r.0.native) j r.1.native) (e.packet_at w')
  move_assign-Owns h w w' i j p q r o ne mine other m =
      let (freed, taken, left) = move_assign_freed p q r w w' m in
      let moved =
        move-Owns (update h i none) (e.packet_at w') i j (destroy-Owns h w w' i p o mine freed) ne
          (ground arith) in
      subst (λ g. Owns g (e.packet_at w')) (fun_ext (λ k. ground arith)) moved

  resize_world :
      (n : ℕ) (p : Packet) (w w' : e.World)
      → after (resize e n p w) ≡ some w'
      → (w ≡ w')
        ⊎ ((a : ℕ) × (x : NativePacket) × (e.packet_at w a ≡ some x)
            × (w' ≡ (e.packet_resize a n w).1))
  unfolding resize deref
  resize_world n p w w' r = elim (Option-cases p.native) [
    | inl empty ↦ inl (ground arith)
    | inr (a, full) ↦ elim (Option-cases (e.packet_at w a)) [
      | inl dead ↦ absurd (ground arith)
      | inr (x, alive) ↦ inr (a, x, alive, ground arith)
    ]
  ]

  resize-alive :
      (a n b : ℕ) (w : e.World) (x : NativePacket)
      → e.packet_at w a ≡ some x
      → (y : NativePacket) → e.packet_at w b ≡ some y
      → (y' : NativePacket) × (e.packet_at (e.packet_resize a n w).1 b ≡ some y')
  resize-alive a n b w x alive y q = elim (Bool-cases (a == b)) [
    | inl same ↦ elim (Bool-cases (is_zero (e.packet_resize a n w).0)) [
      | inl good ↦
          let (more, l, _) = laws.resized a n w x alive good in
          (record x { contents = take n x.contents ++ more }, ground arith)
      | inr bad ↦ (x, ground (arith, laws.resize_failed a n w bad))
    ]
    | inr other ↦ (y, ground (arith, laws.resized_others a b n w))
  ]

  pub resize-Owns :
      (h : ℕ → Option ℕ) (w w' : e.World) (n : ℕ) (p : Packet)
      → Owns h (e.packet_at w)
      → after (resize e n p w) ≡ some w'
      → Owns h (e.packet_at w')
  resize-Owns h w w' n p o r = elim (resize_world n p w w' r) [
    | inl same ↦ subst (λ v. Owns h (e.packet_at v)) same o
    | inr (a, x, alive, after) ↦ rw after (
        rewrite-Owns h (e.packet_at w) _ o (λ b y q. resize-alive a n b w x alive y q)
          (λ b y q. elim (Bool-cases (a == b)) [
            | inl same ↦ (x, ground arith)
            | inr different ↦ (y, ground (arith, laws.resized_others a b n w))
          ]))
  ]
