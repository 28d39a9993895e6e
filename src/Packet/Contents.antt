-- ===== src/Packet/Contents.antt =====
-- What is in a packet: from the builder through the packet to the reader, and across a resize.
use icelander.Prelude.{
  Option-cases, packet_create_failed, resize_failed, ◌⊎◌, inl, inr, Bool-cases, ℕ, ◌≡◌, refl, ap,
  ◌∙◌, List, some, take, ◌++◌, done, thrown, is_zero, ◌>>=◌,
}
use icelander.Enet.{Enet, NativePacket, PacketLaws}
use icelander.Builder
use icelander.Builder.{PacketBuilder}
use icelander.Reader
use icelander.Packet.{Packet, new, create, build, reader, span, size, deref, resize}

module _ (e : Enet) (laws : PacketLaws e) where
  pub span_live :
      (a : ℕ) (n : NativePacket) (w : e.World)
      → e.packet_at w a ≡ some n
      → span e (record { native = some a }) w ≡ done n.contents w
  unfolding span deref
  span_live a n w alive = rw (alive, ◌>>=◌, deref) refl

  pub build_made :
      (b : PacketBuilder) (flags a : ℕ) (w w' : e.World)
      → e.packet_create (Builder.span b) flags w ≡ (some a, w')
      → build e b flags w ≡ done (record { native = some a }) w'
  unfolding build create new
  build_made b flags a w w' made =
      rw (ap (λ r. r.0) made, new) (ap (λ r. done (record { native = some a }) r.1) made)

  -- A build throws or makes a live packet.
  pub build_cases :
      (b : PacketBuilder) (flags : ℕ) (w : e.World)
      → let w' = (e.packet_create (Builder.span b) flags w).1 in
        (build e b flags w ≡ thrown packet_create_failed w')
        ⊎ ((a : ℕ) × (n : NativePacket) × (build e b flags w ≡ done (record { native = some a }) w')
            × (e.packet_at w' a ≡ some n))
  unfolding build create new
  build_cases b flags w = elim (Option-cases (e.packet_create (Builder.span b) flags w).0) [
    | inl failed ↦ inl (rw (failed, new) refl)
    | inr (a, made) ↦ inr (a, _, rw (made, new) refl, laws.created (Builder.span b) flags w a made)
  ]

  -- If ENet makes the packet, a reader on what a builder built stands at the start of the builder's
  -- bytes.
  pub reader-build :
      (b : PacketBuilder) (flags a : ℕ) (w w' : e.World)
      → e.packet_create (Builder.span b) flags w ≡ (some a, w')
      → (build e b flags >>= reader e) w ≡ done (Reader.new (Builder.span b)) w'
  unfolding reader
  reader-build b flags a w w' made =
      let alive = rw made at (laws.created (Builder.span b) flags w a (ap (λ r. r.0) made)) in
      rw (build_made b flags a w w' made, ◌>>=◌) (rw (span_live a _ w' alive, ◌>>=◌) refl)

  -- A resize of a live packet either throws and leaves its bytes, or gives it exactly the new size
  -- with the bytes that both sizes share.
  pub resize_lem :
      (n a : ℕ) (old : NativePacket) (w : e.World)
      → e.packet_at w a ≡ some old
      → let p : Packet = record { native = some a } in
        ((w' : e.World) × (resize e n p w ≡ thrown resize_failed w')
          × (span e p w' ≡ done old.contents w'))
        ⊎ ((w' : e.World) × (more : List ℕ) × (resize e n p w ≡ done tt w')
            × (span e p w' ≡ done (take n old.contents ++ more) w')
            × (size e p w' ≡ done n w'))
  unfolding resize deref size
  resize_lem n a old w alive = elim (Bool-cases (is_zero (e.packet_resize a n w).0)) [
    | inl good ↦
        let (more, grown, exact) = laws.resized a n w old alive good in
        inr (
          (e.packet_resize a n w).1,
          more,
          rw (alive, ◌>>=◌, deref) (rw good refl),
          span_live a _ _ grown,
          rw (grown, ◌>>=◌, deref) (rw exact refl),
        )
    | inr bad ↦
        let kept = laws.resize_failed a n w bad in
        inl (
          (e.packet_resize a n w).1,
          rw (alive, ◌>>=◌, deref) (rw bad refl),
          span_live a _ _ (kept ∙ alive),
        )
  ]
