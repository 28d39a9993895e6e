-- ===== src/Packet/Ownership.antt =====
-- Which object owns which ENet packet: the facts on which the lifetime of packets rests, stated for
-- the pointers `h` that the objects hold and the live packets `pk`.
use icelander.Prelude.{ℕ, ◌≡◌, ◌≢◌, Option, none, some, ◌==◌, arith, Bool-cases, inl, inr, update}
use icelander.Enet.{NativePacket}

pub record Owns (h : ℕ → Option ℕ) (pk : ℕ → Option NativePacket) : Type 0 where
  -- What an object holds is a live packet,
  pub live : (i a : ℕ) → h i ≡ some a → (n : NativePacket) × (pk a ≡ some n)
  -- no two objects hold the same one,
  pub unique : (i j a : ℕ) → h i ≡ some a → h j ≡ some a → i ≡ j
  -- and every live packet is held.
  pub no_leak : (a : ℕ) (n : NativePacket) → pk a ≡ some n → (i : ℕ) × (h i ≡ some a)

module _ (h : ℕ → Option ℕ) (pk pk' : ℕ → Option NativePacket) (o : Owns h pk) where
  pub allocate-Owns :
      (i a : ℕ) (n : NativePacket)
      → h i ≡ none
      → pk a ≡ none
      → pk' a ≡ some n
      → ((b : ℕ) → a ≢ b → pk' b ≡ pk b)
      → Owns (update h i (some a)) pk'
  allocate-Owns i a n empty fresh made others = record {
    live = λ j b q. elim (Bool-cases (i == j)) [
      | inl same ↦ (n, ground arith)
      | inr other ↦ let (m, l) = o.live j b (ground arith) in (m, ground (arith, others b))
    ];
    unique = λ j k b p q. ground (arith, o.unique j k b, o.live j b, o.live k b);
    no_leak = λ b m q. elim (Bool-cases (a == b)) [
      | inl same ↦ (i, ground arith)
      | inr other ↦ let (j, held) = o.no_leak b m (ground (arith, others b)) in (j, ground arith)
    ];
  }

  pub release-Owns :
      (i a : ℕ)
      → h i ≡ some a
      → pk' a ≡ none
      → ((b : ℕ) → a ≢ b → pk' b ≡ pk b)
      → Owns (update h i none) pk'
  release-Owns i a held gone others = record {
    live = λ j b q.
        let (m, l) = o.live j b (ground arith) in
        (m, ground (arith, others b, o.unique i j a held));
    unique = λ j k b p q. ground (arith, o.unique j k b);
    no_leak =
        λ b m q. let (j, mine) = o.no_leak b m (ground (arith, others b)) in (j, ground arith);
  }

  -- The packets changed, but each is as alive as before.
  pub rewrite-Owns :
      ((a : ℕ) (n : NativePacket) → pk a ≡ some n → (n' : NativePacket) × (pk' a ≡ some n'))
      → ((a : ℕ) (n : NativePacket) → pk' a ≡ some n → (n' : NativePacket) × (pk a ≡ some n'))
      → Owns h pk'
  rewrite-Owns forth back = record {
    live = λ i a q. let (n, l) = o.live i a q in forth a n l;
    unique = o.unique;
    no_leak = λ a n q. let (n', l) = back a n q in o.no_leak a n' l;
  }

-- Object `j` hands its pointer to object `i`, which held none.
pub move-Owns :
    (h : ℕ → Option ℕ) (pk : ℕ → Option NativePacket) (i j : ℕ)
    → Owns h pk
    → i ≢ j
    → h i ≡ none
    → Owns (update (update h i (h j)) j none) pk
move-Owns h pk i j o ne empty = record {
  live = λ k a q. elim (Bool-cases (i == k)) [
    | inl same ↦ o.live j a (ground arith)
    | inr other ↦ o.live k a (ground arith)
  ];
  unique = λ k l a p q. ground (arith, o.unique k l a, o.unique j l a, o.unique k j a);
  no_leak = λ a n q.
      let (k, held) = o.no_leak a n q in
      elim (Bool-cases (j == k)) [ inl same ↦ (i, ground arith) | inr other ↦ (k, ground arith) ];
}
