-- ===== src/Host/Search.antt =====
-- `Host::findPeer`: the search by endpoint.
use icelander.Prelude.{
  ℕ, ◌≡◌, refl, inl, inr, List, [], ◌∷◌, Option, none, some, ◌&&◌, ◌==◌, if◌then◌else◌, All,
  Bool-cases, Option-cases, done, ◌>>=◌, get_elem?,
}
use icelander.Types.{Endpoint}
use icelander.Enet.{Enet}
use icelander.Peer
use icelander.Peer.{Peer}
use icelander.Host.Refs.{State}
use icelander.Host.Peers.{lock_all, get_peers, same_text, has_endpoint, first_endpoint, find_peer}
use icelander.Host.Lookup.{
  live_of, lock_all_live, release_all-lock_all, release_all-retain-lock_all, retain_found,
}

-- The first object whose endpoint, by `address`, has the same host and port.
abbrev pub first_at : (ℕ → Endpoint) → Endpoint → List ℕ → Option ℕ
first_at address remote [] = none
first_at address remote (i ∷ is) =
    let rest = first_at address remote is in
    if same_text (address i).host remote.host && ((address i).port == remote.port)
    then some i
    else rest

-- Every entry is an object, and ENet answers with `address` when it is asked for its endpoint.
abbrev pub IsKnown : (e : Enet) → (ℕ → Endpoint) → List Peer → e.World → List ℕ → Type 0
IsKnown e address objects w =
    All (λ i.
      (p : Peer) × (get_elem? objects i ≡ some p) × (Peer.endpoint e p w ≡ done (address i) w))

module _ (e : Enet) where
  has_endpoint_known :
      (remote here : Endpoint) (p : Peer) (w : e.World)
      → Peer.endpoint e p w ≡ done here w
      → has_endpoint e remote p w
        ≡ done (same_text here.host remote.host && (here.port == remote.port)) w
  unfolding has_endpoint
  has_endpoint_known remote here p w known = elim (Bool-cases (same_text here.host remote.host)) [
    | inl same ↦ rw (known, ◌>>=◌) (rw same (rw (known, ◌>>=◌) refl))
    | inr other ↦ rw (known, ◌>>=◌) (rw other refl)
  ]

  first_endpoint_known :
      (address : ℕ → Endpoint) (remote : Endpoint) (objects : List Peer) (w : e.World) (is : List ℕ)
      → IsKnown e address objects w is
      → first_endpoint e objects remote is w ≡ done (first_at address remote is) w
  unfolding first_endpoint
  first_endpoint_known address remote objects w [] h = refl
  first_endpoint_known address remote objects w (i ∷ is) h =
      let (p, there, known) = h.0 in
      let rest = first_endpoint_known address remote objects w is h.1 in
      let hit = same_text (address i).host remote.host && ((address i).port == remote.port) in
      rw (there, ◌>>=◌)
        (rw (has_endpoint_known remote (address i) p w known, ◌>>=◌)
          (elim (Bool-cases hit) [ inl same ↦ rw same refl | inr other ↦ rw other rest ]))

  IsKnown-live_of :
      (address : ℕ → Endpoint) (objects : List Peer) (w : e.World) (strong : ℕ → ℕ) (is : List ℕ)
      → IsKnown e address objects w is
      → IsKnown e address objects w (live_of strong is)
  IsKnown-live_of address objects w strong [] h = tt
  IsKnown-live_of address objects w strong (i ∷ is) h = elim (Bool-cases (strong i == 0)) [
    | inl dead ↦ rw dead (IsKnown-live_of address objects w strong is h.1)
    | inr alive ↦ rw alive (h.0, IsKnown-live_of address objects w strong is h.1)
  ]

  -- If ENet can tell the endpoint of every listed object, `findPeer` answers with the first live one
  -- of that endpoint, adds one reference to it and none to the others, and erases the expired entries.
  pub find_peer_lem :
      {A : Type 0} (address : ℕ → Endpoint) (remote : Endpoint) (s : State e A)
      → IsKnown e address s.objects s.world s.peers
      → let found = first_at address remote (live_of s.strong s.peers) in
        find_peer e remote s
        ≡ done found
            (record s { peers = live_of s.strong s.peers; strong = retain_found found s.strong })
  unfolding find_peer get_peers
  find_peer_lem address remote s h =
      let known = IsKnown-live_of address s.objects s.world s.strong s.peers h in
      let walk : first_endpoint e s.objects remote (lock_all s.peers s.strong).0 s.world
          ≡ done (first_at address remote (lock_all s.peers s.strong).0) s.world =
        rw (lock_all_live s.peers s.strong) (
          first_endpoint_known address remote s.objects s.world (live_of s.strong s.peers) known) in
      rw (← lock_all_live s.peers s.strong)
        (elim (Option-cases (first_at address remote (lock_all s.peers s.strong).0)) [
          | inl missing ↦
              rw (walk, find_peer) (rw missing (rw (release_all-lock_all s.peers s.strong) refl))
          | inr (i, hit) ↦
              rw (walk, find_peer)
                (rw hit (rw (release_all-retain-lock_all s.peers s.strong i) refl))
        ])
