-- ===== src/Host/Peers.antt =====
-- The list of peers of a Host: `peerCount`, `getPeers`, `findPeer` and `findPeerByNative`. The mutex
-- is held through each of them, so each is one step.
use icelander.Prelude.{
  ℕ, ◌+◌, List, [], ◌∷◌, Option, none, some, Bool, true, false, ◌&&◌, ◌==◌, if◌then◌else◌,
  get_elem?, done, thrown, fault, Exec, ◌>>=◌, pure, or_fault,
}
use icelander.Types.{Endpoint}
use icelander.Enet.{Enet}
use icelander.Peer
use icelander.Peer.{Peer}
use icelander.Host.Refs.{State, retain, release_all}

-- `weakPeer.expired()`
unfoldable pub expired : (ℕ → ℕ) → ℕ → Bool
expired strong i = strong i == 0

unfoldable pub count_live : (ℕ → ℕ) → List ℕ → ℕ
unfolding expired
count_live strong [] = 0
count_live strong (i ∷ is) =
    let rest = count_live strong is in if expired strong i then rest else rest + 1

unfoldable pub peer_count : {e : Enet} {A : Type 0} → State e A → ℕ
unfolding count_live
peer_count s = count_live s.strong s.peers

-- The loop of `getPeers`: a live object is locked, which makes a reference, and kept; an expired one
-- is erased. The result is both the vector of references and the new `peers_`.
unfoldable pub lock_all : List ℕ → (ℕ → ℕ) → List ℕ × (ℕ → ℕ)
unfolding expired retain
lock_all [] strong = ([], strong)
lock_all (i ∷ is) strong =
    let skip = lock_all is strong in
    let rest = lock_all is (retain i strong) in
    if expired strong i then skip else (i ∷ rest.0, rest.1)

unfoldable pub get_peers : {e : Enet} {A : Type 0} → State e A → List ℕ × State e A
unfolding lock_all
get_peers s = let r = lock_all s.peers s.strong in (r.0, record s { peers = r.0; strong = r.1 })

-- `peerPtr->nativeHandle() == nativePeer`, false where the object has no ENet peer
unfoldable pub has_native : List Peer → ℕ → ℕ → Bool
has_native objects native i = elim (get_elem? objects i) [
  | none ↦ false
  | some p ↦ elim (Peer.native_handle p) [ none ↦ false | some a ↦ a == native ]
]

unfoldable pub first_native : List Peer → ℕ → List ℕ → Option ℕ
unfolding has_native
first_native objects native [] = none
first_native objects native (i ∷ is) =
    let rest = first_native objects native is in
    if has_native objects native i then some i else rest

-- The returned pointer is a reference more; the vector of `getPeers` ends with the call.
unfoldable pub find_peer_by_native : {e : Enet} {A : Type 0} → ℕ → State e A → Option ℕ × State e A
unfolding get_peers first_native release_all
find_peer_by_native native s =
    let (ids, s') = get_peers s in
    elim (first_native s'.objects native ids) [
      | none ↦ (none, record s' { strong = release_all ids s'.strong })
      | some i ↦ (some i, record s' { strong = release_all ids (retain i s'.strong) })
    ]

unfoldable pub same_text : List ℕ → List ℕ → Bool
same_text [] [] = true
same_text (x ∷ xs) (y ∷ ys) = x == y && same_text xs ys
same_text _ _ = false

module _ (e : Enet) where
  -- The condition asks for the endpoint twice, the second time only if the hosts agree.
  unfoldable pub has_endpoint : Endpoint → Peer → Exec e.World Bool
  unfolding same_text
  has_endpoint remote p = do
    first ← Peer.endpoint e p
    if same_text first.host remote.host
        then (do second ← Peer.endpoint e p; pure (second.port == remote.port))
        else pure false

  unfoldable pub first_endpoint : List Peer → Endpoint → List ℕ → Exec e.World (Option ℕ)
  unfolding has_endpoint
  first_endpoint objects remote [] = pure none
  first_endpoint objects remote (i ∷ is) = do
    p ← or_fault (get_elem? objects i)
    hit ← has_endpoint remote p
    let rest = first_endpoint objects remote is
    if hit then pure (some i) else rest

  -- An exception of the look-up ends the vector of references too.
  unfoldable pub find_peer : {A : Type 0} → Endpoint → Exec (State e A) (Option ℕ)
  unfolding get_peers first_endpoint release_all
  find_peer remote s =
      let (ids, s') = get_peers s in
      elim (first_endpoint s'.objects remote ids s'.world) [
        | done (some i) w ↦
            done (some i) (record s' { world = w; strong = release_all ids (retain i s'.strong) })
        | done none w ↦ done none (record s' { world = w; strong = release_all ids s'.strong })
        | thrown x w ↦ thrown x (record s' { world = w; strong = release_all ids s'.strong })
        | fault ↦ fault
      ]
