-- ===== src/Host/Lookup/First.antt =====
-- Which object `findPeerByNative` (src/host.cpp) answers with.
use icelander.Prelude.{
  ℕ, ◌≡◌, refl, ap, List, [], ◌∷◌, ◌++◌, Option, none, some, true, false, All, get_elem?, arith,
  Bool-cases, Option-cases, inl, inr,
}
use icelander.Enet.{Enet}
use icelander.Peer
use icelander.Peer.{Peer}
use icelander.Host.Refs.{State}
use icelander.Host.Peers.{has_native, first_native, find_peer_by_native}
use icelander.Host.Lookup.{live_of, retain_found, find_peer_by_native_lem}

-- The object stands for that ENet peer.
abbrev pub IsPeerOf : List Peer → ℕ → ℕ → Type 0
IsPeerOf objects native i =
    (p : Peer) × (get_elem? objects i ≡ some p) × (p.native_peer ≡ some native)

-- The answer is the first of the list that stands for that ENet peer, or none does.
abbrev pub IsFirst : List Peer → ℕ → List ℕ → Option ℕ → Type 0
IsFirst objects native is none = All (λ j. ¬ IsPeerOf objects native j) is
IsFirst objects native is (some i) =
    (pre : List ℕ) × (post : List ℕ) × (is ≡ pre ++ i ∷ post)
    × IsPeerOf objects native i
    × All (λ j. ¬ IsPeerOf objects native j) pre

has_native-IsPeerOf :
    (objects : List Peer) (native i : ℕ)
    → (has_native objects native i ≡ true → IsPeerOf objects native i)
      × (has_native objects native i ≡ false → ¬ IsPeerOf objects native i)
unfolding has_native Peer.native_handle
has_native-IsPeerOf objects native i = elim (Option-cases (get_elem? objects i)) [
  | inl out ↦ ((λ h. absurd (ground arith)), λ h (q, there', same). ground arith)
  | inr (p, there) ↦ elim (Option-cases p.native_peer) [
    | inl off ↦ ((λ h. absurd (ground arith)), λ h (q, there', same). ground arith)
    | inr (a, on) ↦ ((λ h. (p, there, ground arith)), λ h (q, there', same). ground arith)
  ]
]

pub first_native-IsFirst :
    (objects : List Peer) (native : ℕ) (is : List ℕ)
    → IsFirst objects native is (first_native objects native is)
unfolding first_native
first_native-IsFirst objects native [] = tt
first_native-IsFirst objects native (i ∷ is) = elim (Bool-cases (has_native objects native i)) [
  | inl hit ↦
      rw (hit, first_native) ([], is, refl, (has_native-IsPeerOf objects native i).0 hit, tt)
  | inr miss ↦
      rw (miss, first_native)
        (behind i is (first_native objects native is)
          ((has_native-IsPeerOf objects native i).1 miss) (first_native-IsFirst objects native is))
]
  where
    behind :
        (i : ℕ) (is : List ℕ) (found : Option ℕ)
        → ¬ IsPeerOf objects native i
        → IsFirst objects native is found
        → IsFirst objects native (i ∷ is) found
    behind i is none other rest = (other, rest)
    behind i is (some j) other (pre, post, q, its, before) =
        (i ∷ pre, post, ap (λ r. i ∷ r) q, its, (other, before))

module _ {e : Enet} {A : Type 0} where
  -- `findPeerByNative` answers with an object of that ENet peer, the first such in `peers_` that is
  -- alive, or with none if no live object there is one of that ENet peer. It adds one reference to
  -- what it answers with and none to the others, and leaves just the live entries of `peers_`.
  pub find_peer_by_native-IsFirst :
      (native : ℕ) (s : State e A)
      → let (found, t) = find_peer_by_native native s in
        IsFirst s.objects native (live_of s.strong s.peers) found
        × (t ≡ record s { peers = live_of s.strong s.peers; strong = retain_found found s.strong })
  find_peer_by_native-IsFirst native s =
      rw (find_peer_by_native_lem native s)
        (first_native-IsFirst s.objects native (live_of s.strong s.peers), refl)
