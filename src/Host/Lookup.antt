-- ===== src/Host/Lookup.antt =====
-- What the walks over `peers_` find, what they erase, and that they give back every reference but
-- the one that they return.
pub mod First
use icelander.Prelude.{
  ℕ, ◌+◌, ◌-◌, ◌≤◌, ◌≡◌, ◌≢◌, refl, sym, ap, ◌∙◌, fun_ext, inl, inr, List, [], ◌∷◌, Option, none,
  some, ◌==◌, if◌then◌else◌, length, arith, Bool-cases, Option-cases,
}
use icelander.Enet.{Enet}
use icelander.Host.Refs.{State, retain, release, release_all}
use icelander.Host.Peers.{
  expired, count_live, peer_count, lock_all, get_peers, first_native, find_peer_by_native,
}

-- The objects of a list that are alive.
abbrev pub live_of : (ℕ → ℕ) → List ℕ → List ℕ
live_of strong [] = []
live_of strong (i ∷ is) = let rest = live_of strong is in if strong i == 0 then rest else i ∷ rest

abbrev occurrences : ℕ → List ℕ → ℕ
occurrences j [] = 0
occurrences j (i ∷ is) = (if i == j then 1 else 0) + occurrences j is

release_all_count :
    (is : List ℕ) (strong : ℕ → ℕ) (j : ℕ) → release_all is strong j ≡ strong j - occurrences j is
unfolding release_all release
release_all_count [] strong j = omega arith
release_all_count (i ∷ is) strong j = ground (arith, release_all_count is (release i strong) j)

lock_all_count :
    (is : List ℕ) (strong : ℕ → ℕ) (j : ℕ)
    → (lock_all is strong).1 j ≡ strong j + occurrences j (lock_all is strong).0
unfolding lock_all retain expired
lock_all_count [] strong j = omega arith
lock_all_count (i ∷ is) strong j = elim (Bool-cases (strong i == 0)) [
  | inl dead ↦ rw dead (lock_all_count is strong j)
  | inr alive ↦ rw alive (ground (arith, lock_all_count is (retain i strong) j))
]

pub live_of-retain :
    (is : List ℕ) (strong : ℕ → ℕ) (i : ℕ)
    → strong i ≢ 0
    → live_of (retain i strong) is ≡ live_of strong is
unfolding retain
live_of-retain [] strong i h = refl
live_of-retain (j ∷ is) strong i h = ground (arith, live_of-retain is strong i h)

pub lock_all_live : (is : List ℕ) (strong : ℕ → ℕ) → (lock_all is strong).0 ≡ live_of strong is
unfolding lock_all expired
lock_all_live [] strong = refl
lock_all_live (i ∷ is) strong = elim (Bool-cases (strong i == 0)) [
  | inl dead ↦ rw dead (lock_all_live is strong)
  | inr alive ↦ rw alive (
      ap (◌∷◌ i)
        (lock_all_live is (retain i strong) ∙ live_of-retain is strong i (λ q. ground arith)))
]

-- The references of `getPeers`, given back, leave the counts as they were, but for one that was
-- copied meanwhile.
pub release_all-lock_all :
    (is : List ℕ) (strong : ℕ → ℕ)
    → release_all (lock_all is strong).0 (lock_all is strong).1 ≡ strong
release_all-lock_all is strong = fun_ext λ j. omega (
  arith,
  release_all_count (lock_all is strong).0 (lock_all is strong).1 j,
  lock_all_count is strong j,
)

pub release_all-retain-lock_all :
    (is : List ℕ) (strong : ℕ → ℕ) (i : ℕ)
    → release_all (lock_all is strong).0 (retain i (lock_all is strong).1) ≡ retain i strong
unfolding retain
release_all-retain-lock_all is strong i = fun_ext λ j. ground (
  arith,
  release_all_count (lock_all is strong).0 (retain i (lock_all is strong).1) j,
  lock_all_count is strong j,
  lock_all_count is strong i,
)

count_live-length :
    (is : List ℕ) (strong : ℕ → ℕ) → count_live strong is ≡ length (live_of strong is)
unfolding count_live expired
count_live-length [] strong = refl
count_live-length (i ∷ is) strong = ground (arith, count_live-length is strong)

live_of_all :
    (is : List ℕ) (strong : ℕ → ℕ)
    → ((j : ℕ) → occurrences j is ≤ strong j)
    → live_of strong is ≡ is
live_of_all [] strong h = refl
live_of_all (i ∷ is) strong h =
    ground (arith, h i, live_of_all is strong (λ j. ground (arith, h j)))

-- One reference more on what was found.
abbrev pub retain_found : Option ℕ → (ℕ → ℕ) → ℕ → ℕ
retain_found none strong = strong
retain_found (some i) strong = retain i strong

module _ {e : Enet} {A : Type 0} where
  -- `findPeerByNative` answers with the first live object of that ENet peer, adds one reference to
  -- it and none to the others, and erases the expired entries of `peers_`.
  pub find_peer_by_native_lem :
      (native : ℕ) (s : State e A)
      → let found = first_native s.objects native (live_of s.strong s.peers) in
        find_peer_by_native native s ≡ (
          found,
          record s { peers = live_of s.strong s.peers; strong = retain_found found s.strong },
        )
  unfolding find_peer_by_native get_peers
  find_peer_by_native_lem native s =
      rw (← lock_all_live s.peers s.strong)
        (elim (Option-cases (first_native s.objects native (lock_all s.peers s.strong).0)) [
          | inl missing ↦
              rw (missing, find_peer_by_native) (rw (release_all-lock_all s.peers s.strong))
          | inr (i, hit) ↦
              rw (hit, find_peer_by_native) (rw (release_all-retain-lock_all s.peers s.strong i))
        ])

  -- `getPeers` returns the live objects in order, as many as `peerCount` counts, and leaves
  -- exactly them in `peers_`, which does not change the count.
  pub get_peers_lem :
      (s : State e A)
      → ((get_peers s).0 ≡ live_of s.strong s.peers)
        × ((get_peers s).1.peers ≡ (get_peers s).0)
        × (peer_count s ≡ length (get_peers s).0)
        × (peer_count (get_peers s).1 ≡ peer_count s)
  unfolding get_peers peer_count
  get_peers_lem s = (
    lock_all_live s.peers s.strong,
    refl,
    count_live-length s.peers s.strong ∙ ap length (sym (lock_all_live s.peers s.strong)),
    count_live-length (lock_all s.peers s.strong).0 (lock_all s.peers s.strong).1
        ∙ ap length (
            live_of_all (lock_all s.peers s.strong).0 (lock_all s.peers s.strong).1
              (λ j. omega (arith, lock_all_count s.peers s.strong j))
            ∙ lock_all_live s.peers s.strong)
        ∙ sym (count_live-length s.peers s.strong),
  )
