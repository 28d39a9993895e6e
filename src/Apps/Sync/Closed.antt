-- ===== src/Apps/Sync/Closed.antt =====
-- The hosts of the sync example are destroyed, by whichever way its `try` block is left.
use icelander.Prelude.{
  ℕ, ◌≡◌, refl, ◌∙◌, List, [], ◌∷◌, some, Bool, true, false, Outcome, done, thrown, fault,
  if◌then◌else◌, Bool-cases, inl, inr, is_zero,
}
use icelander.Types.{default_config}
use icelander.Enet.{Enet}
use icelander.Library
use icelander.Host.Calls.{create_server, create_client, close}
use icelander.Apps.Programs.Rounds.{sync_endpoint}
use icelander.Apps.Sync.{SyncState, Hosts}
use icelander.Apps.Sync.Kept.{Keeps}
use icelander.Apps.Sync.Pair.{Both, run_pair-Keeps}
use icelander.Apps.Sync.Main.{run_pair, end_hosts, with_client, run_hosts, sync_main}
use icelander.Apps.Sync.Created.{HostLaws, Ensures, Owned, create_server-Owned, create_client-Owned}

module _ (e : Enet) (live : e.World → List ℕ) (laws : HostLaws e live) where
  close-live :
      (s : SyncState e) (hs : List ℕ) (h : ℕ)
      → live s.world ≡ h ∷ hs
      → s.native_host ≡ some h
      → live (close e s) ≡ hs
  unfolding close
  close-live s hs h q there = rw (there, close) (laws.destroyed h hs s.world q)

  end_hosts-live :
      (a b : ℕ) (hs : List ℕ) (s : Hosts e)
      → Both (λ w. live w ≡ b ∷ a ∷ hs) (some a) (some b) s
      → live (end_hosts e s) ≡ hs
  unfolding end_hosts
  end_hosts-live a b hs s h =
      close-live (record s.server { world = close e (record s.client { world = s.server.world }) })
        hs a (close-live (record s.client { world = s.server.world }) (a ∷ hs) b h.0 h.2) h.1

  after_pair :
      (a b : ℕ) (hs : List ℕ) (o : Outcome (Hosts e) (Unit {0}))
      → Keeps (Both (λ w. live w ≡ b ∷ a ∷ hs) (some a) (some b)) o
      → Keeps {W = e.World} {A = Unit {0}}
          (λ w. live w ≡ hs)
          (elim o [
            | done _ t ↦ done tt (end_hosts e t)
            | thrown x t ↦ thrown x (end_hosts e t)
            | fault ↦ fault
          ])
  after_pair a b hs (done _ t) h = end_hosts-live a b hs t h
  after_pair a b hs (thrown x t) h = end_hosts-live a b hs t h
  after_pair a b hs fault h = tt

  with_client-Keeps :
      (server : SyncState e) (a : ℕ) (hs : List ℕ) (w : e.World)
      → live w ≡ a ∷ hs
      → server.native_host ≡ some a
      → Keeps (λ u. live u ≡ hs) (with_client e server w)
  unfolding with_client
  with_client-Keeps server a hs w q there =
      go (create_client e [] default_config w) (create_client-Owned e live laws (a ∷ hs) w q)
    where
      go :
          (o : Outcome e.World (SyncState e))
          → Ensures (Owned e live laws (a ∷ hs)) (λ u. live u ≡ a ∷ hs) o
          → Keeps {W = e.World} {A = Unit {0}}
              (λ u. live u ≡ hs)
              (elim o [
                | thrown x u ↦ thrown x (close e (record server { world = u }))
                | fault ↦ fault
                | done client u ↦
                    elim (run_pair e
                      (record { server = record server { world = u }; client = client })) [
                        | done _ t ↦ done tt (end_hosts e t)
                        | thrown x t ↦ thrown x (end_hosts e t)
                        | fault ↦ fault
                      ]
              ])
      go (done client u) (b, k, its) = after_pair a b hs _ (
          run_pair-Keeps e (λ w. live w ≡ b ∷ a ∷ hs) (laws.steady (b ∷ a ∷ hs)) (some a) (some b) _
            (k, there, its))
      go (thrown x u) k = close-live (record server { world = u }) hs a k there
      go fault k = tt

  run_hosts-Keeps :
      (hs : List ℕ) (w : e.World) → live w ≡ hs → Keeps (λ u. live u ≡ hs) (run_hosts e w)
  unfolding run_hosts
  run_hosts-Keeps hs w q =
      go (create_server e [] sync_endpoint default_config w)
        (create_server-Owned e live laws sync_endpoint hs w q)
    where
      go :
          (o : Outcome e.World (SyncState e))
          → Ensures (Owned e live laws hs) (λ u. live u ≡ hs) o
          → Keeps {W = e.World} {A = Unit {0}}
              (λ u. live u ≡ hs)
              (elim o [
                | done server u ↦ with_client e server u
                | thrown x u ↦ thrown x u
                | fault ↦ fault
              ])
      go (done server u) (a, k, its) = with_client-Keeps server a hs u k its
      go (thrown x u) k = k
      go fault k = tt

  -- The hosts of ENet are as they were, and the library is not initialized.
  abbrev Clean : List ℕ → Library.State e → Type 0
  Clean hs s = (live s.world ≡ hs) × (s.initialized ≡ false)

  after_hosts :
      (hs : List ℕ) (opened : Library.State e) (o : Outcome e.World (Unit {0}))
      → opened.initialized ≡ true
      → Keeps (λ u. live u ≡ hs) o
      → Keeps {W = Library.State e} {A = ℕ} (Clean hs) (elim o [
        | done _ w ↦ done 0 (Library.deinitialize e (record opened { world = w }))
        | thrown x w ↦ done 1 (Library.deinitialize e (record opened { world = w }))
        | fault ↦ fault
      ])
  unfolding Library.deinitialize
  after_hosts hs opened (done _ w) on q = rw (on, Library.deinitialize) (laws.stopped w ∙ q, refl)
  after_hosts hs opened (thrown x w) on q = rw (on, Library.deinitialize) (laws.stopped w ∙ q, refl)
  after_hosts hs opened fault on q = tt

  after_initialize :
      (hs : List ℕ) (ready : Bool) (opened : Library.State e)
      → (live opened.world ≡ hs) × (opened.initialized ≡ ready)
      → Keeps {W = Library.State e} {A = ℕ} (Clean hs) (
          if ready
          then elim (run_hosts e opened.world) [
            | done _ w ↦ done 0 (Library.deinitialize e (record opened { world = w }))
            | thrown x w ↦ done 1 (Library.deinitialize e (record opened { world = w }))
            | fault ↦ fault
          ]
          else done 1 opened)
  after_initialize hs true opened h =
      after_hosts hs opened (run_hosts e opened.world) h.1 (run_hosts-Keeps hs opened.world h.0)
  after_initialize hs false opened h = h

  initialize_lem :
      (s : Library.State e)
      → s.initialized ≡ false
      → let (ready, opened) = Library.initialize e s in
        (live opened.world ≡ live s.world) × (opened.initialized ≡ ready)
  unfolding Library.initialize
  initialize_lem s off = elim (Bool-cases (is_zero (e.initialize s.world).0)) [
    | inl good ↦
        rw (off, Library.initialize) (rw (good, Library.initialize) (laws.started s.world, refl))
    | inr bad ↦
        rw (off, Library.initialize) (rw (bad, Library.initialize) (laws.started s.world, refl))
  ]

  -- The program starts with the library not initialized. By whichever way the `try` block is left (an
  -- exception of either host's creation, of `connect`, of a handler or of a service call, or none),
  -- `main` returns with just the hosts of ENet that there were before, so each host that it created
  -- is destroyed, and the library is not initialized. What a call whose behaviour is undefined leaves
  -- is not said.
  pub hosts_closed :
      (s : Library.State e) → s.initialized ≡ false → Keeps (Clean (live s.world)) (sync_main e s)
  unfolding sync_main
  hosts_closed s off =
      after_initialize (live s.world) (Library.initialize e s).0 (Library.initialize e s).1
        (initialize_lem s off)
