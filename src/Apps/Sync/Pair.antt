-- ===== src/Apps/Sync/Pair.antt =====
-- The communication of both hosts of the sync example keeps what the calls of ENet keep.
use icelander.Prelude.{
  ℕ, zero, suc, ◌≡◌, Option, Outcome, done, thrown, fault, ◌>>=◌, ◌>>◌, pure, Option-cases, inl,
  inr, get_elem?,
}
use icelander.Types.{Endpoint}
use icelander.Enet.{Enet}
use icelander.Endpoint.{to_enet_address}
use icelander.Peer
use icelander.Peer.{Peer}
use icelander.Host.Refs.{make_peer, on_world}
use icelander.Host.Calls.{connect, connect_from}
use icelander.Host.Events.{service}
use icelander.Apps.Programs.Rounds.{sync_endpoint}
use icelander.Apps.Sync.{
  SyncState, Hosts, server_dispatcher, client_dispatcher, service_server, service_client,
  service_both, disconnect_server, communicate,
}
use icelander.Apps.Sync.Kept.{
  Keeps, Holds, >>=-Keeps, IsKept, disconnect-Keeps, to_enet_address-Keeps, on_world-Keeps,
}
use icelander.Apps.Sync.Serviced.{service-Keeps}
use icelander.Apps.Sync.Handled.{server-AllKeep, client-AllKeep}
use icelander.Apps.Sync.Main.{connect_client, run_pair}

-- It holds of the ENet of both hosts, which are those on `a` and `b`.
abbrev pub Both : {e : Enet} → (e.World → Type 0) → Option ℕ → Option ℕ → Hosts e → Type 0
Both I a b s = I s.server.world × (s.server.native_host ≡ a) × (s.client.native_host ≡ b)

module _ (e : Enet) (I : e.World → Type 0) (kept : IsKept e I) (a b : Option ℕ) where
  of_server :
      {B : Type 0} (s : Hosts e) (o : Outcome (SyncState e) B)
      → s.client.native_host ≡ b
      → Keeps (Holds I a) o
      → Keeps {W = Hosts e} {A = B} (Both I a b) (elim o [
        | done r t ↦ done r (record s { server = t })
        | thrown x t ↦ thrown x (record s { server = t })
        | fault ↦ fault
      ])
  of_server s (done r t) other h = (h.0, h.1, other)
  of_server s (thrown x t) other h = (h.0, h.1, other)
  of_server s fault other h = tt

  of_client :
      {B : Type 0} (s : Hosts e) (o : Outcome (SyncState e) B)
      → s.server.native_host ≡ a
      → Keeps (Holds I b) o
      → Keeps {W = Hosts e} {A = B} (Both I a b) (elim o [
        | done r t ↦ done r (record { server = record s.server { world = t.world }; client = t })
        | thrown x t ↦
            thrown x (record { server = record s.server { world = t.world }; client = t })
        | fault ↦ fault
      ])
  of_client s (done r t) other h = (h.0, other, h.1)
  of_client s (thrown x t) other h = (h.0, other, h.1)
  of_client s fault other h = tt

  service_server-Keeps : (s : Hosts e) → Both I a b s → Keeps (Both I a b) (service_server e s)
  unfolding service_server
  service_server-Keeps s h = of_server s (service e (server_dispatcher e) 100 s.server) h.2 (
      service-Keeps e I kept a (server_dispatcher e) (server-AllKeep e I kept a) 100 s.server
        (h.0, h.1))

  service_client-Keeps : (s : Hosts e) → Both I a b s → Keeps (Both I a b) (service_client e s)
  unfolding service_client
  service_client-Keeps s h =
      of_client s (service e (client_dispatcher e) 100 (record s.client { world = s.server.world }))
        h.1
        (service-Keeps e I kept b (client_dispatcher e) (client-AllKeep e I kept b) 100
          (record s.client { world = s.server.world }) (h.0, h.2))

  service_both-Keeps :
      (n : ℕ) (s : Hosts e) → Both I a b s → Keeps (Both I a b) (service_both e n s)
  unfolding service_both
  service_both-Keeps zero s h = h
  service_both-Keeps (suc n) s h =
      >>=-Keeps (Both I a b) (do _ ← service_server e; _ ← service_client e; pure tt)
        (λ _. service_both e n) s
        (>>=-Keeps (Both I a b) (service_server e) _ s (service_server-Keeps s h) (λ _ t k.
          >>=-Keeps (Both I a b) (service_client e) _ t (service_client-Keeps t k) (λ _ u l. l)))
        (λ _ t k. service_both-Keeps n t k)

  disconnect_server-Keeps :
      (p : Peer) (s : Hosts e) → Both I a b s → Keeps (Both I a b) (disconnect_server e p s)
  unfolding disconnect_server
  disconnect_server-Keeps p s h =
      go (Peer.disconnect e 0 p s.server.world) (disconnect-Keeps e I kept 0 p s.server.world h.0)
    where
      go :
          (o : Outcome e.World (Unit {0}))
          → Keeps I o
          → Keeps {W = Hosts e} {A = Unit {0}} (Both I a b) (elim o [
            | done _ w ↦ done tt (record s { server = record s.server { world = w } })
            | thrown x w ↦ thrown x (record s { server = record s.server { world = w } })
            | fault ↦ fault
          ])
      go (done _ w) i = (i, h.1, h.2)
      go (thrown x w) i = (i, h.1, h.2)
      go fault i = tt

  communicate-Keeps :
      (p : Peer) (s : Hosts e) → Both I a b s → Keeps (Both I a b) (communicate e p s)
  unfolding communicate
  communicate-Keeps p s h =
      >>=-Keeps (Both I a b) (service_both e 10 >> disconnect_server e p) (λ _. service_both e 5) s
        (>>=-Keeps (Both I a b) (service_both e 10) (λ _. disconnect_server e p) s
          (service_both-Keeps 10 s h) (λ _ t k. disconnect_server-Keeps p t k))
        (λ _ t k. service_both-Keeps 5 t k)

  connect_from-Keeps :
      (h : ℕ) (remote : Endpoint) (s : SyncState e)
      → Holds I b s
      → Keeps (Holds I b) (connect_from e h remote 1 0 s)
  unfolding connect_from make_peer
  connect_from-Keeps h remote s i =
      >>=-Keeps (Holds I b) (on_world (to_enet_address e remote)) _ s
        (on_world-Keeps e I kept b (to_enet_address e remote) s i.1
          (to_enet_address-Keeps e I kept remote s.world i.0))
        (λ address t k.
          >>=-Keeps (Holds I b)
            (on_world (λ w. let (r, w') = e.host_connect h address 1 0 w in done r w')) _ t
            (on_world-Keeps e I kept b _ t k.1 (kept.joined h address 1 0 t.world k.0))
            (λ native u l. elim (Option-cases native) [
              | inl null ↦ rw null l
              | inr (n, there) ↦ rw there l
            ]))

  connect-Keeps :
      (remote : Endpoint) (s : SyncState e)
      → Holds I b s
      → Keeps (Holds I b) (connect e remote 1 0 s)
  unfolding connect
  connect-Keeps remote s i = elim (Option-cases s.native_host) [
    | inl null ↦ rw (null, connect) i
    | inr (h, there) ↦ rw (there, connect) (connect_from-Keeps h remote s i)
  ]

  connect_client-Keeps :
      (remote : Endpoint) (s : Hosts e)
      → Both I a b s
      → Keeps (Both I a b) (connect_client e remote s)
  unfolding connect_client
  connect_client-Keeps remote s h =
      let t : SyncState e = record s.client { world = s.server.world } in
      of_client s _ h.1 (
        >>=-Keeps (Holds I b) (connect e remote 1 0) _ t (connect-Keeps remote t (h.0, h.2))
          (λ i u k. elim (Option-cases (get_elem? u.objects i)) [
            | inl nobody ↦ rw nobody tt
            | inr (p, there) ↦ rw there k
          ]))

  pub run_pair-Keeps : (s : Hosts e) → Both I a b s → Keeps (Both I a b) (run_pair e s)
  unfolding run_pair
  run_pair-Keeps s h =
      >>=-Keeps (Both I a b) (connect_client e sync_endpoint) (communicate e) s
        (connect_client-Keeps sync_endpoint s h) (λ p t k. communicate-Keeps p t k)
