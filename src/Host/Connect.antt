-- ===== src/Host/Connect.antt =====
-- What `Host::connect` leaves behind: an object that the host finds by its ENet peer.
use icelander.Prelude.{
  ℕ, ◌<◌, ◌≡◌, ◌≢◌, refl, ap, ◌∙◌, List, [], ◌∷◌, ◌++◌, Option, some, true, length, All, arith,
  update, done, ◌>>=◌, get_elem?-push,
}
use icelander.Types.{Endpoint}
use icelander.Enet.{Enet, Address}
use icelander.Endpoint.{to_enet_address}
use icelander.Peer
use icelander.Peer.{Peer, native_handle}
use icelander.Host.Refs.{State, make_peer, on_world}
use icelander.Host.Peers.{has_native, first_native, find_peer_by_native}
use icelander.Host.Calls.{connect, connect_from}
use icelander.Host.Lookup.{live_of, find_peer_by_native_lem}
use icelander.Host.Delivery.{IsMissing, IsMissing-grown}

first_native_last :
    (strong : ℕ → ℕ) (objects : List Peer) (native j : ℕ) (is : List ℕ)
    → IsMissing strong objects native is
    → strong j ≢ 0
    → has_native objects native j ≡ true
    → first_native objects native (live_of strong (is ++ j ∷ [])) ≡ some j
unfolding first_native
first_native_last strong objects native j [] h alive mine = ground (arith, mine)
first_native_last strong objects native j (i ∷ is) h alive mine =
    ground (arith, h.0, first_native_last strong objects native j is h.1 alive mine)

has_native-push :
    (objects : List Peer) (native : ℕ) (host : Option ℕ)
    → has_native (objects ++ Peer.new (some native) host ∷ []) native (length objects) ≡ true
unfolding has_native native_handle Peer.new
has_native-push objects native host =
    ground (arith, get_elem?-push objects (Peer.new (some native) host))

module _ {e : Enet} {A : Type 0} where
  -- The host after a connection to `native`.
  abbrev pub connected_to : ℕ → e.World → State e A → State e A
  connected_to native w s = record s {
    world = w;
    peers = s.peers ++ length s.objects ∷ [];
    objects = s.objects ++ Peer.new (some native) s.native_host ∷ [];
    strong = update s.strong (length s.objects) 1;
  }

  connect_opened :
      (remote : Endpoint) (channels payload h : ℕ) (s : State e A)
      → s.native_host ≡ some h
      → connect e remote channels payload s ≡ connect_from e h remote channels payload s
  unfolding connect
  connect_opened remote channels payload h s opened = simp (opened, connect)

  connect_done :
      (remote : Endpoint) (channels payload h native : ℕ) (address : Address) (w w' : e.World)
      (s : State e A)
      → s.native_host ≡ some h
      → to_enet_address e remote s.world ≡ done address w
      → e.host_connect h address channels payload w ≡ (some native, w')
      → connect e remote channels payload s ≡ done (length s.objects) (connected_to native w' s)
  unfolding connect_from make_peer on_world
  connect_done remote channels payload h native address w w' s opened resolved made =
      connect_opened remote channels payload h s opened
      ∙ rw (resolved, ◌>>=◌, on_world) (rw made refl)

  -- `connect` on an open host, to a name that resolves and with a free ENet peer, returns an
  -- object with one reference, and the host finds that object by its ENet peer, if no older
  -- object of that peer is alive.
  pub connect_found :
      (remote : Endpoint) (channels payload h native : ℕ) (address : Address) (w w' : e.World)
      (s : State e A)
      → s.native_host ≡ some h
      → to_enet_address e remote s.world ≡ done address w
      → e.host_connect h address channels payload w ≡ (some native, w')
      → All (λ i. i < length s.objects) s.peers
      → IsMissing s.strong s.objects native s.peers
      → (i : ℕ) × (t : State e A) × (connect e remote channels payload s ≡ done i t)
        × (t.strong i ≡ 1)
        × ((find_peer_by_native native t).0 ≡ some i)
  connect_found remote channels payload h native address w w' s opened resolved made valid missing =
      let t = connected_to native w' s in
      let older : IsMissing t.strong t.objects native s.peers =
        IsMissing-grown s.strong t.strong s.objects (Peer.new (some native) s.native_host) native
          s.peers (λ i ne. ground arith) valid missing in
      (
        length s.objects,
        t,
        connect_done remote channels payload h native address w w' s opened resolved made,
        ground arith,
        ap (λ r. r.0) (find_peer_by_native_lem native t)
            ∙ first_native_last t.strong t.objects native (length s.objects) s.peers older
                (λ q. ground arith) (has_native-push s.objects native s.native_host),
      )
