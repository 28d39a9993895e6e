-- ===== src/Host/Creation.antt =====
-- What `Host::createServer` and `Host::createClient` return, and what the destructor undoes.
use icelander.Prelude.{
  ℕ, ◌≡◌, refl, ap, not, none, some, Bool, true, if◌then◌else◌, Option, done, thrown, ◌>>=◌,
  server_create_failed,
}
use icelander.Types.{Endpoint, HostConfig}
use icelander.Enet.{Enet, Address}
use icelander.Endpoint.{to_enet_address}
use icelander.Host.Refs.{State}
use icelander.Host.Peers.{peer_count, count_live}
use icelander.Host.Calls.{
  construct, open_host, create_server, close, is_server, is_client, native_handle,
}

module _ (e : Enet) where
  abbrev pub compressed : Bool → ℕ → e.World → e.World
  compressed on h w = if on then e.host_compress_with_range_coder h w else w

  open_host_made :
      (address : Option Address) (c : HostConfig) (h : ℕ) (w w' : e.World)
      → e.host_create address c.max_peers c.max_channels c.incoming_bandwidth c.outgoing_bandwidth w
        ≡ (some h, w')
      → open_host e address c w ≡ done (some h) (compressed c.enable_compression h w')
  unfolding open_host
  open_host_made address c h w w' made =
      rw (ap (λ r. r.0) made, open_host)
        (ap (λ r. done (some h) (compressed c.enable_compression h r.1)) made)

  open_host_failed :
      (address : Option Address) (c : HostConfig) (w w' : e.World)
      → e.host_create address c.max_peers c.max_channels c.incoming_bandwidth c.outgoing_bandwidth w
        ≡ (none, w')
      → open_host e address c w ≡ done none w'
  unfolding open_host
  open_host_failed address c w w' failed =
      rw (ap (λ r. r.0) failed, open_host) (ap (λ r. done none r.1) failed)

module _ (e : Enet) {A : Type 0} where
  -- A host as it is created on `native`.
  pub record Fresh (native : ℕ) (server : Bool) (s : State e A) : Type 0 where
    pub kind : is_server e s ≡ server
    pub other_kind : is_client e s ≡ not server
    pub handle : native_handle e s ≡ some native
    pub nobody : peer_count s ≡ 0
    pub ends : close e s ≡ e.host_destroy native s.world

  construct-Fresh :
      (app : A) (native : ℕ) (server : Bool) (w : e.World)
      → Fresh native server (construct e app native server w)
  unfolding construct is_server is_client native_handle peer_count count_live close
  construct-Fresh app native server w = record {
    kind = refl;
    other_kind = refl;
    handle = refl;
    nobody = refl;
    ends = refl;
  }

  -- Where the address resolves, `createServer` throws if ENet makes no host, and else returns a server
  -- on the host that ENet made, compressed if the configuration says so, with no peers; its
  -- destructor destroys just that host.
  pub create_server_lem :
      (app : A) (p : Endpoint) (address : Address) (c : HostConfig) (w w1 w2 : e.World)
      (made : Option ℕ)
      → to_enet_address e p w ≡ done address w1
      → e.host_create
          (some address)
          c.max_peers
          c.max_channels
          c.incoming_bandwidth
          c.outgoing_bandwidth
          w1
        ≡ (made, w2)
      → (made ≡ none → create_server e app p c w ≡ thrown server_create_failed w2)
        × ((h : ℕ)
            → made ≡ some h
            → (s : State e A) × (create_server e app p c w ≡ done s s.world)
              × Fresh h true s
              × (s.world ≡ compressed e c.enable_compression h w2))
  unfolding create_server construct
  create_server_lem app p address c w w1 w2 made resolved answer = (
    λ q.
        rw (resolved, ◌>>=◌)
          (rw (open_host_failed e (some address) c w1 w2 (rw q at answer), ◌>>=◌) refl),
    λ h q. (
      construct e app h true (compressed e c.enable_compression h w2),
      rw (resolved, ◌>>=◌)
          (rw (open_host_made e (some address) c h w1 w2 (rw q at answer), ◌>>=◌) refl),
      construct-Fresh app h true (compressed e c.enable_compression h w2),
      refl,
    ),
  )
