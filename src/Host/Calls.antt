-- ===== src/Host/Calls.antt =====
-- The other calls of class Host (src/host.cpp): its creation and end, `connect`, `flush`, `broadcast`
-- and the questions. The service thread stands in Host/Thread.antt.
use icelander.Prelude.{
  ℕ, [], ◌∷◌, ◌++◌, Option, none, some, Bool, true, false, not, if◌then◌else◌, done, thrown, fault,
  Exec, ◌>>=◌, or_throw, server_create_failed, client_create_failed, invalid_host, connect_failed,
}
use icelander.Bytes.{Serializable}
use icelander.Types.{Endpoint, HostConfig}
use icelander.Enet.{Enet, Address}
use icelander.Endpoint.{to_enet_address}
use icelander.Packet
use icelander.Packet.{Packet}
use icelander.Peer.{drop_packet}
use icelander.Host.Refs.{State, make_peer, on_world}

module _ (e : Enet) where
  -- `enet_host_create` with a configuration, and the compression that it may ask for
  unfoldable pub open_host : Option Address → HostConfig → Exec e.World (Option ℕ)
  open_host address c w =
      let (created, w') =
        e.host_create address c.max_peers c.max_channels c.incoming_bandwidth c.outgoing_bandwidth
          w in
      elim created [
        | none ↦ done none w'
        | some h ↦
            done (some h)
              (if c.enable_compression then e.host_compress_with_range_coder h w' else w')
      ]

  -- `enet_host_broadcast` follows the pointer to the packet.
  unfoldable pub native_broadcast : ℕ → ℕ → Option ℕ → Exec e.World (Unit {0})
  native_broadcast h channel none w = fault
  native_broadcast h channel (some a) w = done tt (e.host_broadcast h channel a w)

module _ (e : Enet) {A : Type 0} where
  -- `Host(ENetHost*, bool)`, over a state of the application
  unfoldable pub construct : A → ℕ → Bool → e.World → State e A
  construct app native server w = record {
    world = w;
    native_host = some native;
    is_server = server;
    peers = [];
    objects = [];
    strong = λ _. 0;
    app = app;
  }

  unfoldable pub create_server : A → Endpoint → HostConfig → Exec e.World (State e A)
  unfolding construct open_host
  create_server app bind_endpoint c = do
    address ← to_enet_address e bind_endpoint
    created ← open_host e (some address) c
    native ← or_throw server_create_failed created
    λ w. done (construct app native true w) w

  unfoldable pub create_client : A → HostConfig → Exec e.World (State e A)
  unfolding construct open_host
  create_client app c = do
    created ← open_host e none c
    native ← or_throw client_create_failed created
    λ w. done (construct app native false w) w

  -- The end of `~Host`, once `stopServiceThread` has returned.
  unfoldable pub close : State e A → e.World
  close s = elim s.native_host [ none ↦ s.world | some h ↦ e.host_destroy h s.world ]

  -- `connect` on the ENet host `h`. The result is the one reference to the new object.
  unfoldable pub connect_from : ℕ → Endpoint → ℕ → ℕ → Exec (State e A) ℕ
  unfolding make_peer
  connect_from h remote channels connect_data = do
    address ← on_world (to_enet_address e remote)
    native_peer ←
        on_world (λ w. let (r, w') = e.host_connect h address channels connect_data w in done r w')
    native ← or_throw connect_failed native_peer
    λ t. let (i, made) = make_peer native t in done i (record made { peers = made.peers ++ i ∷ [] })

  unfoldable pub connect : Endpoint → ℕ → ℕ → Exec (State e A) ℕ
  connect remote channels connect_data s = elim s.native_host [
    | none ↦ thrown invalid_host s
    | some h ↦ connect_from h remote channels connect_data s
  ]

  unfoldable pub flush : State e A → State e A
  flush s = elim s.native_host [ none ↦ s | some h ↦ record s { world = e.host_flush h s.world } ]

  -- `broadcast(ChannelIdT, unique_ptr<Packet>)`: on the early return the pointer destroys its packet.
  unfoldable pub broadcast_on : ℕ → Option Packet → Exec (State e A) (Unit {0})
  unfolding native_broadcast
  broadcast_on channel pkt s = elim s.native_host [
    | none ↦ on_world (drop_packet e pkt) s
    | some h ↦ elim pkt [
      | none ↦ done tt s
      | some k ↦ on_world (native_broadcast e h channel (Packet.native_handle k)) s
    ]
  ]

  unfoldable pub broadcast : Option Packet → Exec (State e A) (Unit {0})
  unfolding broadcast_on
  broadcast pkt = broadcast_on 0 pkt

  -- the templates `broadcast(ChannelIdT, const T&, PacketFlagsT)` and `broadcast(const T&, PacketFlagsT)`
  unfoldable pub broadcast_value_on :
      {T : Type 0} → Serializable T → ℕ → T → ℕ → Exec (State e A) (Unit {0})
  broadcast_value_on t channel v flags = do
    pkt ← on_world (Packet.create_value e t v flags)
    broadcast_on channel (some pkt)

  unfoldable pub broadcast_value :
      {T : Type 0} → Serializable T → T → ℕ → Exec (State e A) (Unit {0})
  unfolding broadcast_value_on
  broadcast_value t v flags = broadcast_value_on t 0 v flags

  unfoldable pub is_server : State e A → Bool
  is_server s = s.is_server

  unfoldable pub is_client : State e A → Bool
  is_client s = not s.is_server

  unfoldable pub native_handle : State e A → Option ℕ
  native_handle s = s.native_host
