-- ===== src/Apps/Sync/Main.antt =====
-- examples/basic/sync_example.cpp as a whole, over ENet: the library, both hosts, their communication,
-- and their end, by whichever way the `try` block is left.
use icelander.Prelude.{ℕ, [], if◌then◌else◌, get_elem?, done, thrown, fault, Exec, ◌>>=◌, or_fault}
use icelander.Types.{Endpoint, default_config}
use icelander.Enet.{Enet}
use icelander.Library
use icelander.Peer.{Peer}
use icelander.Host.Calls.{create_server, create_client, connect, close}
use icelander.Apps.Programs.Rounds.{sync_endpoint}
use icelander.Apps.Sync.{SyncState, Hosts, communicate}

module _ (e : Enet) where
  unfoldable pub connect_client : Endpoint → Exec (Hosts e) Peer
  connect_client remote s =
      elim ((do i ← connect e remote 1 0; λ t. or_fault (get_elem? t.objects i) t)
        (record s.client { world = s.server.world })) [
          | done p t ↦ done p (record { server = record s.server { world = t.world }; client = t })
          | thrown x t ↦
              thrown x (record { server = record s.server { world = t.world }; client = t })
          | fault ↦ fault
        ]

  -- From `connect` to the end of the second loop.
  unfoldable pub run_pair : Exec (Hosts e) (Unit {0})
  unfolding connect_client
  run_pair = do server_peer ← connect_client sync_endpoint; communicate e server_peer

  -- The destructors of `client_host` and of `server_host`.
  unfoldable pub end_hosts : Hosts e → e.World
  end_hosts s =
      close e (record s.server { world = close e (record s.client { world = s.server.world }) })

  unfoldable pub with_client : SyncState e → Exec e.World (Unit {0})
  unfolding end_hosts
  with_client server w = elim (create_client e [] default_config w) [
    | thrown x w' ↦ thrown x (close e (record server { world = w' }))
    | fault ↦ fault
    | done client w' ↦
        elim (run_pair (record { server = record server { world = w' }; client = client })) [
          | done _ t ↦ done tt (end_hosts t)
          | thrown x t ↦ thrown x (end_hosts t)
          | fault ↦ fault
        ]
  ]

  -- The `try` block.
  unfoldable pub run_hosts : Exec e.World (Unit {0})
  run_hosts = do server ← create_server e [] sync_endpoint default_config; with_client server

  unfoldable pub sync_main : Exec (Library.State e) ℕ
  sync_main s =
      let (ready, opened) = Library.initialize e s in
      if ready
      then elim (run_hosts opened.world) [
        | done _ w ↦ done 0 (Library.deinitialize e (record opened { world = w }))
        | thrown x w ↦ done 1 (Library.deinitialize e (record opened { world = w }))
        | fault ↦ fault
      ]
      else done 1 opened
