-- ===== src/Apps/Unheard.antt =====
-- The servers of examples/networking/async_server.cpp, examples/basic/sync_example.cpp and
-- examples/advanced/performance_benchmark.cpp: which of their handlers run.
use icelander.Prelude.{
  ℕ, ◌≡◌, inl, inr, refl, sym, List, [], ◌∷◌, ◌++◌, some, Option-cases, Leaves, Leaves-mono,
  >>=-Leaves, get_elem?, Exec, ◌>>=◌, ◌>>◌, pure,
}
use icelander.Types.{PacketFlag}
use icelander.Bytes.{Platform}
use icelander.Enet.{Enet, NativeEvent, PacketLaws}
use icelander.Packet
use icelander.Packet.{Packet}
use icelander.Peer.{Peer}
use icelander.Dispatcher
use icelander.Dispatcher.{ConnectEvent, EventDispatcher, dispatch_connect}
use icelander.Host.Refs.{State, on_world}
use icelander.Host.Unchanged.{Unchanged, Unchanged-refl}
use icelander.Host.Delivery.{process_all, KeepsNothing}
use icelander.Host.Unheard.{connect_only, handlers_unheard}
use icelander.Apps.Handlers.{send_to}
use icelander.Apps.Handlers.Laws.{send_to_done}
use icelander.Apps.Benchmark
use icelander.Apps.Benchmark.{BenchState}
use icelander.Apps.Echo
use icelander.Apps.Echo.{EchoState}
use icelander.Apps.Sync
use icelander.Apps.Sync.{SyncState}

module _ (e : Enet) (laws : PacketLaws e) {A : Type 0} where
  -- A packet is created and sent to an object that is there.
  created_sent-Unchanged :
      (bytes : List ℕ) (flags i : ℕ) (p : Peer) (s : State e A)
      → get_elem? s.objects i ≡ some p
      → Leaves (Unchanged s) ((on_world (Packet.create e bytes flags) >>= send_to e i) s)
  unfolding on_world Packet.create Packet.new
  created_sent-Unchanged bytes flags i p s there =
      elim (Option-cases (e.packet_create bytes flags s.world).0) [
        | inl failed ↦
            rw (failed, ◌>>=◌, Packet.new, on_world)
              (record { same_peers = refl; same_objects = refl; same_strong = refl })
        | inr (a, made) ↦
            let w = (e.packet_create bytes flags s.world).1 in
            rw (made, ◌>>=◌, Packet.new, on_world)
              (rw
                ((send_to_done e laws i a _ p (record s { world = w }) there
                  (laws.created bytes flags s.world a made)).1)
                (record { same_peers = refl; same_objects = refl; same_strong = refl }))
      ]

then_pure :
    {e : Enet} {A : Type 0} (b : Exec (State e A) (Unit {0})) (s : State e A)
    → Leaves (Unchanged s) (b s)
    → Leaves (Unchanged s) ((b >> pure tt) s)
then_pure b s h =
    >>=-Leaves b (λ _. pure tt) s (Unchanged s) (Unchanged s) h (λ t u. u) (λ _ t u. u)

module _ (e : Enet) (laws : PacketLaws e) where
  echo-KeepsNothing : KeepsNothing e (Echo.server_dispatcher e)
  unfolding Echo.server_dispatcher Echo.on_connect_server Echo.print Echo.send_bytes
      dispatch_connect Dispatcher.on_disconnect Dispatcher.on_receive Dispatcher.on_connect
      Dispatcher.new Dispatcher.call_all
  echo-KeepsNothing v p s there = then_pure (Echo.on_connect_server e v) s (
      let printed = record s { app = s.app ++ Echo.client_connected v.remote_endpoint ∷ [] } in
      Leaves-mono (Unchanged printed) (Unchanged s) _
        (created_sent-Unchanged e laws Echo.greeting (e.flag_value PacketFlag.reliable)
          v.peer_handle p printed there)
        (λ t u. record {
          same_peers = u.same_peers;
          same_objects = u.same_objects;
          same_strong = u.same_strong;
        }))

  sync-KeepsNothing : KeepsNothing e (Sync.server_dispatcher e)
  unfolding Sync.server_dispatcher Sync.on_connect_server Sync.print Sync.greet dispatch_connect
      Dispatcher.on_receive Dispatcher.on_connect Dispatcher.new Dispatcher.call_all
  sync-KeepsNothing v p s there = then_pure (Sync.on_connect_server e v) s (
      let printed = record s { app = s.app ++ Sync.server_connected ∷ [] } in
      Leaves-mono (Unchanged printed) (Unchanged s) _
        (created_sent-Unchanged e laws Sync.server_greeting (e.flag_value PacketFlag.reliable)
          v.peer_handle p printed there)
        (λ t u. record {
          same_peers = u.same_peers;
          same_objects = u.same_objects;
          same_strong = u.same_strong;
        }))

  benchmark-KeepsNothing : ⦃m : Platform⦄ → KeepsNothing e (Benchmark.server_dispatcher e)
  unfolding Benchmark.server_dispatcher Benchmark.on_connect_server dispatch_connect
      Dispatcher.on_receive Dispatcher.on_connect Dispatcher.new Dispatcher.call_all
  benchmark-KeepsNothing v p s there = Unchanged-refl s

  -- Where no Peer object has a reference at first, as after the creation of a host, the echo server, the
  -- sync server and the benchmark server end any sequence of events in the same way as servers with their
  -- connect handlers alone: no other handler of theirs is ever called.
  pub servers_unheard :
      ⦃m : Platform⦄
      → (vs : List NativeEvent) (echo : EchoState e) (sync : SyncState e) (bench : BenchState e)
      → ((j : ℕ) → echo.strong j ≡ 0)
      → ((j : ℕ) → sync.strong j ≡ 0)
      → ((j : ℕ) → bench.strong j ≡ 0)
      → (process_all e (Echo.server_dispatcher e) vs echo
          ≡ process_all e (connect_only (Echo.server_dispatcher e)) vs echo)
        × (process_all e (Sync.server_dispatcher e) vs sync
            ≡ process_all e (connect_only (Sync.server_dispatcher e)) vs sync)
        × (process_all e (Benchmark.server_dispatcher e) vs bench
            ≡ process_all e (connect_only (Benchmark.server_dispatcher e)) vs bench)
  servers_unheard vs echo sync bench h k l = (
    sym (handlers_unheard e (Echo.server_dispatcher e) vs echo echo-KeepsNothing h),
    sym (handlers_unheard e (Sync.server_dispatcher e) vs sync sync-KeepsNothing k),
    sym (handlers_unheard e (Benchmark.server_dispatcher e) vs bench benchmark-KeepsNothing l),
  )
