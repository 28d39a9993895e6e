-- ===== src/Host/Handled.antt =====
-- A received packet whose peer has a live object: what the handlers get, and what is left of the
-- packet and of the references.
use icelander.Prelude.{
  ℕ, ◌≡◌, refl, ap, ◌∙◌, some, Outcome, done, thrown, fault, Exec, ◌>>=◌, Leaves,
}
use icelander.Enet.{Enet, NativeEvent, NativePacket}
use icelander.Packet
use icelander.Dispatcher.{EventDispatcher, dispatch_receive}
use icelander.Host.Refs.{State, retain, release, retain_ref, release_ref, on_world}
use icelander.Host.Peers.{first_native, find_peer_by_native}
use icelander.Host.Events.{process_receive}
use icelander.Host.Lookup.{live_of, find_peer_by_native_lem}

module _ (e : Enet) {A : Type 0} where
  -- The end of the block: the event destroys its packet and both references end.
  abbrev pub settle : ℕ → ℕ → State e A → State e A
  settle a i t = record t {
    world = e.packet_destroy a t.world;
    strong = release i (release i t.strong);
  }

  -- The same, whichever way the handlers ended.
  abbrev pub settled : ℕ → ℕ → Outcome (State e A) (Unit {0}) → Outcome (State e A) (Unit {0})
  settled a i (done _ t) = done tt (settle a i t)
  settled a i (thrown x t) = thrown x (settle a i t)
  settled a i fault = fault

  abbrev pub IsLive : ℕ → State e A → Type 0
  IsLive a t = (n : NativePacket) × (e.packet_at t.world a ≡ some n)

  free_live :
      (a : ℕ) (t : State e A)
      → IsLive a t
      → on_world (Packet.free e a) t ≡ done tt (record t { world = e.packet_destroy a t.world })
  unfolding on_world Packet.free
  free_live a t (n, alive) = rw (alive, on_world) refl

  module _ (d : EventDispatcher (State e A)) where
    -- The state in which the handlers are called.
    abbrev pub received : ℕ → State e A → State e A
    received i s = record s {
      peers = live_of s.strong s.peers;
      strong = retain i (retain i s.strong);
    }

    abbrev pub handlers_of : NativeEvent → ℕ → ℕ → Exec (State e A) (Unit {0})
    handlers_of v a i = dispatch_receive d (record {
      peer_handle = i;
      packet_data = some (record { native = some a });
      channel = v.channel_id;
    })

    received_end :
        (a i : ℕ) (o : Outcome (State e A) (Unit {0}))
        → Leaves (IsLive a) o
        → elim o as (λ _. Outcome (State e A) (Unit {0})) [
          | done _ t ↦
              (on_world (Packet.free e a) >>= λ _ u. done tt (release_ref i (release_ref i u))) t
          | thrown x t ↦
              (on_world (Packet.free e a) >>= λ _ u. thrown x (release_ref i (release_ref i u))) t
          | fault ↦ fault
        ]
          ≡ settled a i o
    unfolding release_ref
    received_end a i (done _ t) h = rw (free_live a t h, ◌>>=◌) refl
    received_end a i (thrown x t) h = rw (free_live a t h, ◌>>=◌) refl
    received_end a i fault h = refl

    pub process_receive_handled :
        (v : NativeEvent) (a i : ℕ) (s : State e A)
        → v.packet ≡ some a
        → first_native s.objects v.peer (live_of s.strong s.peers) ≡ some i
        → Leaves (IsLive a) (handlers_of v a i (received i s))
        → process_receive e d v s ≡ settled a i (handlers_of v a i (received i s))
    unfolding process_receive retain_ref Packet.from_native
    process_receive_handled v a i s full hit alive =
        let found : find_peer_by_native v.peer s
            ≡ (some i, record s { peers = live_of s.strong s.peers; strong = retain i s.strong }) =
          find_peer_by_native_lem v.peer s ∙ rw hit refl in
        rw (ap (λ r. r.0) found, process_receive)
          (rw full (rw found (received_end a i (handlers_of v a i (received i s)) alive)))
