-- ===== src/Apps/Chat/Silence/Connection.antt =====
-- A CONNECT event at a server on which no object has a reference.
use mathlib.Core.List.{append-nil}
use icelander.Prelude.{
  ℕ, ◌<◌, refl, sym, ap, ◌∙◌, inl, inr, [], ◌∷◌, ◌++◌, length, some, Bool-cases, not, is_zero, All,
  arith, update, Exec, ◌>>=◌, pure, Leaves, Leaves-mono, >>=-Leaves, get_elem?-push,
}
use icelander.Bytes.{Platform}
use icelander.Types.{Endpoint}
use icelander.Enet.{Enet, NativeEvent, PacketLaws}
use icelander.Endpoint.{from_enet_address}
use icelander.Peer
use icelander.Peer.{Peer}
use icelander.Dispatcher
use icelander.Dispatcher.{ConnectEvent, EventDispatcher, dispatch_connect}
use icelander.Host.Refs.{on_world, retain, release, make_peer, retain_ref, release_ref}
use icelander.Host.Events.{remote_of, process_connect}
use icelander.Host.Unchanged.{finally-Leaves}
use icelander.Apps.Chat.Server.{ServerState, dispatcher, on_connect}
use icelander.Apps.Chat.Broadcast.{IsSteady, IsSlot, Moved}
use icelander.Apps.Chat.Silence.{
  IsAlone, Greeted, IsQuiet, Says, IsLookup, live_of_last, older_fresh, pushed_bounded,
}
use icelander.Apps.Chat.Silence.Greeting.{on_connect-Greeted}

module _ ⦃m : Platform⦄ (e : Enet) (laws : PacketLaws e) (Good : e.World → Type 0)
    (steady : IsSteady e Good) where
  remote_of-Moved :
      (d : EventDispatcher (ServerState e)) (native : ℕ) (s : ServerState e)
      → IsLookup e Good
      → IsSlot e Good native
      → Good s.world
      → Leaves (Moved e Good s) (remote_of e d native s)
  unfolding remote_of Peer.deref from_enet_address on_world
  remote_of-Moved d native s lookup slot good =
      let (n, alive) = slot s.world good in
      let looked = lookup n.address s.world good in
      rw (alive, ◌>>=◌, Peer.deref, on_world)
        (elim (Bool-cases (not (is_zero (e.address_get_host n.address 256 s.world).0))) [
          | inl failed ↦ rw failed (_, refl, looked)
          | inr known ↦ rw known (_, refl, looked)
        ])

  dispatched :
      (now : ℕ) (v : ConnectEvent) (s t : ServerState e)
      → Leaves (Greeted Good s) (on_connect e v t)
      → Leaves (Greeted Good s) (dispatch_connect (dispatcher e now) v t)
  unfolding dispatcher dispatch_connect Dispatcher.on_disconnect Dispatcher.on_receive
      Dispatcher.on_connect Dispatcher.new Dispatcher.call_all
  dispatched now v s t h =
      >>=-Leaves (on_connect e v) (λ _. pure tt) t (Greeted Good s) (Greeted Good s) h (λ u g. g)
        (λ _ u g. g)

  pub process_connect-Says :
      (now : ℕ) (v : NativeEvent) (s : ServerState e)
      → IsLookup e Good
      → IsSlot e Good v.peer
      → IsQuiet Good s
      → Leaves (Says Good s) (process_connect e (dispatcher e now) v s)
  unfolding process_connect make_peer retain_ref release_ref retain release Peer.new
  process_connect-Says now v s lookup slot quiet =
      finally-Leaves (Greeted Good listed) (Says Good s) _ _ listed
        (>>=-Leaves (remote_of e (dispatcher e now) v.peer) report listed (Moved e Good listed)
          (Greeted Good listed)
          (remote_of-Moved (dispatcher e now) v.peer listed lookup slot quiet.good)
          (λ t (w, same, good). rw same (quietly w good))
          λ r t (w, same, good). rw same (reported r w good))
        λ t u. (
          record {
            idle = λ j. ground (
              arith,
              ap (λ f. f j) u.same_strong,
              ap (λ f. f (length s.objects)) u.same_strong,
              quiet.idle j,
            );
            bounded = rw u.same_objects (still_bounded t u);
            good = u.still_good;
          },
          (u.lines, u.printed, u.lonely),
        )
    where
      listed : ServerState e
      listed = record s {
        peers = s.peers ++ length s.objects ∷ [];
        objects = s.objects ++ Peer.new (some v.peer) s.native_host ∷ [];
        strong = retain (length s.objects) (update s.strong (length s.objects) 1);
      }

      report : Endpoint → Exec (ServerState e) (Unit {0})
      report r =
          dispatch_connect (dispatcher e now)
            (record { peer_handle = length s.objects; remote_endpoint = r; payload = v.payload })

      quietly : (w : e.World) → Good w → Greeted Good listed (record listed { world = w })
      quietly w good = record {
        same_strong = refl;
        same_objects = refl;
        lines = [];
        printed = sym (append-nil s.app);
        lonely = tt;
        walked = inl refl;
        still_good = good;
      }

      alone : (w : e.World) → IsAlone (length s.objects) v.peer (record listed { world = w })
      alone w = record {
        held = λ q. ground arith;
        others = λ j ne. ground (arith, quiet.idle j);
        older = s.peers;
        listed = refl;
        fresh = older_fresh (length s.objects) s.peers quiet.bounded;
        p = Peer.new (some v.peer) s.native_host;
        there = get_elem?-push s.objects (Peer.new (some v.peer) s.native_host);
        on = refl;
      }

      reported :
          (r : Endpoint) (w : e.World)
          → Good w
          → Leaves (Greeted Good listed) (report r (record listed { world = w }))
      reported r w good =
          dispatched now _ listed (record listed { world = w })
            (Leaves-mono (Greeted Good (record listed { world = w })) (Greeted Good listed) _
              (on_connect-Greeted e laws Good steady v.peer
                (record {
                  peer_handle = length s.objects;
                  remote_endpoint = r;
                  payload = v.payload;
                })
                (record listed { world = w }) good slot (alone w))
              λ t g. record {
                same_strong = g.same_strong;
                same_objects = g.same_objects;
                lines = g.lines;
                printed = g.printed;
                lonely = g.lonely;
                walked = g.walked;
                still_good = g.still_good;
              })

      still_bounded :
          (t : ServerState e)
          → Greeted Good listed t
          → All (λ i. i < length (s.objects ++ Peer.new (some v.peer) s.native_host ∷ [])) t.peers
      still_bounded t u = elim u.walked [
        | inl same ↦
            rw same (
              pushed_bounded s.objects (Peer.new (some v.peer) s.native_host) s.peers quiet.bounded)
        | inr cleaned ↦
            let a = alone s.world in
            rw
              (cleaned
                ∙ live_of_last listed.strong (length s.objects) s.peers a.held a.others a.fresh)
              (pushed_bounded s.objects (Peer.new (some v.peer) s.native_host) [] tt)
      ]
