-- ===== src/Host/Delivery.antt =====
-- Which received packets reach the handlers. `peers_` holds weak pointers, and only the application
-- holds strong ones.
use icelander.Prelude.{
  ◌>>=◌, Bool-cases, ◌==◌, ◌>>◌, pure, ℕ, ◌<◌, ◌≡◌, ◌≢◌, refl, ap, ◌∙◌, ◌⊎◌, inl, inr, List, [],
  ◌∷◌, ◌++◌, none, some, false, length, All, arith, update, done, Exec, Leaves, after-Leaves,
  Leaves-mono, >>=-Leaves, after, get_elem?-push_ne, get_elem?, get_elem?-push, All-append,
}
use icelander.Types.{Endpoint, connect, receive}
use icelander.Enet.{Enet, NativeEvent, NativePeer}
use icelander.Peer
use icelander.Peer.{Peer}
use icelander.Dispatcher.{ConnectEvent, EventDispatcher, dispatch_connect}
use icelander.Host.Refs.{State, retain, release, make_peer, retain_ref, release_ref}
use icelander.Host.Peers.{has_native, first_native, find_peer_by_native}
use icelander.Host.Events.{remote_of, process_connect, process_receive, process_event}
use icelander.Host.Unchanged.{Unchanged, Unchanged-trans, finally-Leaves, remote_of-Unchanged}
use icelander.Host.Lookup.{live_of, find_peer_by_native_lem}

-- No entry of `peers_` is a live object of the ENet peer.
abbrev pub IsMissing : (ℕ → ℕ) → List Peer → ℕ → List ℕ → Type 0
IsMissing strong objects native = All (λ i. (strong i ≡ 0) ⊎ (has_native objects native i ≡ false))

first_native_missing :
    (strong : ℕ → ℕ) (objects : List Peer) (native : ℕ) (is : List ℕ)
    → IsMissing strong objects native is
    → first_native objects native (live_of strong is) ≡ none
unfolding first_native
first_native_missing strong objects native [] h = refl
first_native_missing strong objects native (i ∷ is) h =
    ground (arith, first_native_missing strong objects native is h.1)

-- A new object at the end of `objects` leaves the older entries of `peers_` as missing as they were.
pub IsMissing-grown :
    (strong strong' : ℕ → ℕ) (objects : List Peer) (p : Peer) (native : ℕ) (is : List ℕ)
    → ((i : ℕ) → i ≢ length objects → strong' i ≡ strong i)
    → All (λ i. i < length objects) is
    → IsMissing strong objects native is
    → IsMissing strong' (objects ++ p ∷ []) native is
unfolding has_native
IsMissing-grown strong strong' objects p native [] kept valid missing = tt
IsMissing-grown strong strong' objects p native (i ∷ is) kept valid missing =
    let old : i ≢ length objects = λ q. absurd (omega (arith, valid.0)) in
    (
      elim missing.0 [
        | inl dead ↦ inl (kept i old ∙ dead)
        | inr other ↦
            inr
              (ground (arith, get_elem?-push_ne objects i p (λ q. absurd (omega (arith, valid.0)))))
      ],
      IsMissing-grown strong strong' objects p native is kept valid.1 missing.1,
    )

IsMissing-live_of :
    (strong : ℕ → ℕ) (objects : List Peer) (native : ℕ) (is : List ℕ)
    → IsMissing strong objects native is
    → IsMissing strong objects native (live_of strong is)
IsMissing-live_of strong objects native [] h = tt
IsMissing-live_of strong objects native (i ∷ is) h = elim (Bool-cases (strong i == 0)) [
  | inl dead ↦ rw dead (IsMissing-live_of strong objects native is h.1)
  | inr alive ↦ rw alive (h.0, IsMissing-live_of strong objects native is h.1)
]

nothing_found :
    {e : Enet} {A : Type 0} (native : ℕ) (s : State e A)
    → IsMissing s.strong s.objects native s.peers
    → find_peer_by_native native s ≡ (none, record s { peers = live_of s.strong s.peers })
nothing_found native s h =
    find_peer_by_native_lem native s ∙ rw (first_native_missing s.strong s.objects native s.peers h)

module _ (e : Enet) {A : Type 0} (d : EventDispatcher (State e A)) where
  -- A packet for an ENet peer without a live object reaches no handler and is not destroyed: the
  -- state is left as it was, but for the expired entries of `peers_`.
  pub receive_lost :
      (v : NativeEvent) (s : State e A)
      → v.kind ≡ receive
      → IsMissing s.strong s.objects v.peer s.peers
      → process_event e d v s ≡ done tt (record s { peers = live_of s.strong s.peers })
  unfolding process_event process_receive
  receive_lost v s k h =
      let found = nothing_found v.peer s h in
      rw (k, process_event) (rw (ap (λ r. r.0) found, process_receive) (rw found))

module _ (e : Enet) {A : Type 0} (d : EventDispatcher (State e A)) where
  -- Events one after another, as calls of `service` handle them.
  abbrev pub process_all : List NativeEvent → Exec (State e A) (Unit {0})
  process_all [] = pure tt
  process_all (v ∷ vs) = process_event e d v >> process_all vs

  -- The packets of one ENet peer.
  abbrev pub ArePackets : ℕ → List NativeEvent → Type 0
  ArePackets native = All (λ v. (v.kind ≡ receive) × (v.peer ≡ native))

  all_lost :
      (native : ℕ) (vs : List NativeEvent) (s : State e A)
      → ArePackets native vs
      → IsMissing s.strong s.objects native s.peers
      → (t : State e A) × (process_all vs s ≡ done tt t) × (t.world ≡ s.world) × (t.app ≡ s.app)
  all_lost native [] s h missing = (s, refl, refl, refl)
  all_lost native (v ∷ vs) s h missing =
      let cleaned = record s { peers = live_of s.strong s.peers } in
      let lost = receive_lost e d v s h.0.0 (rw h.0.1 missing) in
      let (t, ran, same_world, same_app) =
        all_lost native vs cleaned h.1
          (IsMissing-live_of s.strong s.objects native s.peers missing) in
      (t, rw (lost, ◌>>=◌) ran, same_world, same_app)

module _ (e : Enet) {A : Type 0} (d : EventDispatcher (State e A)) where
  -- Handlers that take no reference to a new peer, whose object is there, nor drop one.
  abbrev pub KeepsNothing : Type 0
  KeepsNothing =
      (v : ConnectEvent) (p : Peer) (s : State e A)
      → get_elem? s.objects v.peer_handle ≡ some p
      → Leaves (Unchanged s) (dispatch_connect d v s)

  -- What a connection leaves behind where the handlers keep nothing: an entry of `peers_` whose
  -- object is gone.
  pub record Forgotten (native : ℕ) (s t : State e A) : Type 0 where
    pub listed : t.peers ≡ s.peers ++ length s.objects ∷ []
    pub made : t.objects ≡ s.objects ++ Peer.new (some native) s.native_host ∷ []
    pub gone : t.strong (length s.objects) ≡ 0
    pub kept : (i : ℕ) → i ≢ length s.objects → t.strong i ≡ s.strong i

  pub process_connect-Forgotten :
      (v : NativeEvent) (n : NativePeer) (s : State e A)
      → KeepsNothing
      → e.peer_at s.world v.peer ≡ some n
      → Leaves (Forgotten v.peer s) (process_connect e d v s)
  unfolding process_connect make_peer retain_ref release_ref retain release
  process_connect-Forgotten v n s quiet alive =
      finally-Leaves (Unchanged listed) (Forgotten v.peer s) _ _ listed
        (>>=-Leaves (remote_of e d v.peer) report listed (Unchanged listed) (Unchanged listed)
          (remote_of-Unchanged e d v.peer n listed alive) (λ t u. u)
          λ r t u.
            Leaves-mono (Unchanged t) (Unchanged listed) _
              (quiet (event r) made t (rw u.same_objects (get_elem?-push s.objects made)))
              (λ t' u'. Unchanged-trans u u'))
        λ t u. record {
          listed = u.same_peers;
          made = u.same_objects;
          gone = ground (arith, ap (λ f. f (length s.objects)) u.same_strong);
          kept = λ i ne. ground (arith, ap (λ f. f i) u.same_strong);
        }
    where
      listed : State e A
      listed = record s {
        peers = s.peers ++ length s.objects ∷ [];
        objects = s.objects ++ Peer.new (some v.peer) s.native_host ∷ [];
        strong = retain (length s.objects) (update s.strong (length s.objects) 1);
      }

      made : Peer
      made = Peer.new (some v.peer) s.native_host

      event : Endpoint → ConnectEvent
      event r = record { peer_handle = length s.objects; remote_endpoint = r; payload = v.payload }

      report : Endpoint → Exec (State e A) (Unit {0})
      report r = dispatch_connect d (event r)

  pub process_event-connect :
      (v : NativeEvent) (s : State e A)
      → v.kind ≡ connect
      → process_event e d v s ≡ process_connect e d v s
  unfolding process_event
  process_event-connect v s k = simp (k, process_event)

  -- A connection whose handlers keep no reference is lost, if the ENet peer had no live object before:
  -- the packets of that peer that follow reach no handler and are not destroyed; they leave ENet and
  -- the application as they were.
  pub connect_lost :
      (v : NativeEvent) (packets : List NativeEvent) (n : NativePeer) (s : State e A)
      → v.kind ≡ connect
      → ArePackets e d v.peer packets
      → KeepsNothing
      → e.peer_at s.world v.peer ≡ some n
      → All (λ i. i < length s.objects) s.peers
      → IsMissing s.strong s.objects v.peer s.peers
      → (t u : State e A) × (after (process_event e d v s) ≡ some t)
        × (process_all e d packets t ≡ done tt u)
        × (u.world ≡ t.world)
        × (u.app ≡ t.app)
  connect_lost v packets n s kv are quiet alive valid missing =
      let (t, e', f) =
        after-Leaves (Forgotten v.peer s) (process_connect e d v s)
          (process_connect-Forgotten v n s quiet alive) in
      let fresh : IsMissing t.strong t.objects v.peer (length s.objects ∷ []) = (inl f.gone, tt) in
      let older : IsMissing t.strong t.objects v.peer s.peers = rw f.made (
        IsMissing-grown s.strong t.strong s.objects (Peer.new (some v.peer) s.native_host) v.peer
          s.peers f.kept valid missing) in
      let all : IsMissing t.strong t.objects v.peer t.peers =
        rw f.listed (All-append _ s.peers (length s.objects ∷ []) older fresh) in
      let (u, ran, same_world, same_app) = all_lost e d v.peer packets t are all in
      (t, u, ap after (process_event-connect v s kv) ∙ e', ran, same_world, same_app)
