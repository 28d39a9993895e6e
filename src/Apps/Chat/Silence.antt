-- ===== src/Apps/Chat/Silence.antt =====
-- The server of examples/advanced/comprehensive_example.cpp and its clients: its handlers keep no
-- reference to a new peer, so the object of each connection ends with the CONNECT event.
pub mod Greeting
pub mod Connection
pub mod Events
use mathlib.Core.Option.{some-injective}
use mathlib.Core.List.{append-nil, append_assoc}
use icelander.Prelude.{
  ℕ, ◌<◌, ◌≡◌, ◌≢◌, refl, sym, ap, ◌∙◌, inl, inr, List, [], ◌∷◌, ◌++◌, length, length-append, none,
  some, Bool-cases, not, is_zero, All, All-append, ◌⊎◌, arith, update, Exec, ◌>>=◌, pure, Leaves,
  Leaves-mono, >>=-Leaves, get_elem?, get_elem?-push,
}
use icelander.Bytes.{Platform}
use icelander.Types.{Endpoint, PacketFlag, EventType, connect, disconnect, receive}
use icelander.Enet.{Enet, NativeEvent, PacketLaws, Address}
use icelander.Endpoint.{from_enet_address}
use icelander.Builder
use icelander.Peer
use icelander.Peer.{Peer}
use icelander.Dispatcher
use icelander.Dispatcher.{ConnectEvent, EventDispatcher, dispatch_connect}
use icelander.Host.Refs.{State, on_world, retain, release, make_peer, retain_ref, release_ref}
use icelander.Host.Peers.{count_live, peer_count, expired, first_native, find_peer_by_native}
use icelander.Host.Events.{
  remote_of, process_connect, process_disconnect, process_receive, process_event,
}
use icelander.Host.Lookup.{live_of, find_peer_by_native_lem}
use icelander.Host.Delivery.{process_all}
use icelander.Host.Unchanged.{finally-Leaves}
use icelander.Apps.Handlers.Laws.{build_reliable_cases, send_to_peer}
use icelander.Apps.Chat.{build_welcome, joined_text}
use icelander.Apps.Chat.Server.{ServerState, Line, client_connected, dispatcher, on_connect, print}
use icelander.Apps.Chat.Broadcast.{IsSteady, IsSlot, Moved, IsBalanced}
use icelander.Apps.Chat.Broadcast.Balance.{broadcast_message_lem}

-- No object has a reference left.
abbrev pub IsIdle : {e : Enet} {A : Type 0} → State e A → Type 0
IsIdle s = (j : ℕ) → s.strong j ≡ 0

pub live_of_none :
    (strong : ℕ → ℕ) (is : List ℕ) → ((j : ℕ) → strong j ≡ 0) → live_of strong is ≡ []
live_of_none strong [] h = refl
live_of_none strong (i ∷ is) h = rw (h i) (live_of_none strong is h)

-- One object with references, at the end of the list.
pub live_of_last :
    (strong : ℕ → ℕ) (i : ℕ) (is : List ℕ)
    → strong i ≢ 0
    → ((j : ℕ) → i ≢ j → strong j ≡ 0)
    → All (λ j. i ≢ j) is
    → live_of strong (is ++ i ∷ []) ≡ i ∷ []
live_of_last strong i [] held others fresh = ground arith
live_of_last strong i (j ∷ is) held others fresh =
    rw (others j fresh.0) (live_of_last strong i is held others fresh.1)

pub count_last :
    (strong : ℕ → ℕ) (i : ℕ) (is : List ℕ)
    → strong i ≢ 0
    → ((j : ℕ) → i ≢ j → strong j ≡ 0)
    → All (λ j. i ≢ j) is
    → count_live strong (is ++ i ∷ []) ≡ 1
unfolding count_live expired
count_last strong i [] held others fresh = ground arith
count_last strong i (j ∷ is) held others fresh =
    rw (others j fresh.0) (count_last strong i is held others fresh.1)

pub older_fresh : (i : ℕ) (is : List ℕ) → All (λ j. j < i) is → All (λ j. i ≢ j) is
older_fresh i [] h = tt
older_fresh i (j ∷ is) h = (λ q. absurd (omega (arith, h.0)), older_fresh i is h.1)

pub pushed_bounded :
    (objects : List Peer) (p : Peer) (is : List ℕ)
    → All (λ i. i < length objects) is
    → All (λ i. i < length (objects ++ p ∷ [])) (is ++ length objects ∷ [])
pushed_bounded objects p [] h = (omega (arith, length-append objects (p ∷ [])), tt)
pushed_bounded objects p (i ∷ is) h =
    (omega (arith, length-append objects (p ∷ []), h.0), pushed_bounded objects p is h.1)

-- A line that a run of this server can print.
abbrev pub IsLonely : Line → Type 0
IsLonely l = (remote : Endpoint) × (l ≡ client_connected remote 1)

-- The object `i` is the only one with references, and the last of the list of peers.
pub record IsAlone {e : Enet} {A : Type 0} (i native : ℕ) (s : State e A) : Type 0 where
  pub held : s.strong i ≢ 0
  pub others : (j : ℕ) → i ≢ j → s.strong j ≡ 0
  pub older : List ℕ
  pub listed : s.peers ≡ older ++ i ∷ []
  pub fresh : All (λ j. i ≢ j) older
  pub p : Peer
  pub there : get_elem? s.objects i ≡ some p
  pub on : p.native_peer ≡ some native

-- What the connect handler leaves: one more line, or none if it does not get there.
pub record Greeted {e : Enet} (Good : e.World → Type 0) (s t : State e (List Line)) : Type 0 where
  pub same_strong : t.strong ≡ s.strong
  pub same_objects : t.objects ≡ s.objects
  pub lines : List Line
  pub printed : t.app ≡ s.app ++ lines
  pub lonely : All IsLonely lines
  pub walked : (t.peers ≡ s.peers) ⊎ (t.peers ≡ live_of s.strong s.peers)
  pub still_good : Good t.world

-- Between two events: no object has a reference, the numbers of the peers are those of objects.
pub record IsQuiet {e : Enet} {A : Type 0} (Good : e.World → Type 0) (s : State e A) : Type 0 where
  pub idle : IsIdle s
  pub bounded : All (λ i. i < length s.objects) s.peers
  pub good : Good s.world

-- A quiet state after some more lines.
abbrev pub Says :
    {e : Enet} → (e.World → Type 0) → State e (List Line) → State e (List Line) → Type 0
Says Good s t =
    IsQuiet Good t × ((lines : List Line) × (t.app ≡ s.app ++ lines) × All IsLonely lines)

-- The lookup of the name of a peer is good as well.
abbrev pub IsLookup : (e : Enet) → (e.World → Type 0) → Type 0
IsLookup e Good = (a : Address) (w : e.World) → Good w → Good (e.address_get_host a 256 w).2
