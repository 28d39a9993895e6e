-- ===== src/Apps/Chat/Silence/Events.antt =====
-- Any events, one after another, at a server on which no object has a reference.
use mathlib.Core.List.{append-nil, append_assoc}
use icelander.Prelude.{
  ℕ, ◌<◌, ◌≡◌, refl, sym, ap, ◌∙◌, List, [], ◌∷◌, ◌++◌, length, none, All, All-append, Leaves,
  Leaves-mono, >>=-Leaves,
}
use icelander.Bytes.{Platform}
use icelander.Types.{EventType, connect, disconnect, receive}
use icelander.Enet.{Enet, NativeEvent, PacketLaws}
use icelander.Host.Peers.{first_native, find_peer_by_native}
use icelander.Host.Events.{process_disconnect, process_receive, process_event}
use icelander.Host.Lookup.{find_peer_by_native_lem}
use icelander.Host.Delivery.{process_all}
use icelander.Apps.Chat.Server.{ServerState, Line, dispatcher}
use icelander.Apps.Chat.Broadcast.{IsSteady, IsSlot}
use icelander.Apps.Chat.Silence.{IsLonely, IsQuiet, Says, IsLookup, live_of_none}
use icelander.Apps.Chat.Silence.Connection.{process_connect-Says}

module _ ⦃m : Platform⦄ (e : Enet) (laws : PacketLaws e) (Good : e.World → Type 0)
    (steady : IsSteady e Good) where
  unsaid :
      (s : ServerState e) (is : List ℕ)
      → IsQuiet Good s
      → All (λ i. i < length s.objects) is
      → Says Good s (record s { peers = is })
  unsaid s is quiet bounded = (
    record { idle = quiet.idle; bounded = bounded; good = quiet.good },
    ([], sym (append-nil s.app), tt),
  )

  unfound :
      (native : ℕ) (s : ServerState e)
      → IsQuiet Good s
      → find_peer_by_native native s ≡ (none, record s { peers = [] })
  unfolding first_native
  unfound native s quiet =
      find_peer_by_native_lem native s ∙ rw (live_of_none s.strong s.peers quiet.idle) refl

  process_event-Says :
      (now : ℕ) (v : NativeEvent) (s : ServerState e)
      → IsLookup e Good
      → IsSlot e Good v.peer
      → IsQuiet Good s
      → (k : EventType) → v.kind ≡ k
      → Leaves (Says Good s) (process_event e (dispatcher e now) v s)
  unfolding process_event process_disconnect process_receive
  process_event-Says now v s lookup slot quiet connect q =
      rw (q, process_event) (process_connect-Says e laws Good steady now v s lookup slot quiet)
  process_event-Says now v s lookup slot quiet disconnect q =
      let f = unfound v.peer s quiet in
      rw (q, process_event)
        (rw (ap (λ r. r.0) f, process_disconnect) (rw (ap (λ r. r.1) f) (unsaid s [] quiet tt)))
  process_event-Says now v s lookup slot quiet receive q =
      let f = unfound v.peer s quiet in
      rw (q, process_event)
        (rw (ap (λ r. r.0) f, process_receive) (rw (ap (λ r. r.1) f) (unsaid s [] quiet tt)))
  process_event-Says now v s lookup slot quiet EventType.none q =
      rw (q, process_event) (unsaid s s.peers quiet quiet.bounded)

  -- Where no object has a reference at first, whatever events follow one another, the server prints
  -- nothing but lines of connected clients, each with a count of 1 peer, and again no object has a
  -- reference. The ENet peers of the events are there in every good state of ENet; the calls for
  -- packets and the lookup of a name keep it good.
  pub server_prints_lem :
      (now : ℕ) (vs : List NativeEvent) (s : ServerState e)
      → IsLookup e Good
      → All (λ v. IsSlot e Good v.peer) vs
      → IsQuiet Good s
      → Leaves
          (λ t.
            IsQuiet Good t × ((lines : List Line) × (t.app ≡ s.app ++ lines) × All IsLonely lines))
          (process_all e (dispatcher e now) vs s)
  server_prints_lem now [] s lookup slots quiet = unsaid s s.peers quiet quiet.bounded
  server_prints_lem now (v ∷ vs) s lookup slots quiet =
      >>=-Leaves (process_event e (dispatcher e now) v) (λ _. process_all e (dispatcher e now) vs) s
        (Says Good s) (Says Good s) (process_event-Says now v s lookup slots.0 quiet v.kind refl)
        (λ t h. h)
        λ _ t (quiet', (lines, printed, lonely)).
          Leaves-mono (Says Good t) (Says Good s) _
            (server_prints_lem now vs t lookup slots.1 quiet')
            λ u (quiet'', (more, after, lonely')). (
              quiet'',
              (
                lines ++ more,
                after ∙ ap (λ l. l ++ more) printed ∙ append_assoc s.app lines more,
                All-append IsLonely lines more lonely lonely',
              ),
            )
