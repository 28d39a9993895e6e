-- ===== src/Apps/Chat/Answers.antt =====
-- What the server answers, and how a chat gets from one client to the others.
use icelander.Prelude.{
  ℕ, ◌+◌, ◌%◌, ◌^◌, ◌≤◌, ◌<◌, ◌≡◌, refl, ap, List, [], ◌∷◌, ◌++◌, Option, some, length, ◌==◌,
  if◌then◌else◌, Bool-cases, inl, inr, Error, done, thrown, ◌>>=◌, get_elem?, arith,
}
use icelander.Bytes.{Platform}
use icelander.Types.{PacketFlag}
use icelander.Enet.{Enet, NativePacket, PacketLaws}
use icelander.Builder
use icelander.Builder.{PacketBuilder}
use icelander.Reader
use icelander.Reader.{PacketReader}
use icelander.Packet
use icelander.Packet.{Packet}
use icelander.Peer.{Peer}
use icelander.Dispatcher.{ReceiveEvent}
use icelander.Host.Refs.{on_world}
use icelander.Host.Calls.{broadcast, broadcast_on, native_broadcast}
use icelander.Apps.Handlers.{catching}
use icelander.Apps.Handlers.Laws.{open_reader_live, build_reliable_made, send_to_peer}
use icelander.Apps.Chat.{
  Request, chat, ping, unknown, chat_from, build_broadcast, build_pong, build_chat, read_request,
  read_notice,
}
use icelander.Apps.Chat.Server
use icelander.Apps.Chat.Server.{ServerState, answer}
use icelander.Apps.Chat.Client
use icelander.Apps.Chat.Client.{ClientState}
use icelander.Apps.Chat.Wire.Requests.{requests_lem}
use icelander.Apps.Chat.Wire.Notices.{notices_lem}

module _ ⦃m : Platform⦄ (e : Enet) (laws : PacketLaws e) where
  abbrev reliable : ℕ
  reliable = e.flag_value PacketFlag.reliable

  -- A receive event with the packet `a`.
  abbrev pub Arrives : ℕ → ReceiveEvent → Type 0
  Arrives a v = ◌≡◌ {A = Option Packet} v.packet_data (some (record { native = some a }))

  pub broadcast_open :
      (h a : ℕ) (s : ServerState e)
      → s.native_host ≡ some h
      → broadcast e (some (record { native = some a })) s
        ≡ done tt (record s { world = e.host_broadcast h 0 a s.world })
  unfolding broadcast broadcast_on native_broadcast on_world Packet.native_handle
  broadcast_open h a s opened = simp (opened, broadcast_on)

  answer-chat :
      (now i client_id h a : ℕ) (message : List ℕ) (w : e.World) (s : ServerState e)
      → s.native_host ≡ some h
      → e.packet_create (Builder.span (build_broadcast client_id message)) reliable s.world
        ≡ (some a, w)
      → answer e now i (chat client_id message) s
        ≡ done tt (record s {
          world = e.host_broadcast h 0 a w;
          app = s.app ++ Server.chat_received client_id message ∷ [];
        })
  unfolding answer Server.print
  answer-chat now i client_id h a message w s opened made =
      let printed = record s { app = s.app ++ Server.chat_received client_id message ∷ [] } in
      rw
        (
          build_reliable_made e laws (build_broadcast client_id message) a w printed made,
          ◌>>=◌,
          answer,
        )
        (broadcast_open h a (record printed { world = w }) opened)

  answer-ping :
      (now i timestamp a native : ℕ) (p : Peer) (w : e.World) (s : ServerState e)
      → get_elem? s.objects i ≡ some p
      → p.native_peer ≡ some native
      → e.packet_create (Builder.span (build_pong timestamp now)) reliable s.world ≡ (some a, w)
      → answer e now i (ping timestamp) s
        ≡ done tt (record s { world = (e.peer_send native 0 a w).1 })
  unfolding answer
  answer-ping now i timestamp a native p w s there on made =
      rw (build_reliable_made e laws (build_pong timestamp now) a w s made, ◌>>=◌, answer)
        (send_to_peer e laws i a native p (record s { world = w }) there on)

  -- What the server makes of a packet once it is read.
  on_receive_read :
      (now a : ℕ) (n : NativePacket) (v : ReceiveEvent) (req : Request) (r : PacketReader)
      (t : ServerState e) (s : ServerState e)
      → Arrives a v
      → e.packet_at s.world a ≡ some n
      → read_request (Reader.new n.contents) ≡ done req r
      → answer e now v.peer_handle req s ≡ done tt t
      → Server.on_receive e now v s ≡ done tt t
  unfolding Server.on_receive
  on_receive_read now a n v req r t s here alive read answered =
      rw (here, open_reader_live e laws a n s alive, ◌>>=◌, Server.on_receive)
        (rw (read, ◌>>=◌) (rw (answered, catching) refl))

  on_receive_thrown :
      (now a : ℕ) (n : NativePacket) (v : ReceiveEvent) (x : Error) (r : PacketReader)
      (s : ServerState e)
      → Arrives a v
      → e.packet_at s.world a ≡ some n
      → read_request (Reader.new n.contents) ≡ thrown x r
      → Server.on_receive e now v s
        ≡ done tt (record s { app = s.app ++ Server.processing_error ∷ [] })
  unfolding Server.on_receive Server.print
  on_receive_thrown now a n v x r s here alive read =
      rw (here, open_reader_live e laws a n s alive, ◌>>=◌, Server.on_receive)
        (rw (read, ◌>>=◌) refl)

  -- A packet that can be read is answered by its kind: a chat is printed and broadcast on the open
  -- host, a ping goes back with both times to the peer that sent it, anything else is ignored; a packet
  -- that cannot be read costs one line of output. ENet makes the packet of the answer at `b`.
  pub on_receive_lem :
      (now a b h native : ℕ) (n : NativePacket) (v : ReceiveEvent) (p : Peer) (w : e.World)
      (s : ServerState e)
      → Arrives a v
      → e.packet_at s.world a ≡ some n
      → s.native_host ≡ some h
      → get_elem? s.objects v.peer_handle ≡ some p
      → p.native_peer ≡ some native
      → ((client_id : ℕ) (message : List ℕ) (r : PacketReader)
          → read_request (Reader.new n.contents) ≡ done (chat client_id message) r
          → e.packet_create (Builder.span (build_broadcast client_id message)) reliable s.world
            ≡ (some b, w)
          → Server.on_receive e now v s
            ≡ done tt (record s {
              world = e.host_broadcast h 0 b w;
              app = s.app ++ Server.chat_received client_id message ∷ [];
            }))
        × ((timestamp : ℕ) (r : PacketReader)
            → read_request (Reader.new n.contents) ≡ done (ping timestamp) r
            → e.packet_create (Builder.span (build_pong timestamp now)) reliable s.world
              ≡ (some b, w)
            → Server.on_receive e now v s
              ≡ done tt (record s { world = (e.peer_send native 0 b w).1 }))
        × ((r : PacketReader)
            → read_request (Reader.new n.contents) ≡ done unknown r
            → Server.on_receive e now v s ≡ done tt s)
        × ((x : Error) (r : PacketReader)
            → read_request (Reader.new n.contents) ≡ thrown x r
            → Server.on_receive e now v s
              ≡ done tt (record s { app = s.app ++ Server.processing_error ∷ [] }))
  unfolding answer
  on_receive_lem now a b h native n v p w s here alive opened there on = (
    λ client_id message r read made.
        on_receive_read now a n v _ r _ s here alive read
          (answer-chat now v.peer_handle client_id h b message w s opened made),
    λ timestamp r read made.
        on_receive_read now a n v _ r _ s here alive read
          (answer-ping now v.peer_handle timestamp b native p w s there on made),
    λ r read. on_receive_read now a n v unknown r s s here alive read refl,
    λ x r read. on_receive_thrown now a n v x r s here alive read,
  )

  shown_chat :
      (own now a sender_id : ℕ) (message : List ℕ) (n : NativePacket) (u : ReceiveEvent)
      (r : PacketReader) (c : ClientState e)
      → Arrives a u
      → e.packet_at c.world a ≡ some n
      → read_notice (Reader.new n.contents) ≡ done (chat_from sender_id message) r
      → Client.on_receive e own now u c
        ≡ done tt (
            if sender_id == own
            then c
            else record c { app = c.app ++ Client.chat sender_id message ∷ [] })
  unfolding Client.on_receive Client.show Client.print
  shown_chat own now a sender_id message n u r c here alive read =
      rw (here, open_reader_live e laws a n c alive, ◌>>=◌, Client.on_receive)
        (rw (read, ◌>>=◌)
          (elim (Bool-cases (sender_id == own)) [
            | inl same ↦ rw same refl
            | inr differs ↦ rw differs refl
          ]))

  -- Of the two receive handlers, called on their packets. Given a chat that the client of index
  -- `idx` builds, in a live packet, from a peer object with an ENet peer, the handler of an open
  -- server hands ENet one packet for all peers, if ENet makes it; and the handler of a client,
  -- given a live packet with those bytes, prints the number and the text of the chat, unless the
  -- number is its own. The strings of the platform may have 2 ^ 32 bytes, the text has fewer. That
  -- the handler of the server is reached is not said.
  pub chat_delivered :
      (now idx a b h native : ℕ) (message : List ℕ) (n : NativePacket) (v : ReceiveEvent) (p : Peer)
      (w : e.World) (s : ServerState e)
      → 2 ^ 32 ≤ m.string_max
      → length message < 2 ^ 32
      → Arrives a v
      → e.packet_at s.world a ≡ some n
      → n.contents ≡ Builder.span (build_chat idx message)
      → s.native_host ≡ some h
      → get_elem? s.objects v.peer_handle ≡ some p
      → p.native_peer ≡ some native
      → let id = (idx + 1) % 2 ^ 32 in
        e.packet_create (Builder.span (build_broadcast id message)) reliable s.world ≡ (some b, w)
        → (sent : NativePacket) × (e.packet_at w b ≡ some sent)
          × (Server.on_receive e now v s
              ≡ done tt (record s {
                world = e.host_broadcast h 0 b w;
                app = s.app ++ Server.chat_received id message ∷ [];
              }))
          × ((own later c_at : ℕ) (got : NativePacket) (u : ReceiveEvent) (c : ClientState e)
              → Arrives c_at u
              → e.packet_at c.world c_at ≡ some got
              → got.contents ≡ sent.contents
              → Client.on_receive e own later u c
                ≡ done tt (
                    if id == own
                    then c
                    else record c { app = c.app ++ Client.chat id message ∷ [] }))
  chat_delivered now idx a b h native message n v p w s big fits here alive same opened there on
        made =
      let id = (idx + 1) % 2 ^ 32 in
      let ((r, read), pinged) = requests_lem big idx 0 message (omega arith) fits in
      let (welcomed, (r', read'), ponged, came, went) =
        notices_lem big 0 id 0 0 message (omega arith) (omega arith) (omega arith) fits in
      let fresh = rw made at (
        laws.created (Builder.span (build_broadcast id message)) reliable s.world b
          (ap (λ r. r.0) made)) in
      (
        _,
        fresh,
        (on_receive_lem now a b h native n v p w s here alive opened there on).0 id message r
            (rw same read) made,
        λ own later c_at got u c here' alive' equal.
            shown_chat own later c_at id message got u r' c here' alive' (rw equal read'),
      )
