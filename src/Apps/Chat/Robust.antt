-- ===== src/Apps/Chat/Robust.antt =====
-- Whatever bytes a client sends, the server's receive handler returns.
use icelander.Prelude.{
  ℕ, ◌^◌, ◌<◌, ◌≡◌, refl, inl, inr, [], ◌∷◌, ◌++◌, some, Bool-cases, length, arith, Outcome, done,
  thrown, fault, Exec, ◌>>=◌, pure, Leaves, Leaves-mono, >>=-Leaves, get_elem?,
}
use icelander.Bytes.{Platform}
use icelander.Enet.{Enet, NativePacket, PacketLaws}
use icelander.Reader
use icelander.Reader.{PacketReader, read_uint32, read_uint64, read_string}
use icelander.Reader.Bounds.{IsReader, Keeps, read_memory-Keeps, read_string-Keeps, new-IsReader}
use icelander.Peer.{Peer}
use icelander.Dispatcher.{ReceiveEvent}
use icelander.Host.Peers.{same_text}
use icelander.Host.Unchanged.{Unchanged, Unchanged-refl, Unchanged-trans}
use icelander.Apps.Handlers.{reading, catching}
use icelander.Apps.Handlers.Laws.{open_reader_live, build_reliable_cases, send_to_done}
use icelander.Apps.Chat.Server
use icelander.Apps.Chat.Server.{ServerState, answer, print, chat_received, processing_error}
use icelander.Apps.Chat.Answers.{Arrives, broadcast_open}
use icelander.Apps.Chat.{
  Request, chat, ping, unknown, build_broadcast, build_pong, chat_text, ping_text, read_text,
  read_request,
}

then_IsReader :
    {A B : Type 0} (m : Exec PacketReader A) (f : A → Exec PacketReader B) (r : PacketReader)
    → Leaves IsReader (m r)
    → ((a : A) (t : PacketReader) → IsReader t → Leaves IsReader (f a t))
    → Leaves IsReader ((m >>= f) r)
then_IsReader m f r h k = >>=-Leaves m f r IsReader IsReader h (λ t v. v) k

module _ ⦃m : Platform⦄ (limit : m.string_max < 2 ^ 63) where
  read_uint32-IsReader : (r : PacketReader) → IsReader r → Leaves IsReader (read_uint32 r)
  unfolding read_uint32
  read_uint32-IsReader r v = ground (arith, read_memory-Keeps 4 r)

  read_uint64-IsReader : (r : PacketReader) → IsReader r → Leaves IsReader (read_uint64 r)
  unfolding read_uint64
  read_uint64-IsReader r v = ground (arith, read_memory-Keeps 8 r)

  read_text-IsReader : (r : PacketReader) → IsReader r → Leaves IsReader (read_text r)
  unfolding read_text
  read_text-IsReader r v =
      then_IsReader read_uint32 read_string r (read_uint32-IsReader r v)
        λ n t k. Leaves-mono (Keeps t) IsReader _ (read_string-Keeps limit n t k) (λ u l. l.valid)

  read_chat : Exec PacketReader Request
  read_chat = do client_id ← read_uint32; message ← read_text; pure (chat client_id message)

  read_chat-IsReader : (r : PacketReader) → IsReader r → Leaves IsReader (read_chat r)
  unfolding read_chat
  read_chat-IsReader r v =
      then_IsReader read_uint32 _ r (read_uint32-IsReader r v)
        λ client_id t k. then_IsReader read_text _ t (read_text-IsReader t k) (λ message u l. l)

  -- The branches of `read_request`, with an equation for each test.
  read_request-IsReader : (r : PacketReader) → IsReader r → Leaves IsReader (read_request r)
  unfolding read_request
  read_request-IsReader r v = then_IsReader read_text _ r (read_text-IsReader r v) λ msg_type t k.
      elim (Bool-cases (same_text msg_type chat_text)) [
        | inl is_chat ↦ rw is_chat (unfold read_chat in read_chat-IsReader t k)
        | inr not_chat ↦ rw not_chat (elim (Bool-cases (same_text msg_type ping_text)) [
          | inl is_ping ↦
              rw is_ping
                (then_IsReader read_uint64 _ t (read_uint64-IsReader t k) (λ timestamp u l. l))
          | inr not_ping ↦ rw not_ping k
        ])
      ]

module _ ⦃m : Platform⦄ (e : Enet) (laws : PacketLaws e) where
  answer-Unchanged :
      (now i h : ℕ) (req : Request) (p : Peer) (s : ServerState e)
      → s.native_host ≡ some h
      → get_elem? s.objects i ≡ some p
      → Leaves (Unchanged s) (answer e now i req s)
  unfolding answer print
  answer-Unchanged now i h (chat client_id message) p s opened there =
      let printed = record s { app = s.app ++ chat_received client_id message ∷ [] } in
      elim (build_reliable_cases e laws (build_broadcast client_id message) printed) [
        | inl failed ↦
            rw (failed, ◌>>=◌, answer)
              (record { same_peers = refl; same_objects = refl; same_strong = refl })
        | inr (a, n, made, alive) ↦
            rw (made, ◌>>=◌, answer)
              (rw (broadcast_open e laws h a (record printed { world = _ }) opened)
                (record { same_peers = refl; same_objects = refl; same_strong = refl }))
      ]
  answer-Unchanged now i h (ping timestamp) p s opened there =
      elim (build_reliable_cases e laws (build_pong timestamp now) s) [
        | inl failed ↦
            rw (failed, ◌>>=◌, answer)
              (record { same_peers = refl; same_objects = refl; same_strong = refl })
        | inr (a, n, made, alive) ↦
            rw (made, ◌>>=◌, answer)
              (rw ((send_to_done e laws i a n p (record s { world = _ }) there alive).1)
                (record { same_peers = refl; same_objects = refl; same_strong = refl }))
      ]
  answer-Unchanged now i h unknown p s opened there = Unchanged-refl s

  Returns : ServerState e → Outcome (ServerState e) (Unit {0}) → Type 0
  Returns s o = (t : ServerState e) × (o ≡ done tt t) × Unchanged s t

  printed_error : (s t : ServerState e) → Unchanged s t → Returns s (print e processing_error t)
  unfolding print Returns
  printed_error s t k = (
    _,
    refl,
    Unchanged-trans k (record { same_peers = refl; same_objects = refl; same_strong = refl }),
  )

  catching-Returns :
      (b c : Exec (ServerState e) (Unit {0})) (s : ServerState e)
      → Leaves (Unchanged s) (b s)
      → ((t : ServerState e) → Unchanged s t → Returns s (c t))
      → Returns s (catching b c s)
  unfolding Returns
  catching-Returns b c s h k = go (b s) h
    where
      go :
          (o : Outcome (ServerState e) (Unit {0}))
          → Leaves (Unchanged s) o
          → Returns s (elim o as (λ _. Outcome (ServerState e) (Unit {0})) [
            | done _ t ↦ done tt t
            | thrown _ t ↦ c t
            | fault ↦ fault
          ])
      go (done _ t) l = (t, refl, l)
      go (thrown _ t) l = k t l
      go fault l = absurd l

  reading-answer :
      (now i h : ℕ) (r : PacketReader) (p : Peer) (s : ServerState e)
      → Leaves IsReader (read_request r)
      → s.native_host ≡ some h
      → get_elem? s.objects i ≡ some p
      → Leaves (Unchanged s) ((reading read_request r >>= answer e now i) s)
  reading-answer now i h r p s safe opened there = go (read_request r) safe
    where
      go :
          (o : Outcome PacketReader Request)
          → Leaves IsReader o
          → Leaves (Unchanged s) (
              ((λ (u : ServerState e). elim o as (λ _. Outcome (ServerState e) Request) [
                | done b _ ↦ done b u
                | thrown x _ ↦ thrown x u
                | fault ↦ fault
              ])
                  >>= answer e now i)
                s)
      go (done req _) l = answer-Unchanged now i h req p s opened there
      go (thrown _ _) l = Unchanged-refl s
      go fault l = absurd l

  -- Whatever bytes the packet of a client has, if they are fewer than 2 ^ 63 as any object's are, the
  -- receive handler of an open server returns, and leaves its peers and their references as they were.
  pub on_receive_returns :
      (limit : m.string_max < 2 ^ 63) (now a h : ℕ) (n : NativePacket) (v : ReceiveEvent) (p : Peer)
      (s : ServerState e)
      → Arrives e laws a v
      → e.packet_at s.world a ≡ some n
      → length n.contents < 2 ^ 63
      → s.native_host ≡ some h
      → get_elem? s.objects v.peer_handle ≡ some p
      → (t : ServerState e) × (Server.on_receive e now v s ≡ done tt t) × Unchanged s t
  unfolding Server.on_receive Returns
  on_receive_returns limit now a h n v p s here alive small opened there =
      rw (here, open_reader_live e laws a n s alive, ◌>>=◌, Server.on_receive)
        (catching-Returns
          (reading read_request (Reader.new n.contents) >>= answer e now v.peer_handle)
          (print e processing_error) s
          (reading-answer now v.peer_handle h (Reader.new n.contents) p s
            (read_request-IsReader limit (Reader.new n.contents) (new-IsReader n.contents small))
            opened there)
          (printed_error s))
