-- ===== src/Apps/Echo/Quit.antt =====
-- What the server of examples/networking/async_server.cpp makes of a line of its client.
use icelander.Prelude.{
  ℕ, ◌%◌, ◌^◌, ◌<◌, ◌≡◌, ◌≢◌, refl, ap, ◌∙◌, List, [], ◌∷◌, ◌++◌, Option, some, true, false, length,
  length-append, arith, Bool-cases, inl, inr, done, Exec, ◌>>=◌, get_elem?,
}
use icelander.Bytes.{Platform, repr, length-repr}
use icelander.Enet.{Enet, NativePacket, PacketLaws}
use icelander.Types.{PacketFlag}
use icelander.Builder
use icelander.Reader
use icelander.Packet
use icelander.Packet.{Packet}
use icelander.Peer.{Peer}
use icelander.Dispatcher.{ReceiveEvent}
use icelander.Host.Refs.{on_world}
use icelander.Host.Peers.{same_text}
use icelander.Apps.Handlers.Laws.{open_reader_live, send_to_peer}
use icelander.Apps.Echo.{
  EchoState, received, quit_text, echo_text, print, send_bytes, on_receive_server,
}

length-same_text : (xs ys : List ℕ) → same_text xs ys ≡ true → length xs ≡ length ys
unfolding same_text
length-same_text [] [] h = refl
length-same_text [] (y ∷ ys) h = absurd (cc (h))
length-same_text (x ∷ xs) [] h = absurd (cc (h))
length-same_text (x ∷ xs) (y ∷ ys) h = ground (arith, length-same_text xs ys)

length_nil : (xs : List ℕ) → length xs ≡ 0 → xs ≡ []
length_nil [] h = refl
length_nil (x ∷ xs) h = absurd (omega (arith, h))

not_quit : (bs : List ℕ) → length bs ≢ 4 → same_text bs quit_text ≡ false
not_quit bs h = elim (Bool-cases (same_text bs quit_text)) [
  | inl quits ↦ absurd (h (length-same_text bs quit_text quits))
  | inr goes ↦ goes
]

module _ ⦃m : Platform⦄ (e : Enet) (laws : PacketLaws e) where
  -- The bytes of a packet with one line.
  abbrev pub line_bytes : List ℕ → List ℕ
  line_bytes input = repr m.endian 4 (length input) ++ input

  span-line :
      (input : List ℕ)
      → length input < 2 ^ 32
      → Builder.span (Builder.write_string input Builder.new) ≡ line_bytes input
  unfolding Builder.span Builder.write_string Builder.write_uint32 Builder.write_text
      Builder.write_memory Builder.insert_end Builder.new
  span-line input small =
      let e' : length input % 2 ^ 32 ≡ length input = omega (arith, small) in rw e' refl

  create_made :
      (bytes : List ℕ) (b : ℕ) (w w' : e.World)
      → e.packet_create bytes (e.flag_value PacketFlag.reliable) w ≡ (some b, w')
      → Packet.create e bytes (e.flag_value PacketFlag.reliable) w
        ≡ done (record { native = some b }) w'
  unfolding Packet.create Packet.new
  create_made bytes b w w' made =
      rw (ap (λ r. r.0) made, Packet.new) (ap (λ r. done (record { native = some b }) r.1) made)

  on_world_done :
      {B : Type 0} (b : Exec e.World B) (x : B) (w : e.World) (s : EchoState e)
      → b s.world ≡ done x w
      → on_world b s ≡ done x (record s { world = w })
  unfolding on_world
  on_world_done b x w s h = rw (h, on_world) refl

  send_bytes_made :
      (i b native : ℕ) (bytes : List ℕ) (p : Peer) (w : e.World) (s : EchoState e)
      → get_elem? s.objects i ≡ some p
      → p.native_peer ≡ some native
      → e.packet_create bytes (e.flag_value PacketFlag.reliable) s.world ≡ (some b, w)
      → send_bytes e i bytes s ≡ done tt (record s { world = (e.peer_send native 0 b w).1 })
  unfolding send_bytes
  send_bytes_made i b native bytes p w s there on made =
      rw
        (
          on_world_done (Packet.create e bytes (e.flag_value PacketFlag.reliable))
              (record { native = some b }) w s (create_made bytes b s.world w made),
          ◌>>=◌,
        )
        (send_to_peer e laws i b native p (record s { world = w }) there on)

  -- Of the receive handler of the server, called on a live packet, from a peer object with an ENet
  -- peer, with a line that is not empty and shorter than 2 ^ 32 bytes as the client writes it,
  -- "quit" not excepted: it prints the line after the four bytes of its length, and sends those
  -- bytes back after "Echo: ", in the packet that ENet makes at `b`; it does not disconnect the
  -- peer. That the handler is reached is not said.
  pub line_echoed :
      (a b native : ℕ) (input : List ℕ) (n : NativePacket) (v : ReceiveEvent) (p : Peer)
      (w : e.World) (s : EchoState e)
      → input ≢ []
      → length input < 2 ^ 32
      → ◌≡◌ {A = Option Packet} v.packet_data (some (record { native = some a }))
      → e.packet_at s.world a ≡ some n
      → n.contents ≡ Builder.span (Builder.write_string input Builder.new)
      → get_elem? s.objects v.peer_handle ≡ some p
      → p.native_peer ≡ some native
      → e.packet_create (echo_text ++ line_bytes input) (e.flag_value PacketFlag.reliable) s.world
        ≡ (some b, w)
      → on_receive_server e v s
        ≡ done tt (record s {
          world = (e.peer_send native 0 b w).1;
          app = s.app ++ received (line_bytes input) ∷ [];
        })
  unfolding on_receive_server print Reader.as_string Reader.new
  line_echoed a b native input n v p w s some_there small here alive same there on made =
      let bytes = line_bytes input in
      let printed = record s { app = s.app ++ received bytes ∷ [] } in
      let longer : length bytes ≢ 4 = λ q. some_there (
        length_nil input (
          omega (
            arith,
            q,
            length-append (repr m.endian 4 (length input)) input,
            length-repr m.endian 4 (length input),
          ))) in
      rw (here, open_reader_live e laws a n s alive, ◌>>=◌)
        (rw (same ∙ span-line input small) (
          rw (not_quit bytes longer) (
            send_bytes_made v.peer_handle b native (echo_text ++ bytes) p w printed there on made)))
