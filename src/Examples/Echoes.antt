-- ===== src/Examples/Echoes.antt =====
-- The echo server and its client of the examples on the sample ENet.
use icelander.Prelude.{◌≡◌, refl, List, [], ◌∷◌, ◌++◌, none, some, true, done, arith}
use icelander.Enet.{NativePacket}
use icelander.Enet.Sample.{World, sample, sample_laws}
use icelander.Builder
use icelander.Peer.{Peer}
use icelander.Dispatcher.{ReceiveEvent}
use icelander.Host.Refs.{State}
use icelander.Host.Peers.{same_text}
use icelander.Apps.Echo.{Line, received, quit_text, echo_text, talk, on_receive_server}
use icelander.Apps.Echo.Lines.{say_all, talk-say_all}
use icelander.Apps.Echo.Quit.{line_bytes, line_echoed}
use icelander.Examples.Platforms.{little_machine}
use icelander.Examples.Hosts.{far}

abbrev quit_packet : NativePacket
quit_packet = record {
  reference_count = 0;
  flags = 1;
  contents = Builder.span (Builder.write_string ⦃m = little_machine⦄ quit_text Builder.new);
}

abbrev peer_object : Peer
peer_object = record { native_peer = some 0; host = some 0; user_data = none }

abbrev room : State sample (List Line)
room = record {
  world = record { heap = some quit_packet ∷ []; peers = far ∷ []; inbox = [] };
  native_host = some 0;
  is_server = true;
  peers = 0 ∷ [];
  objects = peer_object ∷ [];
  strong = λ i. 1;
  app = [];
}

abbrev delivery : ReceiveEvent
delivery = record { peer_handle = 0; packet_data = some (record { native = some 0 }); channel = 0 }

abbrev answered : World
answered =
    (sample.packet_create
      (echo_text ++ line_bytes ⦃m = little_machine⦄ sample sample_laws quit_text) 1 room.world).1

line_echoed_example :
    on_receive_server sample delivery room
    ≡ done tt (record room {
      world = answered;
      app = received (line_bytes ⦃m = little_machine⦄ sample sample_laws quit_text) ∷ [];
    })
line_echoed_example =
    line_echoed ⦃m = little_machine⦄ sample sample_laws 0 1 0 quit_text quit_packet delivery
      peer_object answered room (λ q. cc (q)) (omega arith) refl refl refl refl refl refl

-- An empty line, "a", "quit" and a line that is not sent
talk-say_all_example :
    talk sample ⦃m = little_machine⦄ 0 ([] ∷ (0x61 ∷ []) ∷ quit_text ∷ (0x62 ∷ []) ∷ []) room
    ≡ say_all ⦃m = little_machine⦄ sample 0 ((0x61 ∷ []) ∷ quit_text ∷ []) room
unfolding same_text
talk-say_all_example =
    talk-say_all ⦃m = little_machine⦄ sample 0 ([] ∷ (0x61 ∷ []) ∷ quit_text ∷ (0x62 ∷ []) ∷ [])
      room
