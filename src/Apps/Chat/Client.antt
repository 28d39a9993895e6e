-- ===== src/Apps/Chat/Client.antt =====
-- The handlers of a client of examples/advanced/comprehensive_example.cpp.
use icelander.Prelude.{
  ℕ, ◌+◌, ◌-◌, ◌%◌, List, [], ◌∷◌, ◌++◌, ◌==◌, if◌then◌else◌, Exec, ◌>>=◌, pure, size_mod,
}
use icelander.Bytes.{Platform}
use icelander.Enet.{Enet}
use icelander.Dispatcher
use icelander.Dispatcher.{ConnectEvent, DisconnectEvent, ReceiveEvent, EventDispatcher, Handler}
use icelander.Host.Refs.{State}
use icelander.Apps.Handlers.{modify, reading, catching, open_reader}
use icelander.Apps.Chat.{Notice, welcome, chat_from, pong, joined, left, other, read_notice}

-- What a client prints, after its own number.
pub data Line : Type 0 where
  connected disconnected : Line
  assigned : ℕ → Line
  chat : ℕ → List ℕ → Line
  round_trip : ℕ → Line  -- nanoseconds; the code prints milliseconds
  client_joined client_left : Line
  processing_error : Line

module _ ⦃m : Platform⦄ (e : Enet) where
  abbrev pub ClientState : Type 0
  ClientState = State e (List Line)

  unfoldable pub print : Line → Exec ClientState (Unit {0})
  print l = modify (λ lines. lines ++ l ∷ [])

  unfoldable pub on_connect : Handler ClientState ConnectEvent
  on_connect v = print connected

  -- The branches of the receive handler. `now - sent_time` is unsigned.
  unfoldable pub show : ℕ → ℕ → Notice → Exec ClientState (Unit {0})
  show client_id now (welcome assigned_id) = print (assigned assigned_id)
  show client_id now (chat_from sender_id message) =
      if sender_id == client_id then pure tt else print (chat sender_id message)
  show client_id now (pong sent_time server_time) =
      print (round_trip ((now + size_mod - sent_time) % size_mod))
  show client_id now joined = print client_joined
  show client_id now left = print client_left
  show client_id now other = pure tt

  unfoldable pub on_receive : ℕ → ℕ → Handler ClientState ReceiveEvent
  on_receive client_id now v = do
    reader ← open_reader e v.packet_data
    catching (reading read_notice reader >>= show client_id now) (print processing_error)

  unfoldable pub on_disconnect : Handler ClientState DisconnectEvent
  on_disconnect v = print disconnected

  unfoldable pub dispatcher : ℕ → ℕ → EventDispatcher ClientState
  dispatcher client_id now = Dispatcher.on_disconnect on_disconnect (
      Dispatcher.on_receive (on_receive client_id now)
        (Dispatcher.on_connect on_connect Dispatcher.new))
