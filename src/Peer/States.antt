-- ===== src/Peer/States.antt =====
-- The four questions about the state of a peer.
use icelander.Prelude.{ℕ, ◌+◌, ◌≡◌, refl, Bool, true, false, done, ◌>>=◌}
use icelander.Types.{PeerState, disconnected, zombie}
use icelander.Enet.{Enet}
use icelander.Peer.{
  Peer, state, state_is_connected, state_is_connecting, state_is_disconnecting,
  state_is_disconnected, is_connected, is_connecting, is_disconnecting, is_disconnected,
}

abbrev pub flag : Bool → ℕ
flag true = 1
flag false = 0

abbrev pub known : PeerState → ℕ
known zombie = 0
known _ = 1

one_answer :
    (s : PeerState)
    → flag (state_is_connected s)
        + flag (state_is_connecting s)
        + flag (state_is_disconnecting s)
        + flag (state_is_disconnected s)
      ≡ known s
unfolding state_is_connected state_is_connecting state_is_disconnecting state_is_disconnected
one_answer disconnected = refl
one_answer zombie = refl
one_answer _ = refl

-- Exactly one of the four answers is yes, except for a zombie, for which all are no. A peer without
-- an ENet peer counts as disconnected.
pub answers_lem :
    (e : Enet) (p : Peer) (s : PeerState) (w : e.World)
    → state e p w ≡ done s w
    → (a b c d : Bool) × (is_connected e p w ≡ done a w)
      × (is_connecting e p w ≡ done b w)
      × (is_disconnecting e p w ≡ done c w)
      × (is_disconnected e p w ≡ done d w)
      × (flag a + flag b + flag c + flag d ≡ known s)
unfolding is_connected is_connecting is_disconnecting is_disconnected
answers_lem e p s w h = (
  state_is_connected s,
  state_is_connecting s,
  state_is_disconnecting s,
  state_is_disconnected s,
  rw (h, ◌>>=◌),
  rw (h, ◌>>=◌),
  rw (h, ◌>>=◌),
  rw (h, ◌>>=◌),
  one_answer s,
)
