-- ===== src/Apps/Chat/Silence/Greeting.antt =====
-- What the connect handler of the server does where the new peer is the only one alive.
use mathlib.Core.Option.{some-injective}
use icelander.Prelude.{
  ℕ, ◌≡◌, refl, sym, ◌∙◌, inl, inr, [], ◌∷◌, ◌++◌, some, ◌>>=◌, Leaves, Leaves-mono,
}
use icelander.Bytes.{Platform}
use icelander.Types.{PacketFlag}
use icelander.Enet.{Enet, PacketLaws}
use icelander.Builder
use icelander.Dispatcher.{ConnectEvent}
use icelander.Host.Peers.{count_live, peer_count}
use icelander.Host.Lookup.{live_of}
use icelander.Apps.Handlers.Laws.{build_reliable_cases, send_to_peer}
use icelander.Apps.Chat.{build_welcome, joined_text}
use icelander.Apps.Chat.Server.{ServerState, client_connected, on_connect, print}
use icelander.Apps.Chat.Broadcast.{IsSteady, IsSlot, IsBalanced}
use icelander.Apps.Chat.Broadcast.Balance.{broadcast_message_lem}
use icelander.Apps.Chat.Silence.{IsAlone, Greeted, live_of_last, count_last}

module _ ⦃m : Platform⦄ (e : Enet) (laws : PacketLaws e) (Good : e.World → Type 0)
    (steady : IsSteady e Good) where
  pub on_connect-Greeted :
      (native : ℕ) (v : ConnectEvent) (s : ServerState e)
      → Good s.world
      → IsSlot e Good native
      → IsAlone v.peer_handle native s
      → Leaves (Greeted Good s) (on_connect e v s)
  unfolding on_connect print peer_count
  on_connect-Greeted native v s good slot alone =
      let one : count_live s.strong s.peers ≡ 1 =
        rw alone.listed
          (count_last s.strong v.peer_handle alone.older alone.held alone.others alone.fresh) in
      let only : live_of s.strong s.peers ≡ v.peer_handle ∷ [] =
        rw alone.listed
          (live_of_last s.strong v.peer_handle alone.older alone.held alone.others alone.fresh) in
      let line = client_connected v.remote_endpoint 1 in
      let printed = record s { app = s.app ++ line ∷ [] } in
      let flags = e.flag_value PacketFlag.reliable in
      let w = (e.packet_create (Builder.span (build_welcome 1)) flags s.world).1 in
      let good' = steady.kept.created (Builder.span (build_welcome 1)) flags s.world good in
      rw one (elim (build_reliable_cases e laws (build_welcome 1) printed) [
        | inl failed ↦
            rw (failed, ◌>>=◌)
              (record {
                same_strong = refl;
                same_objects = refl;
                lines = line ∷ [];
                printed = refl;
                lonely = ((v.remote_endpoint, refl), tt);
                walked = inl refl;
                still_good = good';
              })
        | inr (a, n, made, alive) ↦
            let sent = record printed { world = (e.peer_send native 0 a w).1 } in
            rw (made, ◌>>=◌)
              (rw
                (
                  send_to_peer e laws v.peer_handle a native alone.p (record printed { world = w })
                      alone.there alone.on,
                  ◌>>=◌,
                )
                (Leaves-mono (IsBalanced Good sent) (Greeted Good s) _
                  (broadcast_message_lem e laws Good steady joined_text (some v.peer_handle) sent
                    (steady.kept.sent native 0 a w good')
                    (λ j q. rw (← some-injective _ _ q) alone.held)
                    (rw only (
                      (
                        alone.p,
                        alone.there,
                        λ b q. rw (← some-injective _ _ (sym alone.on ∙ q)) slot,
                      ),
                      tt,
                    )))
                  λ t h. record {
                    same_strong = h.same_strong;
                    same_objects = h.same_objects;
                    lines = line ∷ [];
                    printed = h.same_app;
                    lonely = ((v.remote_endpoint, refl), tt);
                    walked = h.walked;
                    still_good = h.still_good;
                  }))
      ])
