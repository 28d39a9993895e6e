-- ===== src/Apps/Chat/Tasks/Bounds.antt =====
-- How much the tasks of the clients do, and that they stay inside their vectors.
use mathlib.Core.Option.{some-injective}
use native.Mathlib.Omega.{mod_fact}
use icelander.Prelude.{
  ℕ, zero, suc, ◌+◌, ◌%◌, ◌≤◌, ◌<◌, ◌≡◌, refl, inl, inr, List, [], ◌∷◌, Bool, ◌&&◌, ltb,
  if◌then◌else◌, length, get_elem?, some, All, arith, Bool-cases, Outcome, done, thrown, fault,
  Exec, ◌>>=◌, pure, Leaves, >>=-Leaves,
}
use icelander.Bytes.{Platform}
use icelander.Types.{PacketFlag}
use icelander.Enet.{Enet, PacketLaws}
use icelander.Builder
use icelander.Builder.{PacketBuilder}
use icelander.Packet
use icelander.Packet.Contents.{build_cases}
use icelander.Peer
use icelander.Peer.{Peer}
use icelander.Apps.Chat.{build_ping, build_chat}
use icelander.Apps.Chat.Broadcast.{IsKept, IsSlot}
use icelander.Apps.Chat.Broadcast.Loop.{asked}
use icelander.Apps.Chat.Tasks.{
  Round, sample_messages, say_if_connected, ping_round, ping_task, chat_round, chat_task,
}

in_vector : {A : Type 0} (xs : List A) (i : ℕ) → i < length xs → (x : A) × (get_elem? xs i ≡ some x)
in_vector [] i h = absurd (omega (arith, h))
in_vector (x ∷ xs) zero h = (x, refl)
in_vector (x ∷ xs) (suc i) h = in_vector xs i (omega (arith, h))

module _ ⦃m : Platform⦄ (e : Enet) (laws : PacketLaws e) (Good : e.World → Type 0)
    (kept : IsKept e Good) where
  -- Whatever the ENet peer of a Peer is, it is there in a good state.
  abbrev pub IsUsable : Peer → Type 0
  IsUsable p = (a : ℕ) → p.native_peer ≡ some a → IsSlot e Good a

  say_if_connected-Leaves :
      (p : Peer) (b : PacketBuilder) (w : e.World)
      → IsUsable p
      → Good w
      → Leaves Good (say_if_connected e p b w)
  unfolding say_if_connected Peer.send Peer.send_on Peer.native_send Packet.native_handle
  say_if_connected-Leaves p b w slot good = elim (asked e laws Good kept p w slot good) [
    | inl off ↦ rw (off, ◌>>=◌) good
    | inr (a, connected, on, answered) ↦
        rw (answered, ◌>>=◌)
          (elim (Bool-cases connected) [
            | inr waits ↦ rw waits good
            | inl talks ↦
                let flags = e.flag_value PacketFlag.reliable in
                let good' = kept.created (Builder.span b) flags w good in
                rw talks (elim (build_cases e laws b flags w) [
                  | inl failed ↦ rw (failed, ◌>>=◌) good'
                  | inr (k, n, made, alive) ↦
                      rw (made, ◌>>=◌)
                        (rw (on, Peer.send_on, ◌>>=◌)
                          (kept.sent a 0 k (e.packet_create (Builder.span b) flags w).1 good'))
                ])
          ])
  ]

  IsUsable-at :
      (ps : List Peer) (i : ℕ) (p : Peer) → All IsUsable ps → get_elem? ps i ≡ some p → IsUsable p
  IsUsable-at [] i p h q = absurd (cc (q))
  IsUsable-at (x ∷ xs) zero p h q = rw (← some-injective _ _ q) h.0
  IsUsable-at (x ∷ xs) (suc i) p h q = IsUsable-at xs i p h.1 q

  chat_round-Leaves :
      (ps : List Peer) (r : Round) (w : e.World)
      → All IsUsable ps
      → Good w
      → Leaves Good (chat_round e ps r w)
  unfolding chat_round
  chat_round-Leaves [] r w usable good = good
  chat_round-Leaves (q ∷ qs) r w usable good =
      let i = r.gen_client % length (q ∷ qs) in
      let (p, there) = in_vector (q ∷ qs) i (mod_fact r.gen_client (length qs)) in
      let (message, stored) = in_vector sample_messages (r.gen_message % 6) (omega arith) in
      rw (there, ◌>>=◌)
        (rw (stored, ◌>>=◌)
          (say_if_connected-Leaves p (build_chat i message) w
            (IsUsable-at (q ∷ qs) i p usable there) good))

  ping_round-Leaves :
      (ps : List Peer) (r : Round) (w : e.World)
      → All IsUsable ps
      → Good w
      → Leaves Good (ping_round e ps r w)
  unfolding ping_round
  ping_round-Leaves [] r w usable good = good
  ping_round-Leaves (q ∷ qs) r w usable good =
      let i = r.gen_client % length (q ∷ qs) in
      let (p, there) = in_vector (q ∷ qs) i (mod_fact r.gen_client (length qs)) in
      rw (there, ◌>>=◌)
        (>>=-Leaves (say_if_connected e p (build_ping r.now)) (λ _. pure tt) w Good Good
          (say_if_connected-Leaves p (build_ping r.now) w (IsUsable-at (q ∷ qs) i p usable there)
            good)
          (λ t g. g) (λ _ t g. g))

  -- The chats that a task has sent when it ends.
  abbrev pub Sends : Outcome e.World ℕ → (ℕ → Type 0) → Type 0
  Sends (done n w) P = P n × Good w
  Sends (thrown x w) P = Good w
  Sends fault P = ⊥

  Sends-mono :
      (o : Outcome e.World ℕ) (P Q : ℕ → Type 0) → Sends o P → ((n : ℕ) → P n → Q n) → Sends o Q
  Sends-mono (done n w) P Q h f = (f n h.0, h.1)
  Sends-mono (thrown x w) P Q h f = h
  Sends-mono fault P Q h f = h

  then_Sends :
      (b : Exec e.World Bool) (f : Bool → Exec e.World ℕ) (w : e.World) (P : ℕ → Type 0)
      → Leaves Good (b w)
      → ((x : Bool) (t : e.World) → Good t → Sends (f x t) P)
      → Sends ((b >>= f) w) P
  then_Sends b f w P h k = go (b w) h
    where
      go :
          (o : Outcome e.World Bool)
          → Leaves Good o
          → Sends
              (elim o as (λ _. Outcome e.World ℕ) [
                | done a w' ↦ f a w'
                | thrown x w' ↦ thrown x w'
                | fault ↦ fault
              ])
              P
      go (done a t) l = k a t l
      go (thrown x t) l = l
      go fault l = absurd l

  chat_task-Sends :
      (ps : List Peer) (rs : List Round) (n : ℕ) (w : e.World)
      → All IsUsable ps
      → Good w
      → n ≤ 12
      → Sends (chat_task e ps rs n w) (λ k. (n ≤ k) × (k ≤ 12) × (k ≤ n + length rs))
  unfolding chat_task
  chat_task-Sends ps [] n w usable good few = ((omega arith, few, omega arith), good)
  chat_task-Sends ps (r ∷ rs) n w usable good few =
      elim (Bool-cases (r.running && ltb n 12 && r.still_running)) [
        | inr over ↦ rw over ((omega arith, few, omega arith), good)
        | inl goes ↦ rw goes (
            then_Sends (chat_round e ps r) (λ x. chat_task e ps rs (if x then n + 1 else n)) w _
              (chat_round-Leaves ps r w usable good)
              λ x t good'.
                let lower : n < 12 = ground (arith, goes) in
                elim (Bool-cases x) [
                  | inl counted ↦ rw counted (
                      Sends-mono _ _ _
                        (chat_task-Sends ps rs (n + 1) t usable good' (omega (arith, lower)))
                        λ k (low, high, rounds). (omega (arith, low), high, omega (arith, rounds)))
                  | inr waited ↦ rw waited (
                      Sends-mono _ _ _ (chat_task-Sends ps rs n t usable good' few)
                        λ k (low, high, rounds). (low, high, omega (arith, rounds)))
                ])
      ]

  ping_task-Leaves :
      (ps : List Peer) (rs : List Round) (w : e.World)
      → All IsUsable ps
      → Good w
      → Leaves Good (ping_task e ps rs w)
  unfolding ping_task
  ping_task-Leaves ps [] w usable good = good
  ping_task-Leaves ps (r ∷ rs) w usable good = elim (Bool-cases (r.running && r.still_running)) [
    | inr over ↦ rw over good
    | inl goes ↦ rw goes (
        >>=-Leaves (ping_round e ps r) (λ _. ping_task e ps rs) w Good Good
          (ping_round-Leaves ps r w usable good) (λ t g. g)
          λ _ t g. ping_task-Leaves ps rs t usable g)
  ]

  -- Whatever `gen_`, the clock and `running_` give, neither task leaves its vectors or uses an ENet peer
  -- that is gone, if those of the clients are there in every good state; the ping task ends with its
  -- rounds, and a chat task that
  -- starts has sent at most 12 chats when it ends, and no more than it had rounds.
  pub tasks_bounded :
      (ps : List Peer) (rs : List Round) (w : e.World)
      → All IsUsable ps
      → Good w
      → Leaves Good (ping_task e ps rs w)
        × Sends (chat_task e ps rs 0 w) (λ k. (k ≤ 12) × (k ≤ length rs))
  tasks_bounded ps rs w usable good = (
    ping_task-Leaves ps rs w usable good,
    Sends-mono (chat_task e ps rs 0 w) _ _ (chat_task-Sends ps rs 0 w usable good (omega arith))
        (λ k (low, high, rounds). (high, omega (arith, rounds))),
  )
