-- ===== src/Dispatcher/Order.antt =====
-- Which handlers an event reaches, and in which order.
use icelander.Prelude.{
  ℕ, ◌≡◌, refl, sym, ap, ◌∙◌, fun_ext, List, [], ◌∷◌, ◌++◌, Option, none, some, ◌==◌, if◌then◌else◌,
  ◌>>◌, pure, arith, Bool-cases, inl, inr, >>_assoc, true, false,
}
use mathlib.Core.List.{append-nil}
use icelander.Dispatcher.{
  ConnectEvent, DisconnectEvent, ReceiveEvent, Handler, EventDispatcher, find, push_to, call_all,
  new, on_connect, on_disconnect, on_receive, on_receive_channel, clear_handlers, dispatch_connect,
  dispatch_disconnect, dispatch_receive,
}

-- The calls that change a dispatcher.
pub data Call (S : Type 0) : Type 0 where
  connects : Handler S ConnectEvent → Call S
  disconnects : Handler S DisconnectEvent → Call S
  receives : Handler S ReceiveEvent → Call S
  receives_on : ℕ → Handler S ReceiveEvent → Call S
  clears : Call S

module _ {S : Type 0} where
  pub perform : Call S → EventDispatcher S → EventDispatcher S
  perform (connects h) d = on_connect h d
  perform (disconnects h) d = on_disconnect h d
  perform (receives h) d = on_receive h d
  perform (receives_on c h) d = on_receive_channel c h d
  perform clears d = clear_handlers d

  -- A history, its latest call first.
  pub built : List (Call S) → EventDispatcher S
  unfolding perform
  built [] = new
  built (c ∷ cs) = perform c (built cs)

  -- What a history has registered since it last cleared, in the order of the calls.
  abbrev pub connect_list : List (Call S) → List (Handler S ConnectEvent)
  connect_list [] = []
  connect_list (connects h ∷ cs) = connect_list cs ++ h ∷ []
  connect_list (clears ∷ cs) = []
  connect_list (_ ∷ cs) = connect_list cs

  abbrev pub disconnect_list : List (Call S) → List (Handler S DisconnectEvent)
  disconnect_list [] = []
  disconnect_list (disconnects h ∷ cs) = disconnect_list cs ++ h ∷ []
  disconnect_list (clears ∷ cs) = []
  disconnect_list (_ ∷ cs) = disconnect_list cs

  abbrev pub general_list : List (Call S) → List (Handler S ReceiveEvent)
  general_list [] = []
  general_list (receives h ∷ cs) = general_list cs ++ h ∷ []
  general_list (clears ∷ cs) = []
  general_list (_ ∷ cs) = general_list cs

  abbrev pub channel_list : ℕ → List (Call S) → List (Handler S ReceiveEvent)
  channel_list c [] = []
  channel_list c (receives_on k h ∷ cs) = channel_list c cs ++ (if k == c then h ∷ [] else [])
  channel_list c (clears ∷ cs) = []
  channel_list c (_ ∷ cs) = channel_list c cs

  connect_handlers-built : (cs : List (Call S)) → (built cs).connect_handlers ≡ connect_list cs
  unfolding built on_connect on_disconnect on_receive on_receive_channel clear_handlers new
  connect_handlers-built [] = refl
  connect_handlers-built (connects h ∷ cs) = rw (connect_handlers-built cs)
  connect_handlers-built (disconnects h ∷ cs) = connect_handlers-built cs
  connect_handlers-built (receives h ∷ cs) = connect_handlers-built cs
  connect_handlers-built (receives_on c h ∷ cs) = connect_handlers-built cs
  connect_handlers-built (clears ∷ cs) = refl

  disconnect_handlers-built :
      (cs : List (Call S)) → (built cs).disconnect_handlers ≡ disconnect_list cs
  unfolding built on_connect on_disconnect on_receive on_receive_channel clear_handlers new
  disconnect_handlers-built [] = refl
  disconnect_handlers-built (connects h ∷ cs) = disconnect_handlers-built cs
  disconnect_handlers-built (disconnects h ∷ cs) = rw (disconnect_handlers-built cs)
  disconnect_handlers-built (receives h ∷ cs) = disconnect_handlers-built cs
  disconnect_handlers-built (receives_on c h ∷ cs) = disconnect_handlers-built cs
  disconnect_handlers-built (clears ∷ cs) = refl

  receive_handlers-built : (cs : List (Call S)) → (built cs).receive_handlers ≡ general_list cs
  unfolding built on_connect on_disconnect on_receive on_receive_channel clear_handlers new
  receive_handlers-built [] = refl
  receive_handlers-built (connects h ∷ cs) = receive_handlers-built cs
  receive_handlers-built (disconnects h ∷ cs) = receive_handlers-built cs
  receive_handlers-built (receives h ∷ cs) = rw (receive_handlers-built cs)
  receive_handlers-built (receives_on c h ∷ cs) = receive_handlers-built cs
  receive_handlers-built (clears ∷ cs) = refl

-- A missing channel is as good as one without handlers.
abbrev found : {H : Type 0} → Option (List H) → List H
found none = []
found (some hs) = hs

found-push_to :
    {H : Type 0} (c k : ℕ) (h : H) (m : List (ℕ × List H))
    → found (find c (push_to k h m)) ≡ found (find c m) ++ (if k == c then h ∷ [] else [])
unfolding find push_to
found-push_to c k h [] = ground arith
found-push_to c k h ((j, hs) ∷ m) = elim (Bool-cases (j == k)) [
  | inl here ↦ elim (Bool-cases (k == c)) [
    | inl mine ↦ let jc : (j == c) ≡ true = ground arith in rw here (rw (jc, mine))
    | inr other ↦
        let jc : (j == c) ≡ false = ground arith in
        rw here (rw (jc, other) (sym (append-nil (found (find c m)))))
  ]
  | inr there ↦ elim (Bool-cases (j == c)) [
    | inl mine ↦
        let kc : (k == c) ≡ false = ground arith in rw there (rw (mine, kc) (sym (append-nil hs)))
    | inr other ↦ rw there (rw other (found-push_to c k h m))
  ]
]

module _ {S : Type 0} where
  channel_handlers-built :
      (c : ℕ) (cs : List (Call S)) → found (find c (built cs).channel_handlers) ≡ channel_list c cs
  unfolding built on_connect on_disconnect on_receive on_receive_channel clear_handlers new find
  channel_handlers-built c [] = refl
  channel_handlers-built c (connects h ∷ cs) = channel_handlers-built c cs
  channel_handlers-built c (disconnects h ∷ cs) = channel_handlers-built c cs
  channel_handlers-built c (receives h ∷ cs) = channel_handlers-built c cs
  channel_handlers-built c (receives_on k h ∷ cs) =
      found-push_to c k h (built cs).channel_handlers
      ∙ ap (λ l. l ++ (if k == c then h ∷ [] else [])) (channel_handlers-built c cs)
  channel_handlers-built c (clears ∷ cs) = refl

  call_all-append :
      {E : Type 0} (xs ys : List (Handler S E)) (v : E) (s : S)
      → call_all (xs ++ ys) v s ≡ (call_all xs v >> call_all ys v) s
  unfolding call_all
  call_all-append [] ys v s = refl
  call_all-append (x ∷ xs) ys v s =
      let e : call_all (xs ++ ys) v ≡ (call_all xs v >> call_all ys v) =
        fun_ext (call_all-append xs ys v) in
      ap (λ k. (x v >> k) s) e ∙ >>_assoc (x v) (call_all xs v) (call_all ys v) s

  found-call_all :
      (v : ReceiveEvent) (o : Option (List (Handler S ReceiveEvent)))
      → elim o [ none ↦ pure {W = S} tt | some hs ↦ call_all hs v ] ≡ call_all (found o) v
  unfolding call_all
  found-call_all v none = refl
  found-call_all v (some hs) = refl

  -- A received packet reaches the handlers registered for every channel and then those of its
  -- own channel, each in the order of registration, since the handlers were last cleared;
  -- connections and disconnections reach theirs in the same way.
  pub dispatch-built :
      (cs : List (Call S)) (s : S)
      → ((v : ConnectEvent) → dispatch_connect (built cs) v s ≡ call_all (connect_list cs) v s)
        × ((v : DisconnectEvent)
            → dispatch_disconnect (built cs) v s ≡ call_all (disconnect_list cs) v s)
        × ((v : ReceiveEvent)
            → dispatch_receive (built cs) v s
              ≡ call_all (general_list cs ++ channel_list v.channel cs) v s)
  unfolding dispatch_connect dispatch_disconnect dispatch_receive
  dispatch-built cs s = (
    λ v. ap (λ hs. call_all hs v s) (connect_handlers-built cs),
    λ v. ap (λ hs. call_all hs v s) (disconnect_handlers-built cs),
    λ v.
        ap (λ k. (call_all (built cs).receive_handlers v >> k) s)
          (found-call_all v (find v.channel (built cs).channel_handlers))
        ∙ rw (receive_handlers-built cs, channel_handlers-built v.channel cs)
            (sym (call_all-append (general_list cs) (channel_list v.channel cs) v s)),
  )
