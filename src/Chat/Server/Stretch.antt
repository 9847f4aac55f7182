-- ===== src/Chat/Server/Stretch.antt =====
-- Which messages a connection gets: those from its registration on, until its channel is closed.
use mathlib.Core.List.{append_assoc}
use bimpc.Common.{
  ℕ, ◌≡◌, refl, sym, ap, ◌∙◌, Option, none, some, Bool, true, false, List, [], ◌∷◌, ◌++◌, length,
  ltb-true, ltb-false, ◌⊎◌, inl, inr,
}
use bimpc.Action.{GoError}
use bimpc.Chat.{Incoming}
use bimpc.Chat.Server.{
  Item, outgoing, other, Channel, capacity, Topic, TopicLaws, Handler, upgrading, registering,
  greeting, spawning, serving, unregistering, returned, Pump, absent, receiving, sending, kicking,
  leaving, ended, panicked, Invocation, invocation, Connection, new_connection, broadcast_of, serve,
  receive, pump_turn, message, Turn, serves, pumps, says, take_turn,
}
use bimpc.Chat.Server.Invariant.{broadcast_cases, unregister_cases}
use bimpc.Chat.Server.Line.{accepted_by, accepted}
use bimpc.Chat.Server.Order.{pump_turn-handler}

-- All messages that are broadcast.
abbrev pub said_by : Turn → List Invocation
said_by (serves now e) = []
said_by pumps = []
said_by (says now msg) = invocation (broadcast_of now msg) ∷ []

abbrev pub said : List Turn → List Invocation
said [] = []
said (x ∷ xs) = said_by x ++ said xs

-- serve has called Register, or has given up before.
abbrev is_through : Handler → Bool
is_through upgrading = false
is_through registering = false
is_through greeting = true
is_through spawning = true
is_through serving = true
is_through unregistering = true
is_through returned = true

module _ {T : Type 0} (p : Topic T) (laws : TopicLaws p) where
  open laws use {has}

  abbrev IsEarly : Connection T → Type 0
  IsEarly c = (is_through c.handler ≡ false) × (has c.topic ≡ false)

  abbrev IsLive : Connection T → Type 0
  IsLive c = (is_through c.handler ≡ true) × (has c.topic ≡ true)

  abbrev IsOver : Connection T → Type 0
  IsOver c = (is_through c.handler ≡ true) × (has c.topic ≡ false)

  -- A turn in which the topic does not let go of a channel that it does not have.
  unregister-has : (t : T) (ch : Channel) → has (p.unregister t ch).0 ≡ false
  unregister-has t ch =
      unregister_cases p laws (λ t' ch'. has t' ≡ false) t ch (λ t' e e'. e') (λ t' e e'. e')

  serve-IsOver :
      (now : ℕ) (e : Option GoError) (h : Handler) (c : Connection T)
      → c.handler ≡ h
      → IsOver c
      → IsOver (serve p now e h c)
  unfolding serve
  serve-IsOver now e upgrading c at o = absurd (cc (o.0, ap is_through at))
  serve-IsOver now e registering c at o = absurd (cc (o.0, ap is_through at))
  serve-IsOver now e greeting c at o = (refl, o.1)
  serve-IsOver now e spawning c at o = (refl, o.1)
  serve-IsOver now e serving c at o = (refl, o.1)
  serve-IsOver now e unregistering c at o = (refl, unregister-has c.topic c.messages)
  serve-IsOver now e returned c at o = o

  -- What the pump does to the registration: nothing, or it unregisters.
  receive-topic :
      (xs : List Item) (o : Bool) (c : Connection T) → (receive p xs o c).topic ≡ c.topic
  unfolding receive
  receive-topic (outgoing m ∷ xs) o c = refl
  receive-topic (other ∷ xs) o c = refl
  receive-topic [] true c = refl
  receive-topic [] false c = refl

  pump-has :
      (q : Pump) (c : Connection T)
      → (has (pump_turn p q c).topic ≡ has c.topic) ⊎ (has (pump_turn p q c).topic ≡ false)
  unfolding pump_turn
  pump-has absent c = inl refl
  pump-has receiving c = inl (ap has (receive-topic c.messages.queue c.messages.is_open c))
  pump-has (sending m) c = inl refl
  pump-has kicking c = inl refl
  pump-has leaving c = inr (unregister-has c.topic c.messages)
  pump-has ended c = inl refl
  pump-has panicked c = inl refl

  through_pump :
      (q : Pump) (c : Connection T) → is_through (pump_turn p q c).handler ≡ is_through c.handler
  through_pump q c = ap is_through (pump_turn-handler p laws q c)

  says-over :
      (now : ℕ) (msg : Incoming) (c : Connection T)
      → has c.topic ≡ false
      → has (take_turn p (says now msg) c).topic ≡ false
  unfolding take_turn message
  says-over now msg c e =
      broadcast_cases p laws (λ t ch. has t ≡ false) (outgoing (broadcast_of now msg)) c.topic
        c.messages (λ t e' less e''. absurd (cc (e, e'))) (λ t e' more e''. e'') (λ t e' e''. e'')

  take_turn-IsOver : (x : Turn) (c : Connection T) → IsOver c → IsOver (take_turn p x c)
  unfolding take_turn
  take_turn-IsOver (serves now e) c o = serve-IsOver now e c.handler c refl o
  take_turn-IsOver pumps c o =
      (through_pump c.pump c ∙ o.0, elim (pump-has c.pump c) [ inl e ↦ e ∙ o.1 | inr e ↦ e ])
  take_turn-IsOver (says now msg) c o = (o.0, says-over now msg c o.1)

  accepted_by-none : (x : Turn) (c : Connection T) → has c.topic ≡ false → accepted_by has x c ≡ []
  accepted_by-none (serves now e) c h = refl
  accepted_by-none pumps c h = refl
  accepted_by-none (says now msg) c h = rw h refl

  accepted-IsOver : (xs : List Turn) (c : Connection T) → IsOver c → accepted p has xs c ≡ []
  accepted-IsOver [] c o = refl
  accepted-IsOver (x ∷ xs) c o =
      rw (accepted_by-none x c o.1) (accepted-IsOver xs (take_turn p x c) (take_turn-IsOver x c o))

  -- A turn while the topic has the channel: it keeps it, and takes what is said, or it lets go of it.
  abbrev IsOn : Turn → Connection T → Type 0
  IsOn x c =
      (IsLive (take_turn p x c) × (accepted_by has x c ≡ said_by x))
      ⊎ (IsOver (take_turn p x c) × (accepted_by has x c ≡ []))

  serve-IsLive :
      (now : ℕ) (e : Option GoError) (h : Handler) (c : Connection T)
      → c.handler ≡ h
      → IsLive c
      → IsLive (serve p now e h c) ⊎ IsOver (serve p now e h c)
  unfolding serve
  serve-IsLive now e upgrading c at l = absurd (cc (l.0, ap is_through at))
  serve-IsLive now e registering c at l = absurd (cc (l.0, ap is_through at))
  serve-IsLive now e greeting c at l = inl (refl, l.1)
  serve-IsLive now e spawning c at l = inl (refl, l.1)
  serve-IsLive now e serving c at l = inl (refl, l.1)
  serve-IsLive now e unregistering c at l = inr (refl, unregister-has c.topic c.messages)
  serve-IsLive now e returned c at l = inl l

  take_turn-IsLive : (x : Turn) (c : Connection T) → IsLive c → IsOn x c
  unfolding take_turn message
  take_turn-IsLive (serves now e) c l = elim (serve-IsLive now e c.handler c refl l) [
    | inl live ↦ inl (live, refl)
    | inr over ↦ inr (over, refl)
  ]
  take_turn-IsLive pumps c l = elim (pump-has c.pump c) [
    | inl e ↦ inl (((through_pump c.pump c ∙ l.0), (e ∙ l.1)), refl)
    | inr e ↦ inr (((through_pump c.pump c ∙ l.0), e), refl)
  ]
  take_turn-IsLive (says now msg) c l =
      broadcast_cases p laws
        (λ t ch.
          (((is_through c.handler ≡ true) × (has t ≡ true))
            × (accepted_by has (says now msg) c ≡ said_by (says now msg)))
          ⊎ (((is_through c.handler ≡ true) × (has t ≡ false))
              × (accepted_by has (says now msg) c ≡ [])))
        (outgoing (broadcast_of now msg)) c.topic c.messages
        (λ t e less e'.
          inl ((l.0, e'), rw (e, ltb-true (length c.messages.queue) capacity less) refl))
        (λ t e more e'.
          inr ((l.0, e'), rw (e, ltb-false (length c.messages.queue) capacity more) refl))
        (λ t e e'. absurd (cc (e, l.1)))

  -- From now on it gets what is said, until it is let go of.
  accepted-IsLive :
      (xs : List Turn) (c : Connection T)
      → IsLive c
      → (after : List Invocation) × (said xs ≡ accepted p has xs c ++ after)
  accepted-IsLive [] c l = ([], refl)
  accepted-IsLive (x ∷ xs) c l = elim (take_turn-IsLive x c l) [
    | inl (live, e) ↦
        let (after, q) = accepted-IsLive xs (take_turn p x c) live in
        (
          after,
          rw e (
              ap (λ t. said_by x ++ t) q
              ∙ sym (append_assoc (said_by x) (accepted p has xs (take_turn p x c)) after)),
        )
    | inr (over, e) ↦ (said (x ∷ xs), rw (e, accepted-IsOver xs (take_turn p x c) over) refl)
  ]

  serve-IsEarly :
      (now : ℕ) (e : Option GoError) (h : Handler) (c : Connection T)
      → c.handler ≡ h
      → IsEarly c
      → IsEarly (serve p now e h c) ⊎ IsLive (serve p now e h c) ⊎ IsOver (serve p now e h c)
  unfolding serve
  serve-IsEarly now (some e) upgrading c at y = inr (inr (refl, y.1))
  serve-IsEarly now none upgrading c at y = inl (refl, y.1)
  serve-IsEarly now e registering c at y = inr (inl (refl, laws.register_has c.topic))
  serve-IsEarly now e greeting c at y = absurd (cc (y.0, ap is_through at))
  serve-IsEarly now e spawning c at y = absurd (cc (y.0, ap is_through at))
  serve-IsEarly now e serving c at y = absurd (cc (y.0, ap is_through at))
  serve-IsEarly now e unregistering c at y = absurd (cc (y.0, ap is_through at))
  serve-IsEarly now e returned c at y = absurd (cc (y.0, ap is_through at))

  take_turn-IsEarly :
      (x : Turn) (c : Connection T)
      → IsEarly c
      → IsEarly (take_turn p x c) ⊎ IsLive (take_turn p x c) ⊎ IsOver (take_turn p x c)
  unfolding take_turn
  take_turn-IsEarly (serves now e) c y = serve-IsEarly now e c.handler c refl y
  take_turn-IsEarly pumps c y =
      inl (through_pump c.pump c ∙ y.0, elim (pump-has c.pump c) [ inl e ↦ e ∙ y.1 | inr e ↦ e ])
  take_turn-IsEarly (says now msg) c y = inl (y.0, says-over now msg c y.1)

  accepted-IsEarly :
      (xs : List Turn) (c : Connection T)
      → IsEarly c
      → (before : List Invocation) × (after : List Invocation) × (said xs
          ≡ before ++ (accepted p has xs c ++ after))
  accepted-IsEarly [] c y = ([], [], refl)
  accepted-IsEarly (x ∷ xs) c y =
      let c' = take_turn p x c in
      elim (take_turn-IsEarly x c y) [
        | inl early ↦
            let (before, after, q) = accepted-IsEarly xs c' early in
            (
              said_by x ++ before,
              after,
              rw (accepted_by-none x c y.1) (
                  ap (λ t. said_by x ++ t) q
                  ∙ sym (append_assoc (said_by x) before (accepted p has xs c' ++ after))),
            )
        | inr (inl live) ↦
            let (after, q) = accepted-IsLive xs c' live in
            (said_by x, after, rw (accepted_by-none x c y.1) (ap (λ t. said_by x ++ t) q))
        | inr (inr over) ↦
            ([], said (x ∷ xs), rw (accepted_by-none x c y.1, accepted-IsOver xs c' over) refl)
      ]

  -- The messages that a new connection gets are one uninterrupted stretch of all that is said.
  pub accepted-stretch :
      (xs : List Turn) (t : T)
      → has t ≡ false
      → (before : List Invocation) × (after : List Invocation) × (said xs
          ≡ before ++ (accepted p has xs (new_connection t) ++ after))
  accepted-stretch xs t e = accepted-IsEarly xs (new_connection t) (refl, e)
