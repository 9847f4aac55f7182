-- ===== src/Chat/Server/Order.antt =====
-- What a connection hands to its endpoint: the greeting, then the messages in the order in which the
-- channel has taken them.
use mathlib.Core.List.{append_assoc, append-nil}
use bimpc.Common.{
  ℕ, ◌≡◌, refl, sym, ◌∙◌, Option, Bool, true, false, List, [], ◌∷◌, ◌++◌, arith, ◌⊎◌, inl, inr,
}
use bimpc.Action.{GoError}
use bimpc.Chat.Server.{
  Item, outgoing, other, Topic, TopicLaws, Handler, upgrading, registering, greeting, spawning,
  serving, unregistering, returned, Pump, absent, receiving, sending, kicking, leaving, ended,
  panicked, Connection, new_connection, serve, receive, pump_turn, Turn, serves, pumps, says,
  take_turn, take_turns,
}
use bimpc.Chat.Server.Stages.{IsConnection}
use bimpc.Chat.Server.Invariant.{take_turn-IsConnection}
use bimpc.Chat.Server.Line.{line, greets, greeted_by, greetings, accepted, line-take_turn}

module _ {T : Type 0} (p : Topic T) (laws : TopicLaws p) where
  open laws use {has}

  -- serve does not go back.
  abbrev is_past : Handler → Bool
  is_past upgrading = false
  is_past registering = false
  is_past greeting = false
  is_past spawning = true
  is_past serving = true
  is_past unregistering = true
  is_past returned = true

  serve-past :
      (now : ℕ) (e : Option GoError) (h : Handler) (c : Connection T)
      → c.handler ≡ h
      → is_past h ≡ true
      → is_past (serve p now e h c).handler ≡ true
  unfolding serve
  serve-past now e upgrading c at past = absurd (cc past)
  serve-past now e registering c at past = absurd (cc past)
  serve-past now e greeting c at past = refl
  serve-past now e spawning c at past = refl
  serve-past now e serving c at past = refl
  serve-past now e unregistering c at past = refl
  serve-past now e returned c at past = rw at refl

  receive-handler :
      (xs : List Item) (o : Bool) (c : Connection T) → (receive p xs o c).handler ≡ c.handler
  unfolding receive
  receive-handler (outgoing m ∷ xs) o c = refl
  receive-handler (other ∷ xs) o c = refl
  receive-handler [] true c = refl
  receive-handler [] false c = refl

  pub pump_turn-handler : (q : Pump) (c : Connection T) → (pump_turn p q c).handler ≡ c.handler
  unfolding pump_turn
  pump_turn-handler absent c = refl
  pump_turn-handler receiving c = receive-handler c.messages.queue c.messages.is_open c
  pump_turn-handler (sending m) c = refl
  pump_turn-handler kicking c = refl
  pump_turn-handler leaving c = refl
  pump_turn-handler ended c = refl
  pump_turn-handler panicked c = refl

  greets-past : (h : Handler) (now : ℕ) → is_past h ≡ true → greets h now ≡ []
  greets-past upgrading now past = absurd (cc past)
  greets-past registering now past = absurd (cc past)
  greets-past greeting now past = absurd (cc past)
  greets-past spawning now past = refl
  greets-past serving now past = refl
  greets-past unregistering now past = refl
  greets-past returned now past = refl

  greetings-past :
      (xs : List Turn) (c : Connection T) → is_past c.handler ≡ true → greetings p xs c ≡ []
  unfolding take_turn
  greetings-past [] c past = refl
  greetings-past (serves now e ∷ xs) c past =
      rw (greets-past c.handler now past)
        (greetings-past xs (take_turn p (serves now e) c) (serve-past now e c.handler c refl past))
  greetings-past (pumps ∷ xs) c past =
      greetings-past xs (take_turn p pumps c) (rw (pump_turn-handler c.pump c) past)
  greetings-past (says now msg ∷ xs) c past = greetings-past xs (take_turn p (says now msg) c) past

  -- There is one greeting at most.
  served_once :
      (now : ℕ) (e : Option GoError) (xs : List Turn) (h : Handler) (c : Connection T)
      → (greets h now ≡ []) ⊎ (greetings p xs (serve p now e h c) ≡ [])
  unfolding serve
  served_once now e xs upgrading c = inl refl
  served_once now e xs registering c = inl refl
  served_once now e xs greeting c = inr (greetings-past xs (serve p now e greeting c) refl)
  served_once now e xs spawning c = inl refl
  served_once now e xs serving c = inl refl
  served_once now e xs unregistering c = inl refl
  served_once now e xs returned c = inl refl

  greeted_once :
      (x : Turn) (xs : List Turn) (c : Connection T)
      → (greeted_by x c ≡ []) ⊎ (greetings p xs (take_turn p x c) ≡ [])
  unfolding take_turn
  greeted_once (serves now e) xs c = served_once now e xs c.handler c
  greeted_once pumps xs c = inl refl
  greeted_once (says now msg) xs c = inl refl

  line-take_turns :
      (xs : List Turn) (c : Connection T)
      → IsConnection p laws c
      → line (take_turns p xs c) ≡ greetings p xs c ++ (line c ++ accepted p has xs c)
  unfolding take_turns
  line-take_turns [] c h = sym (append-nil (line c))
  line-take_turns (x ∷ xs) c h =
      let c' = take_turn p x c in
      line-take_turns xs c' (take_turn-IsConnection p laws x c h) ∙ elim (greeted_once x xs c) [
        | inl e ↦ rw (line-take_turn p laws x c h, e) (simp append_assoc)
        | inr e ↦ rw (e, line-take_turn p laws x c h) (simp append_assoc)
      ]

  -- Whatever the order in which serve, the pump and the clients take their turns: the calls that have
  -- been made of the endpoint, then the message that the pump has at hand, then those that wait in the
  -- channel, are the greeting, once serve has come to it, and the messages that the channel has taken,
  -- in their order. So none of them is lost, repeated or overtaken, and the greeting comes first, also
  -- when a message arrives before it. Before the request the topic does not have the channel.
  pub new_connection-line :
      (xs : List Turn) (t : T)
      → has t ≡ false
      → line (take_turns p xs (new_connection t))
        ≡ greetings p xs (new_connection t) ++ accepted p has xs (new_connection t)
  new_connection-line xs t e =
      line-take_turns xs (new_connection t) ((refl, refl, refl, e), refl, (tt, omega arith))
