-- ===== src/Chat/Server/Life.antt =====
-- How a connection ends: when its channel is closed, the pump sends what waits, closes the websocket and
-- returns.
use mathlib.Core.List.{append-nil}
use bimpc.Common.{
  ℕ, ◌+◌, ◌*◌, ◌-◌, ◌≤◌, ◌≡◌, refl, sym, ap, ◌∙◌, Option, Bool, true, false, List, [], ◌∷◌, ◌++◌,
  length, arith,
}
use bimpc.Action.{GoError}
use bimpc.Chat.{Incoming}
use bimpc.Chat.Server.{
  Item, outgoing, other, Channel, capacity, Topic, TopicLaws, Handler, upgrading, registering,
  greeting, spawning, serving, unregistering, returned, Pump, absent, receiving, sending, kicking,
  leaving, ended, panicked, Invocation, Connection, new_connection, broadcast_of, serve, receive,
  pump_turn, message, Turn, serves, pumps, says, take_turn, take_turns,
}
use bimpc.Chat.Server.Stages.{has_started, IsServed, IsPumped, IsQueue, IsConnection, IsServed-has}
use bimpc.Chat.Server.Invariant.{
  broadcast_cases, unregister_cases, take_turn-IsConnection, take_turns-IsConnection,
  new_connection-IsConnection,
}
use bimpc.Chat.Server.Line.{
  at_hand, to_send, line, greets, greeted_by, accepted_by, greetings, accepted, line-take_turn,
}
use bimpc.Chat.Server.Order.{new_connection-line}

-- The turns that the pump has left, with `n` messages in a closed channel.
abbrev left : Pump → ℕ → ℕ
left absent n = 0
left receiving n = 2 * n + 3
left (sending m) n = 2 * n + 4
left kicking n = 2
left leaving n = 1
left ended n = 0
left panicked n = 0

abbrev pub pump_turn_of : Turn → ℕ
pump_turn_of (serves now e) = 0
pump_turn_of pumps = 1
pump_turn_of (says now msg) = 0

abbrev pub pump_turns : List Turn → ℕ
pump_turns [] = 0
pump_turns (x ∷ xs) = pump_turn_of x + pump_turns xs

-- The pump has started, and its channel is closed.
abbrev pub IsEnding : {T : Type 0} → Connection T → Type 0
IsEnding c = (has_started c.pump ≡ true) × (c.messages.is_open ≡ false)

abbrev IsLeft : {T : Type 0} → ℕ → Connection T → Type 0
IsLeft n c = IsEnding c × (left c.pump (length c.messages.queue) ≤ n)

module _ {T : Type 0} (p : Topic T) (laws : TopicLaws p) where
  open laws use {has}

  ending-has : (c : Connection T) → IsConnection p laws c → IsEnding c → has c.topic ≡ false
  ending-has c h e = IsServed-has c.handler (has c.topic) c.pump c.sent c.messages h.0 e.1

  says-ending :
      (now : ℕ) (msg : Incoming) (c : Connection T) (n : ℕ)
      → has c.topic ≡ false
      → IsLeft n c
      → IsLeft n (take_turn p (says now msg) c)
  unfolding take_turn message
  says-ending now msg c n not l =
      broadcast_cases p laws (λ t ch. IsLeft n (record c { topic = t; messages = ch }))
        (outgoing (broadcast_of now msg)) c.topic c.messages (λ t e less e'. absurd (cc (e, not)))
        (λ t e more e'. absurd (cc (e, not))) (λ t e e'. l)

  serve-ending :
      (now : ℕ) (e : Option GoError) (h : Handler) (c : Connection T) (n : ℕ)
      → IsServed h (has c.topic) c.pump c.sent c.messages
      → has c.topic ≡ false
      → IsLeft n c
      → IsLeft n (serve p now e h c)
  unfolding serve
  serve-ending now e upgrading c n s not l = absurd (cc (l.0.0, ap has_started s.0))
  serve-ending now e registering c n s not l = absurd (cc (l.0.0, ap has_started s.0))
  serve-ending now e greeting c n s not l = absurd (cc (l.0.0, ap has_started s.0))
  serve-ending now e spawning c n s not l = absurd (cc (l.0.0, ap has_started s.0))
  serve-ending now e serving c n s not l = l
  serve-ending now e unregistering c n s not l =
      unregister_cases p laws
        (λ t ch. IsLeft n (record c { topic = t; messages = ch; handler = returned })) c.topic
        c.messages (λ t e e'. absurd (cc (e, not))) (λ t e e'. l)
  serve-ending now e returned c n s not l = l

  receive-ending :
      (xs : List Item) (o : Bool) (c : Connection T) (n : ℕ)
      → o ≡ false
      → c.messages.is_open ≡ false
      → IsQueue xs
      → 2 * length xs + 3 ≤ n
      → IsLeft (n - 1) (receive p xs o c)
  unfolding receive
  receive-ending (outgoing m ∷ xs) o c n e closed q l = ((refl, closed), omega (arith, l))
  receive-ending (other ∷ xs) o c n e closed q l = absurd q.0.0
  receive-ending [] true c n e closed q l = absurd (cc e)
  receive-ending [] false c n e closed q l = ((refl, closed), omega (arith, l))

  pump-ending :
      (q : Pump) (c : Connection T) (n : ℕ)
      → c.pump ≡ q
      → IsPumped q c.ws_closed c.messages
      → IsQueue c.messages.queue
      → has c.topic ≡ false
      → has_started q ≡ true
      → c.messages.is_open ≡ false
      → left q (length c.messages.queue) ≤ n
      → IsLeft (n - 1) (pump_turn p q c)
  unfolding pump_turn
  pump-ending absent c n at w q not s closed l = absurd (cc s)
  pump-ending receiving c n at w q not s closed l =
      receive-ending c.messages.queue c.messages.is_open c n closed closed q l
  pump-ending (sending m) c n at w q not s closed l = ((refl, closed), omega (arith, l))
  pump-ending kicking c n at w q not s closed l = ((refl, closed), omega (arith, l))
  pump-ending leaving c n at w q not s closed l =
      unregister_cases p laws
        (λ t ch. IsLeft (n - 1) (record c { topic = t; messages = ch; pump = ended })) c.topic
        c.messages (λ t e e'. absurd (cc (e, not))) (λ t e e'. ((refl, closed), omega arith))
  pump-ending ended c n at w q not s closed l = rw at ((refl, closed), omega arith)
  pump-ending panicked c n at w q not s closed l = absurd w

  take_turn-ending :
      (x : Turn) (c : Connection T) (n : ℕ)
      → IsConnection p laws c
      → IsLeft n c
      → IsLeft (n - pump_turn_of x) (take_turn p x c)
  unfolding take_turn
  take_turn-ending (serves now e) c n h l =
      let r = serve-ending now e c.handler c n h.0 (ending-has c h l.0) l in
      (r.0, omega (arith, r.1))
  take_turn-ending pumps c n h ((s, o), l) =
      pump-ending c.pump c n refl h.1 h.2 (ending-has c h (s, o)) s o l
  take_turn-ending (says now msg) c n h l =
      let r = says-ending now msg c n (ending-has c h l.0) l in (r.0, omega (arith, r.1))

  take_turns-ending :
      (xs : List Turn) (c : Connection T) (n : ℕ)
      → IsConnection p laws c
      → IsLeft n c
      → IsLeft (n - pump_turns xs) (take_turns p xs c)
  unfolding take_turns
  take_turns-ending [] c n h l = (l.0, omega (arith, l.1))
  take_turns-ending (x ∷ xs) c n h l =
      let r =
        take_turns-ending xs (take_turn p x c) (n - pump_turn_of x)
          (take_turn-IsConnection p laws x c h) (take_turn-ending x c n h l) in
      (r.0, omega (arith, r.1))

  greets-ending :
      (now : ℕ) (h : Handler) (r : Bool) (q : Pump) (sent : List Invocation) (ch : Channel)
      → IsServed h r q sent ch
      → has_started q ≡ true
      → greets h now ≡ []
  greets-ending now upgrading r q sent ch h s = refl
  greets-ending now registering r q sent ch h s = refl
  greets-ending now greeting r q sent ch h s = absurd (cc (s, ap has_started h.0))
  greets-ending now spawning r q sent ch h s = refl
  greets-ending now serving r q sent ch h s = refl
  greets-ending now unregistering r q sent ch h s = refl
  greets-ending now returned r q sent ch h s = refl

  line-ending :
      (x : Turn) (c : Connection T)
      → IsConnection p laws c
      → IsEnding c
      → line (take_turn p x c) ≡ line c
  line-ending x c h e = line-take_turn p laws x c h ∙ none_more x
    where
      none_more : (x : Turn) → greeted_by x c ++ (line c ++ accepted_by has x c) ≡ line c
      none_more (serves now err) =
          rw (greets-ending now c.handler (has c.topic) c.pump c.sent c.messages h.0 e.0)
            (append-nil (line c))
      none_more pumps = append-nil (line c)
      none_more (says now msg) = rw (ending-has c h e) (append-nil (line c))

  line-take_turns_ending :
      (xs : List Turn) (c : Connection T) (n : ℕ)
      → IsConnection p laws c
      → IsLeft n c
      → line (take_turns p xs c) ≡ line c
  unfolding take_turns
  line-take_turns_ending [] c n h l = refl
  line-take_turns_ending (x ∷ xs) c n h l =
      line-take_turns_ending xs (take_turn p x c) (n - pump_turn_of x)
        (take_turn-IsConnection p laws x c h) (take_turn-ending x c n h l)
      ∙ line-ending x c h l.0

  left_most : (q : Pump) (n : ℕ) → n ≤ capacity → left q n ≤ 24
  left_most absent n h = omega arith
  left_most receiving n h = omega (arith, h)
  left_most (sending m) n h = omega (arith, h)
  left_most kicking n h = omega arith
  left_most leaving n h = omega arith
  left_most ended n h = omega arith
  left_most panicked n h = omega arith

  none_left :
      (q : Pump) (closed : Bool) (ch : Channel) (sent : List Invocation)
      → has_started q ≡ true
      → IsPumped q closed ch
      → left q (length ch.queue) ≤ 0
      → (q ≡ ended) × (closed ≡ true) × (sent ≡ sent ++ (at_hand q ++ to_send ch.queue))
  none_left absent closed ch sent s w l = absurd (cc s)
  none_left receiving closed ch sent s w l = absurd (omega (arith, l))
  none_left (sending m) closed ch sent s w l = absurd (omega (arith, l))
  none_left kicking closed ch sent s w l = absurd (omega (arith, l))
  none_left leaving closed ch sent s w l = absurd (omega (arith, l))
  none_left ended closed ch sent s w l = (refl, w.2, rw w.1 (sym (append-nil sent)))
  none_left panicked closed ch sent s w l = absurd w

  -- Take a connection after any turns from its request on, where the pump has started and the channel
  -- is closed, since serve has returned or since the client was too slow. After any further turns, at
  -- least 24 of which are the pump's, the pump has returned and has closed the websocket, and the
  -- endpoint has been called for the greeting and for every message that the channel had taken, in their
  -- order, and for nothing else. Before the request the topic does not have the channel.
  pub closed-ended :
      (before after : List Turn) (t : T)
      → has t ≡ false
      → IsEnding (take_turns p before (new_connection t))
      → 24 ≤ pump_turns after
      → let c = take_turns p after (take_turns p before (new_connection t)) in
        (c.pump ≡ ended)
        × (c.ws_closed ≡ true)
        × (c.sent
            ≡ greetings p before (new_connection t) ++ accepted p has before (new_connection t))
  closed-ended before after t e l turns =
      let c = take_turns p before (new_connection t) in
      let h = new_connection-IsConnection p laws before t e in
      let left_24 : IsLeft 24 c = (l, left_most c.pump (length c.messages.queue) h.2.1) in
      let c' = take_turns p after c in
      let r = take_turns-ending after c 24 h left_24 in
      let done =
        none_left c'.pump c'.ws_closed c'.messages c'.sent r.0.0
          (take_turns-IsConnection p laws after c h).1 (omega (arith, r.1, turns)) in
      (
        done.0,
        done.1,
        done.2
            ∙ line-take_turns_ending after c 24 h left_24
            ∙ new_connection-line p laws before t e,
      )
