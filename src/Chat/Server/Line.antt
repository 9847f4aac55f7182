-- ===== src/Chat/Server/Line.antt =====
-- The messages of a connection that are on their way, and what each turn adds to them.
use mathlib.Core.List.{append_assoc, append-nil}
use bimpc.Common.{
  ℕ, ◌≡◌, refl, sym, ap, ◌∙◌, Option, none, some, Bool, true, false, ◌&&◌, List, [], ◌∷◌, ◌++◌,
  length, ltb, ltb-true, ltb-false, if◌then◌else◌,
}
use bimpc.Action.{GoError}
use bimpc.Chat.{Incoming, Outgoing}
use bimpc.Chat.Server.{
  Item, outgoing, other, capacity, Topic, TopicLaws, Handler, upgrading, registering, greeting,
  spawning, serving, unregistering, returned, Pump, absent, receiving, sending, kicking, leaving,
  ended, panicked, Invocation, invocation, Connection, hello, broadcast_of, serve, receive,
  pump_turn, message, Turn, serves, pumps, says, take_turn,
}
use bimpc.Chat.Server.Stages.{IsServed, IsConnection}
use bimpc.Chat.Server.Invariant.{broadcast_cases, unregister_cases}

abbrev pub at_hand : Pump → List Invocation
at_hand absent = []
at_hand receiving = []
at_hand (sending m) = invocation m ∷ []
at_hand kicking = []
at_hand leaving = []
at_hand ended = []
at_hand panicked = []

-- The pump would panic on an item of another type.
abbrev pub to_send : List Item → List Invocation
to_send [] = []
to_send (outgoing m ∷ xs) = invocation m ∷ to_send xs
to_send (other ∷ xs) = to_send xs

-- What has been handed to the endpoint, what the pump has at hand, and what waits.
abbrev pub line : {T : Type 0} → Connection T → List Invocation
line c = c.sent ++ (at_hand c.pump ++ to_send c.messages.queue)

abbrev pub greets : Handler → ℕ → List Invocation
greets upgrading now = []
greets registering now = []
greets greeting now = invocation (hello now) ∷ []
greets spawning now = []
greets serving now = []
greets unregistering now = []
greets returned now = []

module _ {T : Type 0} where
  abbrev pub greeted_by : Turn → Connection T → List Invocation
  greeted_by (serves now e) c = greets c.handler now
  greeted_by pumps c = []
  greeted_by (says now msg) c = []

  -- A message that finds the channel registered and with room.
  abbrev pub accepted_by : (T → Bool) → Turn → Connection T → List Invocation
  accepted_by has (serves now e) c = []
  accepted_by has pumps c = []
  accepted_by has (says now msg) c =
      if has c.topic && ltb (length c.messages.queue) capacity
      then invocation (broadcast_of now msg) ∷ []
      else []

module _ {T : Type 0} (p : Topic T) where
  abbrev pub greetings : List Turn → Connection T → List Invocation
  greetings [] c = []
  greetings (x ∷ xs) c = greeted_by x c ++ greetings xs (take_turn p x c)

  abbrev pub accepted : (T → Bool) → List Turn → Connection T → List Invocation
  accepted has [] c = []
  accepted has (x ∷ xs) c = accepted_by has x c ++ accepted has xs (take_turn p x c)

to_send-append :
    (xs : List Item) (m : Outgoing)
    → to_send (xs ++ (outgoing m ∷ [])) ≡ to_send xs ++ (invocation m ∷ [])
to_send-append [] m = refl
to_send-append (outgoing x ∷ xs) m = ap (λ t. invocation x ∷ t) (to_send-append xs m)
to_send-append (other ∷ xs) m = to_send-append xs m

module _ {T : Type 0} (p : Topic T) (laws : TopicLaws p) where
  open laws use {has}

  line-says :
      (now : ℕ) (msg : Incoming) (c : Connection T)
      → line (take_turn p (says now msg) c) ≡ line c ++ accepted_by has (says now msg) c
  unfolding take_turn message
  line-says now msg c =
      broadcast_cases p laws
        (λ t ch.
          c.sent ++ (at_hand c.pump ++ to_send ch.queue)
          ≡ line c ++ accepted_by has (says now msg) c)
        (outgoing (broadcast_of now msg)) c.topic c.messages
        (λ t e less e'.
          rw (e, ltb-true (length c.messages.queue) capacity less, to_send-append)
            (simp append_assoc))
        (λ t e more e'.
          rw (e, ltb-false (length c.messages.queue) capacity more) (sym (append-nil (line c))))
        (λ t e e'. rw e (sym (append-nil (line c))))

  line-serve :
      (now : ℕ) (e : Option GoError) (h : Handler) (c : Connection T)
      → IsServed h (has c.topic) c.pump c.sent c.messages
      → line (serve p now e h c) ≡ greets h now ++ line c
  unfolding serve
  line-serve now (some e) upgrading c s = refl
  line-serve now none upgrading c s = rw s.2 refl
  line-serve now e registering c s = refl
  line-serve now e greeting c s = rw s.1 refl
  line-serve now e spawning c s = rw s.0 refl
  line-serve now e serving c s = refl
  line-serve now e unregistering c s =
      unregister_cases p laws (λ t ch. c.sent ++ (at_hand c.pump ++ to_send ch.queue) ≡ line c)
        c.topic c.messages (λ t e e'. refl) (λ t e e'. refl)
  line-serve now e returned c s = refl

  line-receive :
      (xs : List Item) (o : Bool) (c : Connection T)
      → c.messages.queue ≡ xs
      → c.pump ≡ receiving
      → line (receive p xs o c) ≡ line c
  unfolding receive
  line-receive (outgoing m ∷ xs) o c at start = rw (at, start) refl
  line-receive (other ∷ xs) o c at start = rw (at, start) refl
  line-receive [] true c at start = refl
  line-receive [] false c at start = rw start refl

  line-pump : (q : Pump) (c : Connection T) → c.pump ≡ q → line (pump_turn p q c) ≡ line c
  unfolding pump_turn
  line-pump absent c at = refl
  line-pump receiving c at = line-receive c.messages.queue c.messages.is_open c refl at
  line-pump (sending m) c at = rw at (append_assoc c.sent _ _)
  line-pump kicking c at = rw at refl
  line-pump leaving c at =
      unregister_cases p laws (λ t ch. c.sent ++ to_send ch.queue ≡ line c) c.topic c.messages
        (λ t e e'. rw at refl) (λ t e e'. rw at refl)
  line-pump ended c at = refl
  line-pump panicked c at = refl

  pub line-take_turn :
      (x : Turn) (c : Connection T)
      → IsConnection p laws c
      → line (take_turn p x c) ≡ greeted_by x c ++ (line c ++ accepted_by has x c)
  unfolding take_turn
  line-take_turn (serves now e) c (s, _, _) =
      line-serve now e c.handler c s
      ∙ ap (λ t. greets c.handler now ++ t) (sym (append-nil (line c)))
  line-take_turn pumps c h = line-pump c.pump c refl ∙ sym (append-nil (line c))
  line-take_turn (says now msg) c h = line-says now msg c
