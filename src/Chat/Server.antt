-- ===== src/Chat/Server.antt =====
-- examples/chat/main.go: the method Message, and the life of a connection in serve. The goroutine of
-- the HTTP server that runs serve and the one that serve starts, the pump, take turns in any order; a
-- turn is what the goroutine does up to its next call. Of the endpoint and the websocket there is what
-- the code asks of them: the calls of Go and of Close. github.com/tv42/topic is a parameter.
pub mod Stages
pub mod Invariant
pub mod Line
pub mod Order
pub mod Life
pub mod Stretch
pub mod Room
use Prim.Native.String.{String}
use bimpc.Common.{
  ℕ, ◌+◌, ◌%◌, ◌^◌, ◌≤◌, ◌<◌, ◌≡◌, length, Option, none, some, Bool, true, false, List, [], ◌∷◌,
  ◌++◌,
}
use bimpc.Memory.{Bytes}
use bimpc.Action.{GoError}
use bimpc.Chat.{Incoming, Outgoing}

-- An interface{} in a channel: an Outgoing, or a value of another type.
pub data Item : Type 0 where
  outgoing : Outgoing → Item
  other : Item

-- The channel `messages`, with what waits in its buffer.
pub record Channel : Type 0 where
  pub queue : List Item
  pub is_open : Bool

-- make(chan interface{}, 10)
abbrev pub capacity : ℕ
capacity = 10

abbrev pub new_channel : Channel
new_channel = record { queue = []; is_open = true }

-- What topic.Topic in state `T` does to the channel of the connection.
pub record Topic (T : Type 0) : Type 0 where
  pub register : T → T
  pub unregister : T → Channel → T × Channel
  -- A value that is sent to the channel Broadcast and given to those who have registered.
  pub broadcast : Item → T → Channel → T × Channel

-- The topic gives each value that is broadcast to the channels that are registered. A channel that has
-- no room is closed and let go of, and so is one that is unregistered; to unregister it once more does
-- nothing.
pub record TopicLaws {T : Type 0} (p : Topic T) : Type 0 where
  pub has : T → Bool
  pub register_has : (t : T) → has (p.register t) ≡ true
  pub unregister_closes :
      (t : T) (ch : Channel)
      → has t ≡ true
      → (has (p.unregister t ch).0 ≡ false)
        × ((p.unregister t ch).1 ≡ record ch { is_open = false })
  pub unregister_again :
      (t : T) (ch : Channel)
      → has t ≡ false
      → (has (p.unregister t ch).0 ≡ false) × ((p.unregister t ch).1 ≡ ch)
  pub broadcast_room :
      (m : Item) (t : T) (ch : Channel)
      → has t ≡ true
      → length ch.queue < capacity
      → (has (p.broadcast m t ch).0 ≡ true)
        × ((p.broadcast m t ch).1 ≡ record ch { queue = ch.queue ++ (m ∷ []) })
  pub broadcast_full :
      (m : Item) (t : T) (ch : Channel)
      → has t ≡ true
      → capacity ≤ length ch.queue
      → (has (p.broadcast m t ch).0 ≡ false)
        × ((p.broadcast m t ch).1 ≡ record ch { is_open = false })
  pub broadcast_elsewhere :
      (m : Item) (t : T) (ch : Channel)
      → has t ≡ false
      → (has (p.broadcast m t ch).0 ≡ false) × ((p.broadcast m t ch).1 ≡ ch)

-- Where serve is: before Upgrade, Register, the greeting and the go statement, in Serve, before the
-- deferred Unregister, and at its end.
pub data Handler : Type 0 where
  upgrading registering greeting spawning serving unregistering returned : Handler

-- Where the pump is: not started, before a receive, before Go with a message at hand, before Close,
-- before the deferred Unregister, at its end; or its type assertion has failed.
pub data Pump : Type 0 where
  absent receiving : Pump
  sending : Outgoing → Pump
  kicking leaving ended panicked : Pump

-- A call of endpoint.Go without a reply and a channel.
pub record Invocation : Type 0 where
  pub method : String
  pub args : Outgoing

abbrev pub invocation : Outgoing → Invocation
invocation m = record { method = "Chat.Message"; args = m }

pub record Connection (T : Type 0) : Type 0 where
  pub topic : T
  pub messages : Channel
  -- the calls of endpoint.Go, the oldest first
  pub sent : List Invocation
  -- the pump has called ws.Close
  pub ws_closed : Bool
  pub handler : Handler
  pub pump : Pump

abbrev pub new_connection : {T : Type 0} → T → Connection T
new_connection t = record {
  topic = t;
  messages = new_channel;
  sent = [];
  ws_closed = false;
  handler = upgrading;
  pump = absent;
}

-- uint32(time.Now().Unix()), where `now` is the bit pattern of an int64
abbrev pub timestamp : ℕ → ℕ
timestamp now = now % 2 ^ 32

unfoldable pub hello : ℕ → Outgoing
hello now = record {
  time = timestamp now;
  from = b'S' ∷ b'e' ∷ b'r' ∷ b'v' ∷ b'e' ∷ b'r' ∷ [];
  message =
      b'H' ∷ b'E' ∷ b'L' ∷ b'L' ∷ b'O' ∷ 32 ∷ b'F' ∷ b'R' ∷ b'O' ∷ b'M' ∷ 32 ∷ b'S' ∷ b'E' ∷ b'R'
      ∷ b'V' ∷ b'E' ∷ b'R' ∷ [];
}

-- What Message makes of its argument.
unfoldable pub broadcast_of : ℕ → Incoming → Outgoing
broadcast_of now msg = record { time = timestamp now; from = msg.from; message = msg.message }

module _ {T : Type 0} (p : Topic T) where
  -- (*Chat).Message, which any client may call.
  unfoldable pub message : ℕ → Incoming → T → Channel → Option GoError × T × Channel
  unfolding broadcast_of
  message now msg t ch =
      let (t', ch') = p.broadcast (outgoing (broadcast_of now msg)) t ch in (none, t', ch')

  abbrev pub unregistered : Connection T → Connection T
  unregistered c =
      let (t, ch) = p.unregister c.topic c.messages in record c { topic = t; messages = ch }

  -- A turn of serve at the time `now`, where Upgrade returns the error `e`.
  unfoldable pub serve : ℕ → Option GoError → Handler → Connection T → Connection T
  unfolding hello
  serve now (some e) upgrading c = record c { handler = returned }
  serve now none upgrading c = record c { messages = new_channel; handler = registering }
  serve now e registering c = record c { topic = p.register c.topic; handler = greeting }
  serve now e greeting c = record c {
    sent = c.sent ++ (invocation (hello now) ∷ []);
    handler = spawning;
  }
  serve now e spawning c = record c { pump = receiving; handler = serving }
  serve now e serving c = record c { handler = unregistering }
  serve now e unregistering c = record (unregistered c) { handler = returned }
  serve now e returned c = c

  -- The receive of the loop: it waits as long as the channel is empty and open.
  unfoldable pub receive : List Item → Bool → Connection T → Connection T
  receive (outgoing m ∷ rest) is_open c = record c {
    messages = record c.messages { queue = rest };
    pump = sending m;
  }
  receive (other ∷ rest) is_open c = record c {
    messages = record c.messages { queue = rest };
    pump = panicked;
  }
  receive [] true c = c
  receive [] false c = record c { pump = kicking }

  -- A turn of the pump.
  unfoldable pub pump_turn : Pump → Connection T → Connection T
  unfolding receive
  pump_turn absent c = c
  pump_turn receiving c = receive c.messages.queue c.messages.is_open c
  pump_turn (sending m) c = record c { sent = c.sent ++ (invocation m ∷ []); pump = receiving }
  pump_turn kicking c = record c { ws_closed = true; pump = leaving }
  pump_turn leaving c = record (unregistered c) { pump = ended }
  pump_turn ended c = c
  pump_turn panicked c = c

-- Who takes a turn. A Message may be called by any client, and its turn is when the topic gives out
-- what it has broadcast.
pub data Turn : Type 0 where
  serves : ℕ → Option GoError → Turn
  pumps : Turn
  says : ℕ → Incoming → Turn

module _ {T : Type 0} (p : Topic T) where
  unfoldable pub take_turn : Turn → Connection T → Connection T
  unfolding message serve pump_turn
  take_turn (serves now e) c = serve p now e c.handler c
  take_turn pumps c = pump_turn p c.pump c
  take_turn (says now msg) c =
      let (_, t, ch) = message p now msg c.topic c.messages in record c { topic = t; messages = ch }

  unfoldable pub take_turns : List Turn → Connection T → Connection T
  unfolding take_turn
  take_turns [] c = c
  take_turns (x ∷ xs) c = take_turns xs (take_turn x c)
