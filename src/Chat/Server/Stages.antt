-- ===== src/Chat/Server/Stages.antt =====
-- In every stage of a connection: what serve and the pump have done so far, and what they rely on.
use bimpc.Common.{◌≤◌, ◌≡◌, sym, ap, ◌∙◌, Bool, true, false, List, [], ◌∷◌, ◌++◌, length, All}
use bimpc.Chat.{Outgoing}
use bimpc.Chat.Server.{
  Item, outgoing, other, Channel, capacity, Topic, TopicLaws, Handler, upgrading, registering,
  greeting, spawning, serving, unregistering, returned, Pump, absent, receiving, sending, kicking,
  leaving, ended, panicked, Invocation, Connection,
}

abbrev pub has_started : Pump → Bool
has_started absent = false
has_started receiving = true
has_started (sending m) = true
has_started kicking = true
has_started leaving = true
has_started ended = true
has_started panicked = true

-- serve has not greeted yet, or the pump has started, and the topic has the channel as long as it is
-- open. `r` says whether the topic has it.
abbrev pub IsServed : Handler → Bool → Pump → List Invocation → Channel → Type 0
IsServed upgrading r q sent ch = (q ≡ absent) × (sent ≡ []) × (ch.queue ≡ []) × (r ≡ false)
IsServed registering r q sent ch = (q ≡ absent) × (sent ≡ []) × (ch.is_open ≡ true) × (r ≡ false)
IsServed greeting r q sent ch = (q ≡ absent) × (sent ≡ []) × (r ≡ ch.is_open)
IsServed spawning r q sent ch = (q ≡ absent) × (r ≡ ch.is_open)
IsServed serving r q sent ch = (has_started q ≡ true) × (r ≡ ch.is_open)
IsServed unregistering r q sent ch = (has_started q ≡ true) × (r ≡ ch.is_open)
IsServed returned r q sent ch = (r ≡ false) × (has_started q ≡ true → ch.is_open ≡ false)

-- The pump leaves its loop when the channel is closed and empty, and then closes the websocket.
abbrev pub IsPumped : Pump → Bool → Channel → Type 0
IsPumped absent closed ch = closed ≡ false
IsPumped receiving closed ch = closed ≡ false
IsPumped (sending m) closed ch = closed ≡ false
IsPumped kicking closed ch = (ch.is_open ≡ false) × (ch.queue ≡ []) × (closed ≡ false)
IsPumped leaving closed ch = (ch.is_open ≡ false) × (ch.queue ≡ []) × (closed ≡ true)
IsPumped ended closed ch = (ch.is_open ≡ false) × (ch.queue ≡ []) × (closed ≡ true)
IsPumped panicked closed ch = ⊥

abbrev pub IsOutgoing : Item → Type 0
IsOutgoing (outgoing m) = Unit
IsOutgoing other = ⊥

-- What waits in the channel are messages, as many as it holds.
abbrev pub IsQueue : List Item → Type 0
IsQueue q = All IsOutgoing q × (length q ≤ capacity)

module _ {T : Type 0} (p : Topic T) (laws : TopicLaws p) where
  abbrev pub IsConnection : Connection T → Type 0
  IsConnection c =
      IsServed c.handler (laws.has c.topic) c.pump c.sent c.messages
      × IsPumped c.pump c.ws_closed c.messages
      × IsQueue c.messages.queue

-- A turn of the pump is none of serve's business.
pub IsServed-pump :
    (h : Handler) (r : Bool) (q q' : Pump) (sent sent' : List Invocation) (ch ch' : Channel)
    → has_started q ≡ true
    → has_started q' ≡ true
    → ch'.is_open ≡ ch.is_open
    → IsServed h r q sent ch
    → IsServed h r q' sent' ch'
IsServed-pump upgrading r q q' sent sent' ch ch' s s' o h = absurd (cc (s, ap has_started h.0))
IsServed-pump registering r q q' sent sent' ch ch' s s' o h = absurd (cc (s, ap has_started h.0))
IsServed-pump greeting r q q' sent sent' ch ch' s s' o h = absurd (cc (s, ap has_started h.0))
IsServed-pump spawning r q q' sent sent' ch ch' s s' o h = absurd (cc (s, ap has_started h.0))
IsServed-pump serving r q q' sent sent' ch ch' s s' o h = (s', h.1 ∙ sym o)
IsServed-pump unregistering r q q' sent sent' ch ch' s s' o h = (s', h.1 ∙ sym o)
IsServed-pump returned r q q' sent sent' ch ch' s s' o h = (h.0, λ _. o ∙ h.1 s)

-- A closed channel is one that the topic has not.
pub IsServed-has :
    (h : Handler) (r : Bool) (q : Pump) (sent : List Invocation) (ch : Channel)
    → IsServed h r q sent ch
    → ch.is_open ≡ false
    → r ≡ false
IsServed-has upgrading r q sent ch h o = h.3
IsServed-has registering r q sent ch h o = h.3
IsServed-has greeting r q sent ch h o = h.2 ∙ o
IsServed-has spawning r q sent ch h o = h.1 ∙ o
IsServed-has serving r q sent ch h o = h.1 ∙ o
IsServed-has unregistering r q sent ch h o = h.1 ∙ o
IsServed-has returned r q sent ch h o = h.0

pub All-IsOutgoing-append :
    (q : List Item) (m : Outgoing) → All IsOutgoing q → All IsOutgoing (q ++ (outgoing m ∷ []))
All-IsOutgoing-append [] m h = (tt, tt)
All-IsOutgoing-append (x ∷ q) m h = (h.0, All-IsOutgoing-append q m h.1)

pub IsServed-open :
    (h : Handler) (r : Bool) (q : Pump) (sent : List Invocation) (ch : Channel)
    → IsServed h r q sent ch
    → r ≡ true
    → ch.is_open ≡ true
IsServed-open upgrading r q sent ch h e = absurd (cc (h.3, e))
IsServed-open registering r q sent ch h e = absurd (cc (h.3, e))
IsServed-open greeting r q sent ch h e = sym h.2 ∙ e
IsServed-open spawning r q sent ch h e = sym h.1 ∙ e
IsServed-open serving r q sent ch h e = sym h.1 ∙ e
IsServed-open unregistering r q sent ch h e = sym h.1 ∙ e
IsServed-open returned r q sent ch h e = absurd (cc (h.0, e))

-- The channel of a connection that is fed stays in step with the topic.
pub IsServed-fed :
    (h : Handler) (r r' : Bool) (q : Pump) (sent : List Invocation) (ch ch' : Channel)
    → r ≡ true
    → r' ≡ ch'.is_open
    → IsServed h r q sent ch
    → IsServed h r' q sent ch'
IsServed-fed upgrading r r' q sent ch ch' e o h = absurd (cc (h.3, e))
IsServed-fed registering r r' q sent ch ch' e o h = absurd (cc (h.3, e))
IsServed-fed greeting r r' q sent ch ch' e o h = (h.0, h.1, o)
IsServed-fed spawning r r' q sent ch ch' e o h = (h.0, o)
IsServed-fed serving r r' q sent ch ch' e o h = (h.0, o)
IsServed-fed unregistering r r' q sent ch ch' e o h = (h.0, o)
IsServed-fed returned r r' q sent ch ch' e o h = absurd (cc (h.0, e))

-- Before the channel is closed the pump is in its loop or not started.
pub IsPumped-fed :
    (q : Pump) (closed : Bool) (ch ch' : Channel)
    → ch.is_open ≡ true
    → IsPumped q closed ch
    → IsPumped q closed ch'
IsPumped-fed absent closed ch ch' o h = h
IsPumped-fed receiving closed ch ch' o h = h
IsPumped-fed (sending m) closed ch ch' o h = h
IsPumped-fed kicking closed ch ch' o h = absurd (cc (h.0, o))
IsPumped-fed leaving closed ch ch' o h = absurd (cc (h.0, o))
IsPumped-fed ended closed ch ch' o h = absurd (cc (h.0, o))
IsPumped-fed panicked closed ch ch' o h = h
