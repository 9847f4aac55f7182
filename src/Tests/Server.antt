-- ===== src/Tests/Server.antt =====
-- The theorems about the chat's server at concrete inputs.
use bimpc.Common.{◌≡◌, refl, none, true, false, List, [], ◌∷◌, replicate, arith}
use bimpc.Chat.{Incoming}
use bimpc.Chat.Server.{
  Turn, serves, pumps, says, invocation, hello, broadcast_of, ended, new_connection, take_turns,
}
use bimpc.Chat.Server.Stages.{IsConnection}
use bimpc.Chat.Server.Invariant.{new_connection-IsConnection}
use bimpc.Chat.Server.Line.{line}
use bimpc.Chat.Server.Order.{new_connection-line}
use bimpc.Chat.Server.Life.{closed-ended}
use bimpc.Sample.Subscription.{sample_topic, sample_topic-TopicLaws}

abbrev pub first_line : Incoming
first_line = record { from = b'a' ∷ []; message = b'1' ∷ [] }

abbrev pub second_line : Incoming
second_line = record { from = b'b' ∷ []; message = b'2' ∷ [] }

-- A message arrives before the greeting, and another one when the pump has the first at hand; serve
-- returns while the second still waits.
abbrev visit : List Turn
visit =
    serves 5 none
    ∷ serves 6 none
    ∷ says 7 first_line
    ∷ serves 8 none
    ∷ serves 9 none
    ∷ pumps
    ∷ says 10 second_line
    ∷ serves 11 none
    ∷ serves 12 none
    ∷ []

-- Twelve messages, of which the last two find no room.
abbrev flood : List Turn
flood =
    serves 5 none ∷ serves 6 none ∷ serves 8 none ∷ serves 9 none ∷ replicate 12 (says 7 first_line)

new_connection-IsConnection_example :
    IsConnection sample_topic sample_topic-TopicLaws
      (take_turns sample_topic flood (new_connection false))
new_connection-IsConnection_example =
    new_connection-IsConnection sample_topic sample_topic-TopicLaws flood false refl

new_connection-line_example :
    line (take_turns sample_topic visit (new_connection false))
    ≡ invocation (hello 8)
      ∷ invocation (broadcast_of 7 first_line)
      ∷ invocation (broadcast_of 10 second_line)
      ∷ []
unfolding take_turns
new_connection-line_example =
    new_connection-line sample_topic sample_topic-TopicLaws visit false refl

closed-ended_example :
    let c =
      take_turns sample_topic
        (replicate 24 pumps)
        (take_turns sample_topic visit (new_connection false)) in
    (c.pump ≡ ended)
    × (c.ws_closed ≡ true)
    × (c.sent
        ≡ invocation (hello 8)
          ∷ invocation (broadcast_of 7 first_line)
          ∷ invocation (broadcast_of 10 second_line)
          ∷ [])
unfolding take_turns
closed-ended_example =
    closed-ended sample_topic sample_topic-TopicLaws visit (replicate 24 pumps) false refl
      (refl, refl) (omega arith)
