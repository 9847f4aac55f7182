-- ===== src/Tests/Room.antt =====
-- Three clients of the chat, of whom one connects while the others talk.
use bimpc.Common.{◌≡◌, refl, none, false, List, [], ◌∷◌, ◌++◌}
use bimpc.Chat.Server.{Invocation, invocation, hello, broadcast_of, new_connection, take_turn}
use bimpc.Chat.Server.Line.{line}
use bimpc.Chat.Server.Room.{
  RoomTurn, serves_at, pumps_at, says_to_all, conversation, take_room_turns, room-stretch,
}
use bimpc.Sample.Subscription.{sample_topic, sample_topic-TopicLaws}
use bimpc.Tests.Server.{first_line, second_line}

-- Client 1 misses the first message, and client 2 the last.
abbrev evening : List RoomTurn
evening =
    serves_at 2 1 none
    ∷ serves_at 2 2 none
    ∷ serves_at 2 3 none
    ∷ serves_at 1 4 none
    ∷ says_to_all 5 first_line
    ∷ serves_at 1 6 none
    ∷ serves_at 1 7 none
    ∷ says_to_all 8 second_line
    ∷ serves_at 2 9 none
    ∷ pumps_at 2
    ∷ serves_at 2 10 none
    ∷ serves_at 2 11 none
    ∷ says_to_all 12 first_line
    ∷ []

room-stretch_example :
    (before : List Invocation) × (stretch : List Invocation) × (after : List Invocation)
    × (conversation evening ≡ before ++ (stretch ++ after))
    × (line (take_room_turns sample_topic evening (λ i. new_connection false) 1)
        ≡ (invocation (hello 7) ∷ []) ++ stretch)
unfolding take_turn
room-stretch_example =
    room-stretch sample_topic sample_topic-TopicLaws evening (λ i. false) 1 (λ i. refl)

-- The two clients see what they should.
client_1 :
    line (take_room_turns sample_topic evening (λ i. new_connection false) 1)
    ≡ invocation (hello 7)
      ∷ invocation (broadcast_of 8 second_line)
      ∷ invocation (broadcast_of 12 first_line)
      ∷ []
unfolding take_room_turns take_turn
client_1 = refl

client_2 :
    line (take_room_turns sample_topic evening (λ i. new_connection false) 2)
    ≡ invocation (hello 3)
      ∷ invocation (broadcast_of 5 first_line)
      ∷ invocation (broadcast_of 8 second_line)
      ∷ []
unfolding take_room_turns take_turn
client_2 = refl
