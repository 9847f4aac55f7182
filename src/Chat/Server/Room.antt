-- ===== src/Chat/Server/Room.antt =====
-- examples/chat/main.go: all connections of the chat. They share the topic, which gives a message that
-- any client says to all of them; what it has for a channel is a part of that channel's connection.
use bimpc.Common.{
  ℕ, ◌≡◌, refl, sym, ap, ◌∙◌, Option, Bool, true, false, List, [], ◌∷◌, ◌++◌, ◌==◌, update, eq_true,
  Bool-cases, inl, inr, if◌then◌else◌,
}
use bimpc.Action.{GoError}
use bimpc.Chat.{Incoming}
use bimpc.Chat.Server.{
  Topic, TopicLaws, Invocation, Connection, new_connection, Turn, serves, pumps, says, invocation,
  broadcast_of, take_turn, take_turns,
}
use bimpc.Chat.Server.Line.{line, greetings, accepted}
use bimpc.Chat.Server.Order.{new_connection-line}
use bimpc.Chat.Server.Stretch.{said, said_by, accepted-stretch}

-- A goroutine of the connection `i` takes its turn, or somebody says something.
pub data RoomTurn : Type 0 where
  serves_at : (i now : ℕ) → Option GoError → RoomTurn
  pumps_at : (i : ℕ) → RoomTurn
  says_to_all : ℕ → Incoming → RoomTurn

-- All that is said, as it is sent on.
abbrev pub conversation : List RoomTurn → List Invocation
conversation [] = []
conversation (serves_at i now e ∷ xs) = conversation xs
conversation (pumps_at i ∷ xs) = conversation xs
conversation (says_to_all now msg ∷ xs) = invocation (broadcast_of now msg) ∷ conversation xs

-- The turns that concern the connection `j`.
abbrev pub turns_of : ℕ → List RoomTurn → List Turn
turns_of j [] = []
turns_of j (serves_at i now e ∷ xs) = if i == j then serves now e ∷ turns_of j xs else turns_of j xs
turns_of j (pumps_at i ∷ xs) = if i == j then pumps ∷ turns_of j xs else turns_of j xs
turns_of j (says_to_all now msg ∷ xs) = says now msg ∷ turns_of j xs

module _ {T : Type 0} (p : Topic T) where
  abbrev pub Room : Type 0
  Room = ℕ → Connection T

  unfoldable pub take_room_turn : RoomTurn → Room → Room
  take_room_turn (serves_at i now e) r = update r i (take_turn p (serves now e) (r i))
  take_room_turn (pumps_at i) r = update r i (take_turn p pumps (r i))
  take_room_turn (says_to_all now msg) r = λ j. take_turn p (says now msg) (r j)

  unfoldable pub take_room_turns : List RoomTurn → Room → Room
  unfolding take_room_turn
  take_room_turns [] r = r
  take_room_turns (x ∷ xs) r = take_room_turns xs (take_room_turn x r)

  own_turn :
      (x : Turn) (ys : List Turn) (r : Room) (i j : ℕ)
      → take_turns p ys (update r i (take_turn p x (r i)) j)
        ≡ take_turns p (if i == j then x ∷ ys else ys) (r j)
  unfolding take_turns
  own_turn x ys r i j = elim (Bool-cases (i == j)) [
    | inl e ↦ rw e (ap (λ k. take_turns p ys (take_turn p x (r k))) (eq_true i j e))
    | inr e ↦ rw e refl
  ]

  -- A connection takes its own turns, whatever the others do.
  pub take_room_turns-take_turns :
      (xs : List RoomTurn) (r : Room) (j : ℕ)
      → take_room_turns xs r j ≡ take_turns p (turns_of j xs) (r j)
  unfolding take_room_turns take_room_turn take_turns
  take_room_turns-take_turns [] r j = refl
  take_room_turns-take_turns (serves_at i now e ∷ xs) r j =
      take_room_turns-take_turns xs (update r i (take_turn p (serves now e) (r i))) j
      ∙ own_turn (serves now e) (turns_of j xs) r i j
  take_room_turns-take_turns (pumps_at i ∷ xs) r j =
      take_room_turns-take_turns xs (update r i (take_turn p pumps (r i))) j
      ∙ own_turn pumps (turns_of j xs) r i j
  take_room_turns-take_turns (says_to_all now msg ∷ xs) r j =
      take_room_turns-take_turns xs (λ k. take_turn p (says now msg) (r k)) j

said_unspoken :
    (b : Bool) (x : Turn) (ys : List Turn) {heard : List Invocation}
    → said_by x ≡ []
    → said ys ≡ heard
    → said (if b then x ∷ ys else ys) ≡ heard
said_unspoken true x ys e q = ap (λ t. t ++ said ys) e ∙ q
said_unspoken false x ys e q = q

-- A connection hears all that is said.
said-turns_of : (j : ℕ) (xs : List RoomTurn) → said (turns_of j xs) ≡ conversation xs
said-turns_of j [] = refl
said-turns_of j (serves_at i now e ∷ xs) =
    said_unspoken (i == j) (serves now e) (turns_of j xs) refl (said-turns_of j xs)
said-turns_of j (pumps_at i ∷ xs) =
    said_unspoken (i == j) pumps (turns_of j xs) refl (said-turns_of j xs)
said-turns_of j (says_to_all now msg ∷ xs) =
    ap (λ t. invocation (broadcast_of now msg) ∷ t) (said-turns_of j xs)

module _ {T : Type 0} (p : Topic T) (laws : TopicLaws p) where
  -- Any number of connections, whose goroutines and clients take their turns in any order: what a
  -- connection has handed to its endpoint, what its pump has at hand and what waits for it are, behind
  -- its greeting, one uninterrupted stretch of the one conversation. So all pumps call endpoint.Go in one
  -- order, and none leaves a message out between two that it has; in which order the endpoint sends what
  -- it is handed is not stated. Before the requests the topic does not have the channels.
  pub room-stretch :
      (xs : List RoomTurn) (topics : ℕ → T) (j : ℕ)
      → ((i : ℕ) → laws.has (topics i) ≡ false)
      → (before : List Invocation) × (stretch : List Invocation) × (after : List Invocation)
        × (conversation xs ≡ before ++ (stretch ++ after))
        × (line (take_room_turns p xs (λ i. new_connection (topics i)) j)
            ≡ greetings p (turns_of j xs) (new_connection (topics j)) ++ stretch)
  room-stretch xs topics j outside =
      let ys = turns_of j xs in
      let (before, after, q) = accepted-stretch p laws ys (topics j) (outside j) in
      (
        before,
        accepted p laws.has ys (new_connection (topics j)),
        after,
        sym (said-turns_of j xs) ∙ q,
        ap line (take_room_turns-take_turns p xs (λ i. new_connection (topics i)) j)
            ∙ new_connection-line p laws ys (topics j) (outside j),
      )
