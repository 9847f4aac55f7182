-- ===== src/Tests/Closing.antt =====
-- Close and ReadMessage of redis in steps, over the database of Sample/Database.antt.
use bimpc.Common.{ℕ, ◌≡◌, refl, none, some, List, [], ◌∷◌, ◌++◌, arith}
use bimpc.Action.{foreign}
use bimpc.Redis.{Codec, payload_of, contains, setup_subscription, first_error}
use bimpc.Redis.Protocol.Kept.{Call, rounds}
use bimpc.Redis.Lifecycle.{setup_subscription-IsSetUp, IsSetUp}
use bimpc.Redis.Concurrent.{
  Listener, Move, Reader, reads, steps, closes, moves, idle, looping, waiting, nil_pointer, away,
  lost,
}
use bimpc.Redis.Concurrent.Resubscribes.{whole_close, resumed, close-resubscribes}
use bimpc.Redis.Concurrent.NilPointer.{
  IsGuarded, moves-IsGuarded, close-popping_nil, close-closing_nil,
}
use bimpc.Sample.{Item}
use bimpc.Sample.Database.{
  SampleDatabase, sample_client, refusing_client, refusing_client-SubscriptionLaws,
}
use bimpc.Tests.{no_request, start}
use bimpc.Tests.Redis.{codec, database, confirmation, no_value, delivery}

abbrev unsubscribed : Codec SampleDatabase ℕ
unsubscribed = record codec { sub = none }

setup_subscription-IsSetUp_example :
    IsSetUp refusing_client
      (λ db. db.open_subscriptions)
      (5 ∷ 4 ∷ [])
      (setup_subscription refusing_client unsubscribed)
setup_subscription-IsSetUp_example =
    setup_subscription-IsSetUp refusing_client (λ db. db.open_subscriptions)
      refusing_client-SubscriptionLaws unsubscribed refl

abbrev listening : Reader ℕ Item → Listener SampleDatabase ℕ Item
listening r = record { codec = codec; shared = start; reader = r; closers = λ i. away none }

-- ReadMessage is called without a subscription, meets a confirmation, and waits once more.
abbrev called : List (Move Item)
called = reads no_request ∷ steps ∷ steps ∷ steps ∷ steps ∷ steps ∷ steps ∷ steps ∷ steps ∷ []

moves-IsGuarded_example :
    let l' = moves sample_client called (record (listening idle) { codec = unsubscribed }) in
    IsGuarded l'.reader l'.codec.sub
moves-IsGuarded_example =
    moves-IsGuarded sample_client called (record (listening idle) { codec = unsubscribed })
      (tt, (tt, (tt, (tt, (tt, (tt, (tt, (tt, (tt, tt))))))))) tt

close-popping_nil_example :
    (moves sample_client
      (steps ∷ (whole_close 0 ++ (steps ∷ [])))
      (listening (looping no_request))).reader
    ≡ nil_pointer
close-popping_nil_example =
    close-popping_nil sample_client 0 (listening (looping no_request)) no_request none 5 refl refl
      refl

close-closing_nil_example :
    (moves sample_client
        (closes 0 ∷ closes 1 ∷ closes 0 ∷ closes 0 ∷ closes 0 ∷ closes 1 ∷ [])
        (listening idle)).closers
      1
    ≡ lost
close-closing_nil_example =
    close-closing_nil sample_client 0 1 (listening idle) none none 5
      (λ h. absurd (omega (arith, h))) refl refl refl

-- The database after Close, after the Pop, and after the Subscription that follows.
abbrev closed_one : SampleDatabase
closed_one = record database { open_subscriptions = 4 ∷ [] }

abbrev popped_one : SampleDatabase
popped_one = record closed_one { waiting = no_value ∷ delivery ∷ confirmation ∷ [] }

abbrev subscribed_again : SampleDatabase
subscribed_again = record popped_one { open_subscriptions = 5 ∷ 4 ∷ [] }

no_payload : payload_of confirmation ≡ none
unfolding payload_of contains
no_payload = refl

close-resubscribes_example :
    let t = moves sample_client (whole_close 3) (listening (waiting no_request 5)) in
    let u = moves sample_client resumed t in
    (t.codec ≡ record codec { db = closed_one; sub = none })
    × (t.reader ≡ waiting no_request 5)
    × (t.closers 3 ≡ away (first_error sample_client (some (foreign 6)) none))
    × (u.codec ≡ record codec { db = subscribed_again; sub = some 5 })
    × (u.reader ≡ waiting no_request 5)
close-resubscribes_example =
    close-resubscribes sample_client 3 (listening (waiting no_request 5)) no_request 5 5
      confirmation none (some (foreign 6)) none database closed_one popped_one subscribed_again
      subscribed_again refl refl refl refl refl refl no_payload refl refl

-- A round that subscribes and meets a confirmation, two Closes, and two more rounds.
abbrev rounds_and_closes : List (Call Item)
rounds_and_closes =
    rounds no_request ∷ Call.closes ∷ Call.closes ∷ rounds no_request ∷ rounds no_request ∷ []
