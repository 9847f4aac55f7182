-- ===== src/Tests/Redis.antt =====
-- The theorems about redis at concrete inputs, over the database of Sample/Database.antt.
use bimpc.Common.{inl, inr, true, false, ◌≡◌, refl, none, some, [], ◌∷◌, ◌++◌, arith, ℕ}
use bimpc.Mpc.{to_wire}
use bimpc.Mpc.Gen.{marshal_message}
use bimpc.Shared.{pooled}
use bimpc.Redis.{
  Codec, Published, Returned, contains, payload_of, read_message, write_message, message_kind,
}
use bimpc.Redis.Kind.{IsWithin, contains-IsWithin}
use bimpc.Redis.Read.{redis_read_lem, Delivers}
use bimpc.Redis.Write.{write_message-taken}
use bimpc.Sample.{sample_format, Item, item_marshaler, append_form}
use bimpc.Sample.Laws.{sample_decoder-DecoderLaws}
use bimpc.Sample.Database.{
  SampleDatabase, sample_client, sample_publishing, sample_client-Popping,
  sample_client-PublishingLaws,
}
use bimpc.Tests.{
  question, answer, no_request, answer_form, wire, start, start-IsShared, answer-IsSendable,
}

-- The confirmation of a subscription, a message without a value, and an answer as a pattern message.
abbrev pub confirmation : Published
confirmation = record { kind = b's' ∷ b'u' ∷ b'b' ∷ []; value = some (49 ∷ []) }

abbrev pub no_value : Published
no_value = record { kind = message_kind; value = none }

abbrev pub delivery : Published
delivery = record { kind = 112 ∷ message_kind; value = some (answer_form ++ []) }

abbrev pub database : SampleDatabase
database = record {
  waiting = confirmation ∷ no_value ∷ delivery ∷ confirmation ∷ [];
  published = (1 ∷ [], 2 ∷ []) ∷ [];
  taken = 3 ∷ [];
  open_subscriptions = 5 ∷ 4 ∷ [];
}

abbrev pub codec : Codec SampleDatabase ℕ
codec = record {
  db = database;
  in_channel = b'a' ∷ [];
  out_channel = b'b' ∷ [];
  sub = some 5;
  wire = wire;
  buf = 7 ∷ 7 ∷ [];
}

pub other_kind : ¬ IsWithin message_kind (b's' ∷ b'u' ∷ b'b' ∷ [])
unfolding contains
other_kind within = false_true (contains-IsWithin (b's' ∷ b'u' ∷ b'b' ∷ []) message_kind within)
  where
    false_true : ¬ (false ≡ true)
    false_true h = absurd (cc)

redis_read_lem_example :
    (r : Returned SampleDatabase ℕ Item) × (read_message sample_client 3 no_request codec start
      ≡ some r)
    × Delivers (λ sub db. db.waiting) answer 5 (confirmation ∷ []) r
unfolding payload_of contains
redis_read_lem_example =
    redis_read_lem sample_format sample_client sample_decoder-DecoderLaws (λ sub db. db.waiting)
      sample_client-Popping answer answer-IsSendable [] delivery ((112 ∷ [], [], refl), refl)
      (confirmation ∷ []) 5 (confirmation ∷ no_value ∷ []) 3 no_request codec start (omega arith)
      (inl other_kind, (inr refl, tt)) start-IsShared refl refl

write_message-taken_example :
    (write_message sample_client item_marshaler 0 question codec start).1.db.taken ≡ 3 ∷ []
write_message-taken_example =
    write_message-taken sample_client sample_publishing sample_client-PublishingLaws item_marshaler
      0 question codec start

written : (write_message sample_client item_marshaler 0 question codec start).0 ≡ none
unfolding write_message pooled to_wire item_marshaler append_form marshal_message
written = refl
