-- ===== src/Tests/Posts.antt =====
-- Two messages over a channel of redis, with a confirmation before them and one between them.
use bimpc.Common.{◌≡◌, refl, inl, some, List, [], ◌∷◌, ◌++◌, arith, ℕ}
use bimpc.Memory.{Bytes}
use bimpc.Mpc.{to_wire, get_message, put_message}
use bimpc.Mpc.Gen.{marshal_message}
use bimpc.Mpc.Gen.Form.{message_form}
use bimpc.Shared.{pooled}
use bimpc.Shared.Letter.{IsWritten, write_all, content_of}
use bimpc.Redis.{Codec, Published, write_message, message_kind}
use bimpc.Redis.Stream.{Post, arrived, waiting_posts, read_posts}
use bimpc.Redis.Stream.Sent.{publications, contents_of, write_all-read_posts}
use bimpc.Sample.{sample_format, item_marshaler, append_form, big_endian}
use bimpc.Sample.Laws.{
  text-Encodes, item_marshaler-Appends, sample_appender-AppenderLaws, sample_decoder-DecoderLaws,
}
use bimpc.Sample.Database.{
  SampleDatabase, sample_client, sample_publishing, sample_client-Popping,
  sample_client-PublishingLaws,
}
use bimpc.Tests.{question, no_request, start, start-IsShared, question-IsSendable}
use bimpc.Tests.Redis.{confirmation, other_kind, codec}
use bimpc.Tests.Stream.{first_letter, second_letter, letters, farewell-IsSendable}

abbrev value_of : Bytes → Published
value_of b = record { kind = message_kind; value = some b }

abbrev posts : List Post
posts =
    record {
      skipped = confirmation ∷ [];
      value = value_of (message_form sample_format (content_of first_letter));
    }
    ∷ record {
      skipped = confirmation ∷ [];
      value = value_of (message_form sample_format (content_of second_letter));
    }
    ∷ []

abbrev listener : Codec SampleDatabase ℕ
listener = record codec {
  db = record codec.db { waiting = waiting_posts posts ++ (confirmation ∷ []) };
  in_channel = b'b' ∷ [];
  out_channel = b'a' ∷ [];
}

letters_published : IsWritten (write_message sample_client item_marshaler) letters codec start
unfolding write_message pooled to_wire item_marshaler append_form marshal_message get_message
letters_published = (refl, (refl, tt))

posts_link :
    (write_all (write_message sample_client item_marshaler) letters codec start).0.db.published
    ≡ ((1 ∷ [], 2 ∷ []) ∷ []) ++ publications sample_format (b'b' ∷ []) letters
unfolding write_message pooled to_wire item_marshaler append_form marshal_message big_endian
    get_message put_message
posts_link = refl

write_all-read_posts_example :
    read_posts sample_client 2 (no_request ∷ question ∷ []) listener start
    ≡ some (arrived (contents_of letters))
write_all-read_posts_example =
    write_all-read_posts sample_client sample_publishing sample_client-PublishingLaws sample_format
      sample_appender-AppenderLaws item_marshaler item_marshaler-Appends sample_decoder-DecoderLaws
      (λ sub db. db.waiting) sample_client-Popping letters 2 posts (no_request ∷ question ∷ [])
      (publications sample_format (b'b' ∷ []) letters) (confirmation ∷ []) 5 codec listener start
      start
      (
        (text-Encodes (b'h' ∷ b'i' ∷ []), refl, question-IsSendable),
        ((text-Encodes (b'o' ∷ []), refl, farewell-IsSendable), tt),
      )
      refl start-IsShared start-IsShared letters_published posts_link
      ((refl, (([], [], refl), refl)), ((refl, (([], [], refl), refl)), tt))
      ((omega arith, (inl other_kind, tt)), ((omega arith, (inl other_kind, tt)), tt)) refl refl
