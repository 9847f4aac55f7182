-- ===== src/Redis/Stream/Sent.antt =====
-- What a sequence of WriteMessage publishes, and who reads it.
use mathlib.Core.Path.{subst}
use mathlib.Core.List.{append_cancel_left, append-nil}
use bimpc.Common.{ℕ, ◌≡◌, refl, sym, ap, ◌∙◌, Option, some, List, [], ◌∷◌, ◌++◌, length}
use bimpc.Memory.{Bytes}
use bimpc.Msgp.{AppenderLaws, DecoderLaws, Format}
use bimpc.Mpc.{Request, Value, Marshaler}
use bimpc.Mpc.Gen.Form.{message_form, Content}
use bimpc.Mpc.Appending.{Appends}
use bimpc.Shared.{Shared, IsShared}
use bimpc.Shared.Letter.{
  Letter, content_of, IsLetter, IsMail, parts, write_all, IsWritten, write_all-parts,
}
use bimpc.Redis.{Client, Codec, Published, write_message}
use bimpc.Redis.Kind.{IsMessage}
use bimpc.Redis.Read.{Popping}
use bimpc.Redis.Write.{Publishing, PublishingLaws, write_message-publishes}
use bimpc.Redis.Order.{redis_write-IsShared}
use bimpc.Redis.Stream.{
  Post, waiting_posts, IsPost, Carries, arrived, read_posts, read_posts-arrived,
}

module _ {Obj : Type 0} where
  -- Each letter's form, on the channel.
  abbrev pub publications : Format → Bytes → List (Letter Obj) → List (Bytes × Bytes)
  publications f channel ls = parts (λ l. (channel, message_form f (content_of l)) ∷ []) ls

  abbrev pub contents_of : List (Letter Obj) → List Content
  contents_of [] = []
  contents_of (l ∷ ls) = content_of l ∷ contents_of ls

-- Redis gives what is published on the channel to the subscription, in order: each value is of a kind of
-- messages and is what has been published.
abbrev pub IsGiven : Bytes → List (Bytes × Bytes) → List Post → Type 0
IsGiven channel [] [] = Unit
IsGiven channel [] (p ∷ ps) = ⊥
IsGiven channel (x ∷ xs) [] = ⊥
IsGiven channel (x ∷ xs) (p ∷ ps) =
    ((x.0 ≡ channel) × IsMessage x.1 p.value) × IsGiven channel xs ps

given-Carries :
    {Obj : Type 0} (f : Format) (as_marshaler : Value Obj → Option Marshaler) (out channel : Bytes)
    (ls : List (Letter Obj)) (ps : List Post)
    → IsMail f as_marshaler ls
    → IsGiven channel (publications f out ls) ps
    → Carries f ps (contents_of ls)
given-Carries f as_marshaler out channel [] [] m g = tt
given-Carries f as_marshaler out channel [] (p ∷ ps) m g = absurd g
given-Carries f as_marshaler out channel (l ∷ ls) [] m g = absurd g
given-Carries f as_marshaler out channel (l ∷ ls) (p ∷ ps) m g = (
  (
    m.0.2,
    subst (λ b. IsMessage b p.value) (sym (append-nil (message_form f (content_of l)))) g.0.1,
  ),
  given-Carries f as_marshaler out channel ls ps m.1 g.1,
)

module _ {Db Sub Conn Obj : Type 0} (n : Client Db Sub Conn)
    (as_marshaler : Value Obj → Option Marshaler) where
  write_message-out_channel :
      (pick : ℕ) (msg : Request Obj) (c : Codec Db Sub) (s : Shared)
      → (write_message n as_marshaler pick msg c s).1.out_channel ≡ c.out_channel
  unfolding write_message
  write_message-out_channel pick msg c s = refl

module _ {Db Sub Conn Obj : Type 0} (n : Client Db Sub Conn) (v : Publishing Db Conn)
    (publishing : PublishingLaws n v) (f : Format) (appender : AppenderLaws f n.appender)
    (as_marshaler : Value Obj → Option Marshaler) (appends : Appends as_marshaler) where
  write_all-publications :
      (ls : List (Letter Obj)) (c : Codec Db Sub) (s : Shared)
      → IsMail f as_marshaler ls
      → IsShared c.wire s
      → IsWritten (write_message n as_marshaler) ls c s
      → v.published (write_all (write_message n as_marshaler) ls c s).0.db
        ≡ v.published c.db ++ publications f c.out_channel ls
  write_all-publications ls c s m h done =
      write_all-parts (write_message n as_marshaler) (λ c. v.published c.db)
        (λ l. (c.out_channel, message_form f (content_of l)) ∷ [])
        (λ c' s. IsShared c'.wire s × (c'.out_channel ≡ c.out_channel)) (IsLetter f as_marshaler)
        (λ l c s h. (
          redis_write-IsShared n as_marshaler appends l.pick l.msg c s h.0,
          write_message-out_channel n as_marshaler l.pick l.msg c s ∙ h.1,
        ))
        (λ l c s one h done.
          write_message-publishes n v publishing as_marshaler f appender l.pick l.msg l.args
            l.result c s h.0 one.0 one.1 done
          ∙ ap (λ x. v.published c.db ++ ((x, message_form f (content_of l)) ∷ [])) h.1)
        ls c s m (h, refl) done

  module _ (decodes : DecoderLaws f n.decoder (λ b. b)) (waiting : Sub → Db → List Published)
      (popping : Popping n waiting) where
    -- Any number of messages, each with payloads that are absent or can be encoded, are written one
    -- after the other by a codec, none with an error. A codec that listens on a channel has a
    -- subscription that is given what has been published since, in order, with values without a message
    -- before, between and behind. Then as many reads, with fuel for one round more than there is to skip
    -- before any message, return without an error and deliver these messages, each once and in the order
    -- of their writing.
    pub write_all-read_posts :
        (ls : List (Letter Obj)) (fuel : ℕ) (ps : List Post) (into : List (Request Obj))
        (new_values : List (Bytes × Bytes)) (later : List Published) (sub : Sub)
        (a b : Codec Db Sub) (s t : Shared)
        → IsMail f as_marshaler ls
        → length into ≡ length ps
        → IsShared a.wire s
        → IsShared b.wire t
        → IsWritten (write_message n as_marshaler) ls a s
        → v.published (write_all (write_message n as_marshaler) ls a s).0.db
          ≡ v.published a.db ++ new_values
        → IsGiven b.in_channel new_values ps
        → IsPost fuel ps
        → b.sub ≡ some sub
        → waiting sub b.db ≡ waiting_posts ps ++ later
        → read_posts n fuel into b t ≡ some (arrived (contents_of ls))
    write_all-read_posts ls fuel ps into new_values later sub a b s t m e ha hb done link given
          posts has waits =
        read_posts-arrived f n decodes waiting popping fuel ps (contents_of ls) into later sub b t
          posts
          (given-Carries f as_marshaler a.out_channel b.in_channel ls ps m
            (subst (λ x. IsGiven b.in_channel x ps) same given))
          e hb has waits
      where
        same : new_values ≡ publications f a.out_channel ls
        same =
            append_cancel_left (v.published a.db) _ _
              (sym link ∙ write_all-publications ls a s m ha done)
