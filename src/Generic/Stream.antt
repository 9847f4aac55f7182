-- ===== src/Generic/Stream.antt =====
-- A sequence of messages from one codec to another.
use mathlib.Core.List.{append_cancel_left, append_assoc, append-nil}
use bimpc.Common.{◌≡◌, refl, sym, ap, ◌∙◌, Option, List, [], ◌∷◌, ◌++◌, length, arith}
use bimpc.Memory.{Bytes}
use bimpc.Action.{GoError}
use bimpc.Msgp.{EncoderLaws, FlushLaws, DecoderLaws, Format}
use bimpc.Mpc.{Request, Value, Marshaler}
use bimpc.Mpc.Gen.Form.{message_form, Content}
use bimpc.Mpc.Appending.{Appends}
use bimpc.Mpc.FromWire.{delivered}
use bimpc.Shared.{Shared, IsShared}
use bimpc.Shared.Letter.{Letter, content_of, arriving, IsMail, parts, write_all, IsWritten}
use bimpc.Generic.{Connection, Codec, write_message, read_message}
use bimpc.Generic.Read.{read_message_lem, read_message-IsShared}
use bimpc.Generic.Write.{write_message_lem, write_message-IsShared}

abbrev pub forms : {Obj : Type 0} → Format → List (Letter Obj) → Bytes
forms f ls = parts (λ l. message_form f (content_of l)) ls

module _ {C R W Obj : Type 0} (n : Connection C R W) where
  -- One ReadMessage after the other, each into the next of the messages `into`.
  abbrev pub read_all : List (Request Obj) → Codec C R W → Shared → List (Option GoError × Content)
  read_all [] c s = []
  read_all (into ∷ more) c s =
      let (e, msg, c', s') = read_message n into c s in
      (e, delivered s'.mem msg) ∷ read_all more c' s'

module _ {C R W Obj : Type 0} (f : Format) (n : Connection C R W) (input : R → Bytes)
    (reads : DecoderLaws f n.decoder input) (as_marshaler : Value Obj → Option Marshaler) where
  pub read_all-forms :
      (ls : List (Letter Obj)) (into : List (Request Obj)) (rest : Bytes) (c : Codec C R W)
      (s : Shared)
      → IsMail f as_marshaler ls
      → length into ≡ length ls
      → IsShared c.wire s
      → input c.r ≡ forms f ls ++ rest
      → read_all n into c s ≡ arriving ls
  read_all-forms [] [] rest c s m e h i = refl
  read_all-forms [] (x ∷ xs) rest c s m e h i = absurd (omega (arith, e))
  read_all-forms (l ∷ ls) [] rest c s m e h i = absurd (omega (arith, e))
  read_all-forms (l ∷ ls) (x ∷ xs) rest c s m e h i =
      let (done, same, left) =
        read_message_lem f n input reads (content_of l) (forms f ls ++ rest) x c s m.0.2 h
          (i ∙ append_assoc (message_form f (content_of l)) (forms f ls) rest) in
      let (e', msg, c', s') = read_message n x c s in
      rw (
        done,
        same,
        read_all-forms ls xs rest c' s' m.1 (omega (arith, e))
            (read_message-IsShared f n input reads x c s h) left,
      )

module _ {C R W Obj : Type 0} (f : Format) (n : Connection C R W) (output sent_out : W → Bytes)
    (encodes : EncoderLaws f n.encoder output) (flushes : FlushLaws n.encoder output sent_out)
    (keeps : FlushLaws n.encoder output output) (as_marshaler : Value Obj → Option Marshaler)
    (appends : Appends as_marshaler) where
  write_all-forms :
      (l : Letter Obj) (ls : List (Letter Obj)) (c : Codec C R W) (s : Shared)
      → IsMail f as_marshaler (l ∷ ls)
      → IsShared c.wire s
      → IsWritten (write_message n as_marshaler) (l ∷ ls) c s
      → sent_out (write_all (write_message n as_marshaler) (l ∷ ls) c s).0.w
        ≡ output c.w ++ forms f (l ∷ ls)
  write_all-forms l [] c s m h (done, _) =
      write_message_lem f n output sent_out encodes flushes as_marshaler l.pick l.msg l.args
        l.result c s h m.0.0 m.0.1 done
      ∙ ap (λ b. output c.w ++ b) (sym (append-nil (message_form f (content_of l))))
  write_all-forms l (l' ∷ ls) c s m h (done, later) =
      let (e, c', s') = write_message n as_marshaler l.pick l.msg c s in
      write_all-forms l' ls c' s' m.1
        (write_message-IsShared n as_marshaler appends l.pick l.msg c s h) later
      ∙ ap (λ b. b ++ forms f (l' ∷ ls))
          (write_message_lem f n output output encodes keeps as_marshaler l.pick l.msg l.args
            l.result c s h m.0.0 m.0.1 done)
      ∙ append_assoc (output c.w) (message_form f (content_of l)) (forms f (l' ∷ ls))

  module _ (input : R → Bytes) (reads : DecoderLaws f n.decoder input) where
    -- Any number of messages, each with payloads that are absent or can be encoded, are written one
    -- after the other at one end of a connection, none with an error, and what has reached the
    -- connection since is what is to be read at the other end. Then as many reads return no error and
    -- deliver these messages, each once and in the order of their writing, whichever messages the pool
    -- gave out.
    pub write_all-read_all :
        (ls : List (Letter Obj)) (into : List (Request Obj)) (a b : Codec C R W) (s t : Shared)
        → IsMail f as_marshaler ls
        → length into ≡ length ls
        → IsShared a.wire s
        → IsShared b.wire t
        → IsWritten (write_message n as_marshaler) ls a s
        → sent_out (write_all (write_message n as_marshaler) ls a s).0.w ≡ output a.w ++ input b.r
        → read_all n into b t ≡ arriving ls
    write_all-read_all [] [] a b s t m e ha hb done link = refl
    write_all-read_all [] (x ∷ xs) a b s t m e ha hb done link = absurd (omega (arith, e))
    write_all-read_all (l ∷ ls) into a b s t m e ha hb done link =
        read_all-forms f n input reads as_marshaler (l ∷ ls) into [] b t m e hb (
          append_cancel_left (output a.w) _ _ (sym link ∙ write_all-forms l ls a s m ha done)
          ∙ sym (append-nil (forms f (l ∷ ls))))
