-- ===== src/Generic/Concurrent/Arrived.antt =====
-- What arrives at the other end of the connection when several goroutines write.
use mathlib.Core.List.{append_cancel_left, append-nil}
use bimpc.Common.{◌≡◌, refl, sym, ap, ◌∙◌, Option, List, [], ◌∷◌, ◌++◌, length, All}
use bimpc.Memory.{Bytes}
use bimpc.Msgp.{DecoderLaws, EncoderLaws, FlushLaws, Format}
use bimpc.Mpc.{Request, Value, Marshaler}
use bimpc.Mpc.Gen.Form.{IsSendable, message_form}
use bimpc.Mpc.ToWire.{sent}
use bimpc.Mpc.Appending.{Appends}
use bimpc.Shared.{Shared, IsShared}
use bimpc.Shared.Letter.{Letter, arriving, IsMail}
use bimpc.Generic.{Connection, Codec}
use bimpc.Generic.Stream.{read_all, read_all-forms, forms as stream_forms}
use bimpc.Generic.Concurrent.{System, Step, take_steps}
use bimpc.Generic.Concurrent.Invariant.{IsSystem}
use bimpc.Generic.Concurrent.Sent.{handed_over, AreSent, IsEncoded, forms, take_steps-forms}

module _ {Obj : Type 0} (payloads : Request Obj → Bytes × Bytes) where
  -- The messages as letters.
  abbrev pub letters_of : List (Request Obj) → List (Letter Obj)
  letters_of [] = []
  letters_of (msg ∷ msgs) =
      record { msg = msg; args = (payloads msg).0; result = (payloads msg).1; pick = 0 }
      ∷ letters_of msgs

  -- Each message, with its payloads as they are encoded, fits the format.
  abbrev pub AreSendable : Format → List (Request Obj) → Type 0
  AreSendable f msgs = All (λ msg. IsSendable f (sent msg (payloads msg).0 (payloads msg).1)) msgs

  letters_of-forms :
      (f : Format) (msgs : List (Request Obj))
      → forms f payloads msgs ≡ stream_forms f (letters_of msgs)
  letters_of-forms f [] = refl
  letters_of-forms f (msg ∷ msgs) =
      ap (λ b. message_form f (sent msg (payloads msg).0 (payloads msg).1) ++ b)
        (letters_of-forms f msgs)

module _ {C R W Obj : Type 0} (f : Format) (n : Connection C R W) (output sent_out : W → Bytes)
    (encodes : EncoderLaws f n.encoder output) (flushes : FlushLaws n.encoder output sent_out)
    (keeps : FlushLaws n.encoder output output) (input : R → Bytes)
    (reads_in : DecoderLaws f n.decoder input) (as_marshaler : Value Obj → Option Marshaler)
    (appends : Appends as_marshaler) (payloads : Request Obj → Bytes × Bytes) where
  letters_of-IsMail :
      (msgs : List (Request Obj))
      → All (IsEncoded as_marshaler payloads) msgs
      → AreSendable payloads f msgs
      → IsMail f as_marshaler (letters_of payloads msgs)
  letters_of-IsMail [] enc fits = tt
  letters_of-IsMail (msg ∷ msgs) enc fits =
      ((enc.0.0, enc.0.1, fits.0), letters_of-IsMail msgs enc.1 fits.1)

  -- Any number of goroutines call WriteMessage at one end of a connection, and their steps come in any
  -- order, with ReadMessage in between. No message fails to be sent once ToWire has accepted it, and what
  -- has reached the connection is what is to be read at the other end. Then as many reads there as
  -- messages were sent return no error and deliver these messages, each once and as a whole, in the order
  -- in which their goroutines held the lock.
  pub take_steps-read_all :
      (xs : List (Step Obj)) (before : Bytes) (a : System C R W Obj) (into : List (Request Obj))
      (b : Codec C R W) (t : Shared)
      → IsSystem as_marshaler a
      → output a.codec.w ≡ before
      → sent_out a.codec.w ≡ before
      → AreSent n as_marshaler xs a
      → All (IsEncoded as_marshaler payloads) (handed_over n as_marshaler xs a)
      → AreSendable payloads f (handed_over n as_marshaler xs a)
      → sent_out (take_steps n as_marshaler xs a).codec.w ≡ before ++ input b.r
      → length into ≡ length (letters_of payloads (handed_over n as_marshaler xs a))
      → IsShared b.wire t
      → read_all n into b t ≡ arriving (letters_of payloads (handed_over n as_marshaler xs a))
  take_steps-read_all xs before a into b t h o so done enc fits link len hb =
      read_all-forms f n input reads_in as_marshaler
        (letters_of payloads (handed_over n as_marshaler xs a)) into [] b t
        (letters_of-IsMail (handed_over n as_marshaler xs a) enc fits) len hb
        (append_cancel_left before _ _ (
            sym link
            ∙ take_steps-forms f n output sent_out encodes flushes keeps input reads_in as_marshaler
                appends payloads xs before a h o so done enc)
          ∙ letters_of-forms payloads f (handed_over n as_marshaler xs a)
          ∙ sym (append-nil _))
