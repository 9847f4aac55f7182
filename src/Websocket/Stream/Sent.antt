-- ===== src/Websocket/Stream/Sent.antt =====
-- A sequence of messages from one codec to another, a frame for each.
use mathlib.Core.List.{append_cancel_left, append-nil}
use bimpc.Common.{ℕ, suc, ◌≡◌, refl, sym, ap, ◌∙◌, Option, List, [], ◌∷◌, ◌++◌, length}
use bimpc.Memory.{Bytes}
use bimpc.Action.{Result, ok}
use bimpc.Msgp.{EncoderLaws, FlushLaws, DecoderLaws, Format}
use bimpc.Mpc.{Request, Value, Marshaler}
use bimpc.Mpc.Gen.Form.{message_form, Content, received_content}
use bimpc.Mpc.Appending.{Appends}
use bimpc.Shared.{Shared, IsShared}
use bimpc.Shared.Letter.{
  Letter, content_of, IsLetter, IsMail, parts, write_all, IsWritten, write_all-parts,
}
use bimpc.Websocket.{Socket, Codec, write_message}
use bimpc.Websocket.Read.{FrameReading}
use bimpc.Websocket.Write.{Sending, FrameWriting, write_message-frames, write_message-IsShared}
use bimpc.Websocket.Stream.{
  Arrival, binary, frames_of, IsArrival, answers, read_frames, FrameOrder, read_frames-arrivals,
}

module _ {Obj : Type 0} where
  -- Each letter's form.
  abbrev pub forms : Format → List (Letter Obj) → List Bytes
  forms f ls = parts (λ l. message_form f (content_of l) ∷ []) ls

  -- The frames as they arrive, each with nothing behind the message.
  abbrev arrivals : List (Letter Obj) → List Arrival
  arrivals [] = []
  arrivals (l ∷ ls) = binary (content_of l) [] ∷ arrivals ls

  abbrev pub delivered_letters : List (Letter Obj) → List (Result Content)
  delivered_letters [] = []
  delivered_letters (l ∷ ls) = ok (received_content (content_of l)) ∷ delivered_letters ls

  arrivals-IsArrival :
      (f : Format) (as_marshaler : Value Obj → Option Marshaler) (k : ℕ) (ls : List (Letter Obj))
      → IsMail f as_marshaler ls
      → IsArrival f k (arrivals ls)
  arrivals-IsArrival f as_marshaler k [] m = tt
  arrivals-IsArrival f as_marshaler k (l ∷ ls) m =
      (m.0.2, arrivals-IsArrival f as_marshaler k ls m.1)

  answers-arrivals : (ls : List (Letter Obj)) → answers (arrivals ls) ≡ delivered_letters ls
  answers-arrivals [] = refl
  answers-arrivals (l ∷ ls) =
      ap (λ t. ok (received_content (content_of l)) ∷ t) (answers-arrivals ls)

  length-arrivals : (ls : List (Letter Obj)) → length (arrivals ls) ≡ length ls
  length-arrivals [] = refl
  length-arrivals (l ∷ ls) = ap suc (length-arrivals ls)

-- The other end gets each frame that was sent as a binary one.
abbrev pub as_binary : ℕ → List Bytes → List (ℕ × Bytes)
as_binary k [] = []
as_binary k (b ∷ bs) = (k, b) ∷ as_binary k bs

as_binary-forms :
    {Obj : Type 0} (f : Format) (k : ℕ) (ls : List (Letter Obj))
    → as_binary k (forms f ls) ≡ frames_of f k (arrivals ls)
as_binary-forms f k [] = refl
as_binary-forms f k (l ∷ ls) = rw (as_binary-forms f k ls) (
    ap (λ b. (k, b) ∷ frames_of f k (arrivals ls))
      (sym (append-nil (message_form f (content_of l)))))

module _ {Ws Src Dst R W Obj : Type 0} (f : Format) (n : Socket Ws Src Dst R W) (v : Sending Ws Dst)
    (output : Ws × W → Bytes) (writing : FrameWriting n v output)
    (laws : EncoderLaws f n.encoder output)
    (flushes : FlushLaws n.encoder output (λ x. v.frame x.0))
    (as_marshaler : Value Obj → Option Marshaler) (appends : Appends as_marshaler) where
  write_all-frames :
      (ls : List (Letter Obj)) (c : Codec Ws R W) (s : Shared)
      → IsMail f as_marshaler ls
      → IsShared c.wire s
      → IsWritten (write_message n as_marshaler) ls c s
      → v.frames (write_all (write_message n as_marshaler) ls c s).0.ws
        ≡ v.frames c.ws ++ forms f ls
  write_all-frames ls c s m h done =
      write_all-parts (write_message n as_marshaler) (λ c. v.frames c.ws)
        (λ l. message_form f (content_of l) ∷ []) (λ c s. IsShared c.wire s)
        (IsLetter f as_marshaler) (λ l. write_message-IsShared n as_marshaler appends l.pick l.msg)
        (λ l c s one h.
          write_message-frames f n v output writing laws flushes as_marshaler l.pick l.msg l.args
            l.result c s h one.0 one.1)
        ls c s m h done

  module _ (input : Ws × R → Bytes) (reads : DecoderLaws f n.decoder input)
      (incoming : Ws → List (ℕ × Bytes)) (reading : FrameReading n input incoming)
      (order : FrameOrder n incoming) where
    -- Any number of messages, each with payloads that are absent or can be encoded, are written one
    -- after the other at one end of a websocket, none with an error, and the frames that have been sent
    -- since are what arrives at the other end. Then as many reads deliver these messages, each once and
    -- in the order of their writing, whatever the msgp.Reader and the msgp.Writer had buffered.
    pub write_all-read_frames :
        (ls : List (Letter Obj)) (into : List (Request Obj)) (new_frames : List Bytes)
        (later : List (ℕ × Bytes)) (a b : Codec Ws R W) (s t : Shared)
        → IsMail f as_marshaler ls
        → length into ≡ length ls
        → IsShared a.wire s
        → IsShared b.wire t
        → IsWritten (write_message n as_marshaler) ls a s
        → v.frames (write_all (write_message n as_marshaler) ls a s).0.ws
          ≡ v.frames a.ws ++ new_frames
        → incoming b.ws ≡ as_binary n.binary_message new_frames ++ later
        → read_frames n into b t ≡ delivered_letters ls
    write_all-read_frames ls into new_frames later a b s t m e ha hb done link arrive =
        read_frames-arrivals f n input reads incoming reading order (arrivals ls) into later b t
          (arrivals-IsArrival f as_marshaler n.binary_message ls m) (e ∙ sym (length-arrivals ls))
          hb
          (arrive
            ∙ ap (λ x. as_binary n.binary_message x ++ later) same
            ∙ ap (λ x. x ++ later) (as_binary-forms f n.binary_message ls))
        ∙ answers-arrivals ls
      where
        same : new_frames ≡ forms f ls
        same = append_cancel_left (v.frames a.ws) _ _ (sym link ∙ write_all-frames ls a s m ha done)
