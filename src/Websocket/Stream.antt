-- ===== src/Websocket/Stream.antt =====
-- A sequence of frames, read by one ReadMessage after the other.
pub mod Sent
use mathlib.Core.Path.{subst}
use mathlib.Core.List.{append_cancel_left, append_assoc}
use bimpc.Common.{
  ℕ, ◌≡◌, ◌≢◌, refl, sym, ap, ◌∙◌, ◌==◌, inl, inr, Bool-cases, Option, none, some, List, [], ◌∷◌,
  ◌++◌, length, arith,
}
use bimpc.Memory.{Bytes}
use bimpc.Action.{GoError, Result, ok, err, invalid_msg}
use bimpc.Msgp.{DecoderLaws, Format}
use bimpc.Mpc.{Request}
use bimpc.Mpc.Gen.Form.{message_form, IsSendable, Content, received_content}
use bimpc.Mpc.Gen.Keep.{DecoderKeeps, decode_message-Kept}
use bimpc.Mpc.FromWire.{delivered}
use bimpc.Shared.{Shared, IsShared}
use bimpc.Websocket.{Socket, Codec, read_frame, read_next, read_message}
use bimpc.Websocket.Read.{FrameReading, binary_frame_lem, other_frame_lem, read_message-IsShared}

-- A frame that arrives: a binary one that begins with the form of a message, or one of another type.
pub data Arrival : Type 0 where
  binary : Content → Bytes → Arrival
  other : ℕ → Bytes → Arrival

abbrev pub frames_of : Format → ℕ → List Arrival → List (ℕ × Bytes)
frames_of f binary_message [] = []
frames_of f binary_message (binary c₀ behind ∷ xs) =
    (binary_message, message_form f c₀ ++ behind) ∷ frames_of f binary_message xs
frames_of f binary_message (other mt b ∷ xs) = (mt, b) ∷ frames_of f binary_message xs

abbrev pub IsArrival : Format → ℕ → List Arrival → Type 0
IsArrival f binary_message [] = Unit
IsArrival f binary_message (binary c₀ behind ∷ xs) = IsSendable f c₀ × IsArrival f binary_message xs
IsArrival f binary_message (other mt b ∷ xs) = (mt ≢ binary_message) × IsArrival f binary_message xs

-- What each of the frames should make of a ReadMessage.
abbrev pub answers : List Arrival → List (Result Content)
answers [] = []
answers (binary c₀ behind ∷ xs) = ok (received_content c₀) ∷ answers xs
answers (other mt b ∷ xs) = err invalid_msg ∷ answers xs

-- The message counts only where there is no error.
abbrev pub answer_of : Option GoError → Content → Result Content
answer_of none c₀ = ok c₀
answer_of (some e) c₀ = err e

module _ {Ws Src Dst R W : Type 0} (n : Socket Ws Src Dst R W) where
  -- One ReadMessage after the other, each into the next of the messages `into`.
  abbrev pub read_frames :
      {Obj : Type 0} → List (Request Obj) → Codec Ws R W → Shared → List (Result Content)
  read_frames [] c s = []
  read_frames (into ∷ more) c s =
      let (e, msg, c', s') = read_message n into c s in
      answer_of e (delivered s'.mem msg) ∷ read_frames more c' s'

  -- NextReader takes the next frame and with it what has not been read of the frame before; a
  -- msgp.Reader reads from the frame that it is reset to only.
  pub record FrameOrder (frames : Ws → List (ℕ × Bytes)) : Type 0 where
    pub takes :
        (ws : Ws) (mt : ℕ) (b : Bytes) (later : List (ℕ × Bytes))
        → frames ws ≡ (mt, b) ∷ later
        → frames (n.next_reader ws).3 ≡ later
    pub keeps : (later : List (ℕ × Bytes)) → DecoderKeeps n.decoder (λ x. frames x.0 ≡ later)

  module _ (frames : Ws → List (ℕ × Bytes)) (order : FrameOrder frames) {Obj : Type 0} where
    -- ReadMessage takes one frame, whatever that is and wherever it fails.
    read_message-frames :
        (mt : ℕ) (b : Bytes) (later : List (ℕ × Bytes)) (msg : Request Obj) (c : Codec Ws R W)
        (s : Shared)
        → frames c.ws ≡ (mt, b) ∷ later
        → frames (read_message n msg c s).2.ws ≡ later
    unfolding read_message read_next read_frame
    read_message-frames mt b later msg c s next =
        go (n.next_reader c.ws) (order.takes c.ws mt b later next)
      where
        go :
            (x : ℕ × Src × Option GoError × Ws)
            → frames x.3 ≡ later
            → frames (read_next n msg c s x).2.ws ≡ later
        go (mt, src, some e, ws') h = h
        go (mt, src, none, ws') h = elim (Bool-cases (mt == n.binary_message)) [
          | inl is_binary ↦ rw is_binary (
              (decode_message-Kept n.decoder _ (order.keeps later)).keeps
                (record { z = c.wire; mem = s.mem; rd = (ws', n.reset_reader src c.r) }) h)
          | inr not_binary ↦ rw not_binary h
        ]

module _ {Ws Src Dst R W Obj : Type 0} (f : Format) (n : Socket Ws Src Dst R W)
    (input : Ws × R → Bytes) (laws : DecoderLaws f n.decoder input) (frames : Ws → List (ℕ × Bytes))
    (reading : FrameReading n input frames) (order : FrameOrder n frames) where
  -- As many reads as there are frames: each binary frame that begins with the form of a message is
  -- delivered as that message, each frame of another type is answered with ErrInvalidMsg, in the order of
  -- the frames. What follows a message in its frame and a frame that was refused have no effect on the
  -- next read.
  pub read_frames-arrivals :
      (xs : List Arrival) (into : List (Request Obj)) (later : List (ℕ × Bytes)) (c : Codec Ws R W)
      (s : Shared)
      → IsArrival f n.binary_message xs
      → length into ≡ length xs
      → IsShared c.wire s
      → frames c.ws ≡ frames_of f n.binary_message xs ++ later
      → read_frames n into c s ≡ answers xs
  read_frames-arrivals [] [] later c s m e h next = refl
  read_frames-arrivals [] (x ∷ into) later c s m e h next = absurd (omega (arith, e))
  read_frames-arrivals (x ∷ xs) [] later c s m e h next = absurd (omega (arith, e))
  read_frames-arrivals (binary c₀ behind ∷ xs) (x ∷ into) later c s m e h next =
      let (done, same) =
        binary_frame_lem f n input laws frames reading c₀ behind _ x c s m.0 h next in
      let (e', msg, c', s') = read_message n x c s in
      rw (
        done,
        same,
        read_frames-arrivals xs into later c' s' m.1 (omega (arith, e))
            (read_message-IsShared f n input laws x c s h)
            (read_message-frames n frames order n.binary_message _ _ x c s next),
      )
  read_frames-arrivals (other mt b ∷ xs) (x ∷ into) later c s m e h next =
      let (done, _, _, _) = other_frame_lem f n input laws frames reading mt b _ x c s m.0 next in
      let (e', msg, c', s') = read_message n x c s in
      rw (
        done,
        read_frames-arrivals xs into later c' s' m.1 (omega (arith, e))
            (read_message-IsShared f n input laws x c s h)
            (read_message-frames n frames order mt b _ x c s next),
      )
