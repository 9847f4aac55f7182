-- ===== src/Websocket/Write.antt =====
-- WriteMessage: the frame that it sends, and the frame's writer, which it closes on every path.
use bimpc.Common.{ℕ, ◌≡◌, refl, ap, ◌∙◌, ◌⊎◌, Option, none, some, List, [], ◌∷◌, ◌++◌}
use bimpc.Memory.{Bytes, Memory, Slice}
use bimpc.Action.{GoError, Result, ok, err, error_of}
use bimpc.Msgp.{EncoderLaws, FlushLaws, Format}
use bimpc.Mpc.{Message, Request, Value, Marshaler}
use bimpc.Mpc.Gen.Form.{message_form, content}
use bimpc.Mpc.ToWire.{sent}
use bimpc.Mpc.Marshal.{Encodes}
use bimpc.Mpc.Appending.{Appends}
use bimpc.Shared.{Shared, IsShared, IsOutOfReach}
use bimpc.Shared.Sending.{encode_flush_lem, pooled_sending_lem, pooled_sending-any, sending-Moves}
use bimpc.Shared.Flush.{EncoderKeeps, encode_flush-Preserves}
use bimpc.Shared.Reach.{pooled-IsShared, pooled-IsOutOfReach}
use bimpc.Websocket.{Socket, Codec, finish, send_frame, send, write_message}

-- What a connection shows of its write side: the frames that it has sent, and the writer of the frame
-- that is open, if any, with what has been put into that frame.
pub record Sending (Ws Dst : Type 0) : Type 0 where
  pub frames : Ws → List Bytes
  pub open_writer : Ws → Option Dst
  pub frame : Ws → Bytes

module _ {Ws Src Dst R W : Type 0} (n : Socket Ws Src Dst R W) (v : Sending Ws Dst) where
  -- No other writer than `dst` is open, not even that one after a write that failed, and `sent_frames`
  -- have been sent.
  abbrev pub IsWriting : Dst → List Bytes → Ws → Type 0
  IsWriting dst sent_frames ws =
      ((v.open_writer ws ≡ some dst) ⊎ (v.open_writer ws ≡ none)) × (v.frames ws ≡ sent_frames)

  -- NextWriter opens an empty frame or, with an error, leaves none open; a msgp.Writer that is reset to
  -- the frame has nothing buffered, and writes to that frame only; Close of the frame's writer leaves
  -- none open and, without an error, has sent the frame.
  pub record FrameWriting (output : Ws × W → Bytes) : Type 0 where
    pub opens :
        (ws : Ws) (w : W)
        → let (dst, e, ws') = n.next_writer n.binary_message ws in
          e ≡ none → (output (ws', n.reset_writer dst w) ≡ []) × IsWriting dst (v.frames ws) ws'
    pub opens_none :
        (ws : Ws)
        → let (dst, e, ws') = n.next_writer n.binary_message ws in
          ¬ (e ≡ none) → v.open_writer ws' ≡ none
    pub keeps :
        (dst : Dst) (sent_frames : List Bytes)
        → EncoderKeeps n.encoder (λ x. IsWriting dst sent_frames x.0)
    pub closes :
        (dst : Dst) (sent_frames : List Bytes) (ws : Ws)
        → IsWriting dst sent_frames ws
        → v.open_writer (n.close_frame dst ws).1 ≡ none
    pub sends :
        (dst : Dst) (sent_frames : List Bytes) (ws : Ws)
        → IsWriting dst sent_frames ws
        → (n.close_frame dst ws).0 ≡ none
        → v.frames (n.close_frame dst ws).1 ≡ sent_frames ++ (v.frame ws ∷ [])

module _ {Ws Src Dst R W : Type 0} (n : Socket Ws Src Dst R W) (v : Sending Ws Dst)
    (output : Ws × W → Bytes) (writing : FrameWriting n v output) where
  finish-closes :
      (dst : Dst) (sent_frames : List Bytes) (r : Result (Unit {0}) × (Ws × W))
      → IsWriting n v dst sent_frames r.1.0
      → v.open_writer (finish n dst r).1.0 ≡ none
  unfolding finish
  finish-closes dst fs (ok tt, (ws, w)) h = writing.closes dst fs ws h
  finish-closes dst fs (err e, (ws, w)) h = writing.closes dst fs ws h

  send_frame-closes :
      (mem : Memory) (m : Message) (ws : Ws) (w : W)
      → v.open_writer (send_frame n mem m w (n.next_writer n.binary_message ws)).1.0 ≡ none
  unfolding send_frame
  send_frame-closes mem m ws w =
      go (n.next_writer n.binary_message ws) (λ done. (writing.opens ws w done).1)
        (writing.opens_none ws)
    where
      go :
          (x : Dst × Option GoError × Ws)
          → (x.1 ≡ none → IsWriting n v x.0 (v.frames ws) x.2)
          → (¬ (x.1 ≡ none) → v.open_writer x.2 ≡ none)
          → v.open_writer (send_frame n mem m w x).1.0 ≡ none
      go (dst, some e, ws') opens fails = fails (λ h. absurd (cc))
      go (dst, none, ws') opens fails = finish-closes dst (v.frames ws) _ (
          (encode_flush-Preserves n.encoder _ (writing.keeps dst (v.frames ws)) mem m).keeps
            (ws', n.reset_writer dst w) (opens refl))

  module _ {Obj : Type 0} (as_marshaler : Value Obj → Option Marshaler) where
    -- WriteMessage leaves no frame open on any path: where no frame was open before, none is open
    -- afterwards, whether the message was refused, or NextWriter, the encoding, the flush or Close
    -- failed, or the message was sent.
    pub write_message-closes :
        (pick : ℕ) (msg : Request Obj) (c : Codec Ws R W) (s : Shared)
        → v.open_writer c.ws ≡ none
        → let (e, c', s') = write_message n as_marshaler pick msg c s in v.open_writer c'.ws ≡ none
    unfolding write_message send
    write_message-closes pick msg c s closed =
        pooled_sending-any as_marshaler (send n) pick msg (c.ws, c.w) s
          (λ x. v.open_writer x.1.0 ≡ none) (λ e. closed) λ mem m. send_frame-closes mem m c.ws c.w

module _ {Ws Src Dst R W : Type 0} (f : Format) (n : Socket Ws Src Dst R W) (v : Sending Ws Dst)
    (output : Ws × W → Bytes) (writing : FrameWriting n v output)
    (laws : EncoderLaws f n.encoder output)
    (flushes : FlushLaws n.encoder output (λ x. v.frame x.0)) where
  finish_lem :
      (dst : Dst) (sent_frames : List Bytes) (form : Bytes) (r : Result (Unit {0}) × (Ws × W))
      → IsWriting n v dst sent_frames r.1.0
      → (error_of r.0 ≡ none → v.frame r.1.0 ≡ form)
      → (finish n dst r).0 ≡ none
      → v.frames (finish n dst r).1.0 ≡ sent_frames ++ (form ∷ [])
  unfolding finish
  finish_lem dst fs form (ok tt, (ws, w)) h shows done =
      writing.sends dst fs ws h done ∙ ap (λ b. fs ++ (b ∷ [])) (shows refl)
  finish_lem dst fs form (err e, (ws, w)) h shows done = absurd (cc)

  send_frame_lem :
      (mem : Memory) (m : Message) (ws : Ws) (w : W)
      → let (e, (ws', w')) = send_frame n mem m w (n.next_writer n.binary_message ws) in
        e ≡ none → v.frames ws' ≡ v.frames ws ++ (message_form f (content mem m) ∷ [])
  unfolding send_frame
  send_frame_lem mem m ws w = go (n.next_writer n.binary_message ws) (writing.opens ws w)
    where
      go :
          (x : Dst × Option GoError × Ws)
          → (x.1 ≡ none
              → (output (x.2, n.reset_writer x.0 w) ≡ []) × IsWriting n v x.0 (v.frames ws) x.2)
          → let (e, (ws', w')) = send_frame n mem m w x in
            e ≡ none → v.frames ws' ≡ v.frames ws ++ (message_form f (content mem m) ∷ [])
      go (dst, some e, ws') opens done = absurd (cc)
      go (dst, none, ws') opens done =
          let (empty, open_here) = opens refl in
          finish_lem dst (v.frames ws) (message_form f (content mem m)) _
            ((encode_flush-Preserves n.encoder _ (writing.keeps dst (v.frames ws)) mem m).keeps
              (ws', n.reset_writer dst w) open_here)
            (λ flushed.
              encode_flush_lem f n.encoder output (λ x. v.frame x.0) laws flushes mem m
                (ws', n.reset_writer dst w) flushed
              ∙ ap (λ b. b ++ message_form f (content mem m)) empty)
            done

  module _ {Obj : Type 0} (as_marshaler : Value Obj → Option Marshaler) where
    -- A WriteMessage that returns no error, of payloads that are absent or can be encoded, has sent one
    -- frame behind all earlier ones, and it is the form of birpc's message and nothing else, whatever
    -- the msgp.Writer had buffered and whichever message the pool gave out.
    pub write_message-frames :
        (pick : ℕ) (msg : Request Obj) (args result : Bytes) (c : Codec Ws R W) (s : Shared)
        → IsShared c.wire s
        → Encodes as_marshaler msg.args args
        → Encodes as_marshaler msg.result result
        → (write_message n as_marshaler pick msg c s).0 ≡ none
        → v.frames (write_message n as_marshaler pick msg c s).1.ws
          ≡ v.frames c.ws ++ (message_form f (sent msg args result) ∷ [])
    unfolding write_message send
    write_message-frames pick msg args result c s h ha hr =
        pooled_sending_lem as_marshaler (send n) pick msg args result (c.ws, c.w) s h ha hr
          (λ x.
            x.0 ≡ none
            → v.frames x.1.0 ≡ v.frames c.ws ++ (message_form f (sent msg args result) ∷ []))
          λ mem m same done.
            send_frame_lem mem m c.ws c.w done
            ∙ ap (λ x. v.frames c.ws ++ (message_form f x ∷ [])) same

module _ {Ws Src Dst R W Obj : Type 0} (n : Socket Ws Src Dst R W)
    (as_marshaler : Value Obj → Option Marshaler) (appends : Appends as_marshaler) where
  -- WriteMessage keeps the codec's message and the pool in order, and what was out of reach stays so,
  -- also where it fails.
  pub write_message-IsShared :
      (pick : ℕ) (msg : Request Obj) (c : Codec Ws R W) (s : Shared)
      → IsShared c.wire s
      → let (e, c', s') = write_message n as_marshaler pick msg c s in IsShared c'.wire s'
  unfolding write_message
  write_message-IsShared pick msg c s h =
      pooled-IsShared pick _ (sending-Moves as_marshaler appends (send n) msg (c.ws, c.w)) c.wire s
        h

  pub write_message-IsOutOfReach :
      (pick : ℕ) (msg : Request Obj) (c : Codec Ws R W) (s : Shared)
      → IsShared c.wire s
      → (t : Slice) (shown : Bytes) → IsOutOfReach t shown c.wire s
      → let (e, c', s') = write_message n as_marshaler pick msg c s in
        IsOutOfReach t shown c'.wire s'
  unfolding write_message
  write_message-IsOutOfReach pick msg c s h t shown g =
      pooled-IsOutOfReach pick _ (sending-Moves as_marshaler appends (send n) msg (c.ws, c.w))
        c.wire s h t shown g
