-- ===== src/Websocket/Values.antt =====
-- A value that is sent as arguments over a websocket, and what UnmarshalArgs makes of it at the other
-- end.
use mathlib.Core.List.{append_cancel_left, append-nil}
use bimpc.Common.{ℕ, ◌≡◌, sym, ap, ◌∙◌, Option, none, some, List, [], ◌∷◌, ◌++◌, get_or}
use bimpc.Memory.{Bytes}
use bimpc.Action.{error_of}
use bimpc.Msgp.{EncoderLaws, FlushLaws, DecoderLaws, Format, received}
use bimpc.Msgp.Reading.{Decoding}
use bimpc.Mpc.{Message, Request, Value, Marshaler, Unmarshaler, unmarshal}
use bimpc.Mpc.Gen.{decode_message}
use bimpc.Mpc.Gen.Form.{IsSendable, Content}
use bimpc.Mpc.Gen.Frame.{decode_message-Moves}
use bimpc.Mpc.ToWire.{sent}
use bimpc.Mpc.Marshal.{Encodes}
use bimpc.Mpc.Unmarshal.{decoded, unmarshal_by-payload}
use bimpc.Shared.{Shared, IsShared}
use bimpc.Shared.Delivered.{IsDelivered, received_by-IsDelivered}
use bimpc.Websocket.{Socket, Codec, write_message, read_message, read_frame, unmarshal_args}
use bimpc.Websocket.Read.{FrameReading, binary_frame_lem, read_message-any}
use bimpc.Websocket.Write.{Sending, FrameWriting, write_message-frames}

module _ {Ws Src Dst R W Obj : Type 0} (f : Format) (n : Socket Ws Src Dst R W)
    (input : Ws × R → Bytes) (reads : DecoderLaws f n.decoder input) where
  read_message-IsDelivered :
      (msg : Request Obj) (c : Codec Ws R W) (s : Shared)
      → IsShared c.wire s
      → let (e, msg', c', s') = read_message n msg c s in e ≡ none → IsDelivered msg' s'.mem
  unfolding read_frame
  read_message-IsDelivered msg c s h =
      read_message-any f n input reads msg c s
        (λ x. let (e, msg', c', s') = x in e ≡ none → IsDelivered msg' s'.mem)
        (λ e ws' done. absurd (cc))
        λ ws' src.
          let start : Decoding Message (Ws × R) = record {
            z = c.wire;
            mem = s.mem;
            rd = (ws', n.reset_reader src c.r);
          } in
          let (res, d) = decode_message n.decoder start in
          received_by-IsDelivered msg (error_of res) d.z d.mem
            (decode_message-Moves f n.decoder input reads start h.wire_ok).wire

  module _ (frames : Ws → List (ℕ × Bytes)) (reading : FrameReading n input frames)
      (v : Sending Ws Dst) (output : Ws × W → Bytes) (writing : FrameWriting n v output)
      (encodes : EncoderLaws f n.encoder output)
      (flushes : FlushLaws n.encoder output (λ x. v.frame x.0))
      (as_marshaler : Value Obj → Option Marshaler) where
    -- Of the frame that WriteMessage sends, UnmarshalArgs makes what UnmarshalMsg of its target's type
    -- does of the arguments' bytes.
    pub args_arrived :
        {T : Type 0} (u : Unmarshaler T) (arg : T) (pick : ℕ) (msg into : Request Obj)
        (args result frame : Bytes) (later : List (ℕ × Bytes)) (a b : Codec Ws R W) (s t : Shared)
        → IsShared a.wire s
        → IsShared b.wire t
        → Encodes as_marshaler msg.args args
        → Encodes as_marshaler msg.result result
        → IsSendable f (sent msg args result)
        → (write_message n as_marshaler pick msg a s).0 ≡ none
        → v.frames (write_message n as_marshaler pick msg a s).1.ws ≡ v.frames a.ws ++ (frame ∷ [])
        → frames b.ws ≡ (n.binary_message, frame) ∷ later
        → let (e, got, b', t') = read_message n into b t in
          (e ≡ none) × (unmarshal_args (some u) t'.mem got arg ≡ decoded u (received args) arg)
    unfolding unmarshal_args unmarshal
    args_arrived u arg pick msg into args result frame later a b s t ha hb ea er sendable done link
          next =
        let frames_same = append_cancel_left (v.frames a.ws) (frame ∷ []) _ (
          sym link
          ∙ write_message-frames f n v output writing encodes flushes as_marshaler pick msg args
              result a s ha ea er done) in
        let same_frame = ap (λ (l : List Bytes). get_or l 0 []) frames_same ∙ sym (append-nil _) in
        let (ok_read, same) =
          binary_frame_lem f n input reads frames reading (sent msg args result) [] later into b t
            sendable hb (next ∙ ap (λ x. (n.binary_message, x) ∷ later) same_frame) in
        let (ra, _, va, _) = read_message-IsDelivered into b t hb ok_read in
        (
          ok_read,
          unmarshal_by-payload u _ _ arg ra va ∙ ap (λ (x : Content). decoded u x.args arg) same,
        )
