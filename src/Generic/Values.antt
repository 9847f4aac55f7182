-- ===== src/Generic/Values.antt =====
-- A value that is sent as a payload, and what UnmarshalArgs and UnmarshalResult make of it at the other
-- end.
use bimpc.Common.{ℕ, ◌≡◌, ap, ◌∙◌, Option, none, some, ◌++◌}
use bimpc.Memory.{Bytes}
use bimpc.Action.{error_of}
use bimpc.Msgp.{EncoderLaws, FlushLaws, DecoderLaws, Format, received}
use bimpc.Msgp.Reading.{Decoding}
use bimpc.Mpc.{Message, Request, Value, Marshaler, Unmarshaler, unmarshal}
use bimpc.Mpc.Gen.{decode_message}
use bimpc.Mpc.Gen.Form.{IsSendable, Content}
use bimpc.Mpc.Gen.Frame.{decode_message-Moves}
use bimpc.Mpc.ToWire.{sent}
use bimpc.Mpc.Marshal.{Encodes}
use bimpc.Mpc.Unmarshal.{decoded, unmarshal_by-payload}
use bimpc.Shared.{Shared, IsShared}
use bimpc.Shared.Delivered.{IsDelivered, received_by-IsDelivered}
use bimpc.Generic.{Connection, Codec, write_message, read_message, unmarshal_args, unmarshal_result}
use bimpc.Generic.Write.{write-read}

module _ {C R W Obj : Type 0} (f : Format) (n : Connection C R W) (input : R → Bytes)
    (laws : DecoderLaws f n.decoder input) where
  pub read_message-IsDelivered :
      (msg : Request Obj) (c : Codec C R W) (s : Shared)
      → IsShared c.wire s
      → let (e, msg', c', s') = read_message n msg c s in e ≡ none → IsDelivered msg' s'.mem
  unfolding read_message
  read_message-IsDelivered msg c s h =
      let start : Decoding Message R = record { z = c.wire; mem = s.mem; rd = c.r } in
      let (res, d) = decode_message n.decoder start in
      received_by-IsDelivered msg (error_of res) d.z d.mem
        (decode_message-Moves f n.decoder input laws start h.wire_ok).wire

module _ {C R W Obj : Type 0} (f : Format) (n : Connection C R W) (output sent_out : W → Bytes)
    (laws : EncoderLaws f n.encoder output) (flushes : FlushLaws n.encoder output sent_out)
    (as_marshaler : Value Obj → Option Marshaler) (input : R → Bytes)
    (reads : DecoderLaws f n.decoder input) where
  -- What is sent as arguments and as a result is what UnmarshalMsg of the targets' types gets at the
  -- other end.
  pub write-read-unmarshal :
      {T U : Type 0} (u : Unmarshaler T) (v : Unmarshaler U) (arg : T) (res : U) (pick : ℕ)
      (msg into : Request Obj) (args result : Bytes) (a b : Codec C R W) (s t : Shared)
      → IsShared a.wire s
      → IsShared b.wire t
      → Encodes as_marshaler msg.args args
      → Encodes as_marshaler msg.result result
      → IsSendable f (sent msg args result)
      → (write_message n as_marshaler pick msg a s).0 ≡ none
      → sent_out (write_message n as_marshaler pick msg a s).1.w ≡ output a.w ++ input b.r
      → let (e, msg', b', t') = read_message n into b t in
        (e ≡ none)
        × (unmarshal_args (some u) t'.mem msg' arg ≡ decoded u (received args) arg)
        × (unmarshal_result (some v) t'.mem msg' res ≡ decoded v (received result) res)
  unfolding unmarshal_args unmarshal_result unmarshal
  write-read-unmarshal u v arg res pick msg into args result a b s t ha hb ea er sendable done
        link =
      let (ok_read, same, _) =
        write-read f n output sent_out laws flushes as_marshaler input reads pick msg into args
          result a b s t ha hb ea er sendable done link in
      let (ra, rr, va, vr) = read_message-IsDelivered f n input reads into b t hb ok_read in
      (
        ok_read,
        unmarshal_by-payload u _ _ arg ra va ∙ ap (λ (x : Content). decoded u x.args arg) same,
        unmarshal_by-payload v _ _ res rr vr ∙ ap (λ (x : Content). decoded v x.result res) same,
      )
