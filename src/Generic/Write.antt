-- ===== src/Generic/Write.antt =====
-- WriteMessage: what reaches the connection, what is refused, and what stays in order; and a message
-- that is written at one end and read at the other.
use bimpc.Common.{ℕ, ◌≡◌, refl, sym, ap, ◌∙◌, Option, none, some, ◌++◌, []}
use mathlib.Core.List.{append_cancel_left, append-nil}
use bimpc.Memory.{Bytes, Slice}
use bimpc.Action.{GoError, Result, ok, err, errorf}
use bimpc.Msgp.{EncoderLaws, FlushLaws, DecoderLaws, Format}
use bimpc.Mpc.{Request, Value, Marshaler, Filling, to_wire, get_message}
use bimpc.Mpc.Gen.Form.{message_form, IsSendable, received_content}
use bimpc.Mpc.ToWire.{sent, to_wire-rejected_args}
use bimpc.Mpc.Marshal.{Encodes, IsRejected}
use bimpc.Mpc.Appending.{Appends}
use bimpc.Mpc.FromWire.{delivered}
use bimpc.Shared.{Shared, pooled, sent_by, IsShared, IsOutOfReach}
use bimpc.Shared.Sending.{sending-Moves, pooled_sending_lem, encode_flush_lem}
use bimpc.Shared.Reach.{pooled-IsShared, pooled-IsOutOfReach}
use bimpc.Generic.{Connection, Codec, send, write_message, read_message}
use bimpc.Generic.Read.{read_message_lem}

module _ {C R W : Type 0} (f : Format) (n : Connection C R W) (output sent_out : W → Bytes)
    (laws : EncoderLaws f n.encoder output) (flushes : FlushLaws n.encoder output sent_out) where
  module _ {Obj : Type 0} (as_marshaler : Value Obj → Option Marshaler) where
    -- A WriteMessage that returns no error, of payloads that are absent or can be encoded, has handed
    -- the form of birpc's message to the connection, behind all that was written before, whichever
    -- message the pool gave out.
    pub write_message_lem :
        (pick : ℕ) (msg : Request Obj) (args result : Bytes) (c : Codec C R W) (s : Shared)
        → IsShared c.wire s
        → Encodes as_marshaler msg.args args
        → Encodes as_marshaler msg.result result
        → (write_message n as_marshaler pick msg c s).0 ≡ none
        → sent_out (write_message n as_marshaler pick msg c s).1.w
          ≡ output c.w ++ message_form f (sent msg args result)
    unfolding write_message send
    write_message_lem pick msg args result c s h ha hr =
        pooled_sending_lem as_marshaler (send n) pick msg args result c.w s h ha hr
          (λ x. x.0 ≡ none → sent_out x.1 ≡ output c.w ++ message_form f (sent msg args result))
          λ mem m same done.
            encode_flush_lem f n.encoder output sent_out laws flushes mem m c.w done
            ∙ ap (λ x. output c.w ++ message_form f x) same

    -- A message that is written at one end of a connection without error, and whose form is then what
    -- is to be read at the other end, is delivered there without error: the same id, function and
    -- error, and the payloads as they were encoded, nil ones as absent.
    pub write-read :
        (input : R → Bytes)
        → DecoderLaws f n.decoder input
        → (pick : ℕ) (msg into : Request Obj) (args result : Bytes) (a b : Codec C R W)
          (s t : Shared)
        → IsShared a.wire s
        → IsShared b.wire t
        → Encodes as_marshaler msg.args args
        → Encodes as_marshaler msg.result result
        → IsSendable f (sent msg args result)
        → (write_message n as_marshaler pick msg a s).0 ≡ none
        → sent_out (write_message n as_marshaler pick msg a s).1.w ≡ output a.w ++ input b.r
        → let (e, msg', b', t') = read_message n into b t in
          (e ≡ none)
          × (delivered t'.mem msg' ≡ received_content (sent msg args result))
          × (input b'.r ≡ [])
    write-read input reads pick msg into args result a b s t ha hb ea er sendable done link =
        read_message_lem f n input reads (sent msg args result) [] into b t sendable hb (
          append_cancel_left (output a.w) _ _
            (sym link ∙ write_message_lem pick msg args result a s ha ea er done)
          ∙ sym (append-nil _))

module _ {C R W Obj : Type 0} (n : Connection C R W)
    (as_marshaler : Value Obj → Option Marshaler) where
  -- Arguments that cannot be marshaled, since their type has no MarshalMsg or since that returns an
  -- error: WriteMessage returns that error with "marshaling args", and writes nothing.
  pub write_message-refused :
      (pick : ℕ) (msg : Request Obj) (e : GoError) (c : Codec C R W) (s : Shared)
      → IsRejected as_marshaler msg.args e
      → let (e', c', s') = write_message n as_marshaler pick msg c s in
        (e' ≡ some (errorf "marshaling args" e)) × (c' ≡ c)
  unfolding write_message pooled
  write_message-refused pick msg e c s h =
      go (to_wire as_marshaler msg start) (to_wire-rejected_args as_marshaler msg start e h)
    where
      start : Filling
      start = record { m = (get_message pick s.pool).0; mem = s.mem }

      go :
          (r : Result (Unit {0}) × Filling)
          → r.0 ≡ err (errorf "marshaling args" e)
          → let (e', w') = (sent_by (send n) c.w r).0 in
            (e' ≡ some (errorf "marshaling args" e)) × (record c { w = w' } ≡ c)
      go (ok tt, s') q = absurd (cc)
      go (err x, s') q = (cc, refl)

  module _ (appends : Appends as_marshaler) where
    -- WriteMessage keeps the codec's message and the pool in order, and what was out of reach stays
    -- so, also where it fails.
    pub write_message-IsShared :
        (pick : ℕ) (msg : Request Obj) (c : Codec C R W) (s : Shared)
        → IsShared c.wire s
        → let (e, c', s') = write_message n as_marshaler pick msg c s in IsShared c'.wire s'
    unfolding write_message
    write_message-IsShared pick msg c s h =
        pooled-IsShared pick _ (sending-Moves as_marshaler appends (send n) msg c.w) c.wire s h

    pub write_message-IsOutOfReach :
        (pick : ℕ) (msg : Request Obj) (c : Codec C R W) (s : Shared)
        → IsShared c.wire s
        → (t : Slice) (shown : Bytes) → IsOutOfReach t shown c.wire s
        → let (e, c', s') = write_message n as_marshaler pick msg c s in
          IsOutOfReach t shown c'.wire s'
    unfolding write_message
    write_message-IsOutOfReach pick msg c s h t shown g =
        pooled-IsOutOfReach pick _ (sending-Moves as_marshaler appends (send n) msg c.w) c.wire s h
          t shown g
