-- ===== src/Mpc/Gen/Same.antt =====
-- EncodeMsg and MarshalMsg against each other.
use bimpc.Common.{◌≡◌, ◌++◌}
use bimpc.Memory.{Bytes, Memory}
use bimpc.Action.{ok}
use bimpc.Msgp.{Encoder, Appender, EncoderLaws, AppenderLaws, Format}
use bimpc.Mpc.{Message}
use bimpc.Mpc.Gen.{encode_message, marshal_message}
use bimpc.Mpc.Gen.Form.{message_form, content}
use bimpc.Mpc.Gen.Encode.{encode_message_lem, marshal_message_lem}

module _ (f : Format) {W : Type 0} (e : Encoder W) (output : W → Bytes)
    (encodes : EncoderLaws f e output) (a : Appender) (appends : AppenderLaws f a) where
  -- EncodeMsg and MarshalMsg make the same of a message: where EncodeMsg returns no error, MarshalMsg
  -- returns none either, and the bytes that it appends to `b` are those that EncodeMsg has written,
  -- behind all that had been written before.
  pub encode_message-marshal_message :
      (mem : Memory) (z : Message) (w : W) (b : Bytes)
      → (encode_message e mem z w).0 ≡ ok tt
      → (form : Bytes) × (marshal_message a mem z b ≡ (ok tt, b ++ form))
        × (output (encode_message e mem z w).1 ≡ output w ++ form)
  encode_message-marshal_message mem z w b done = (
    message_form f (content mem z),
    marshal_message_lem f a appends mem z b,
    encode_message_lem f e output encodes mem z w done,
  )
