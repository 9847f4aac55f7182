-- ===== src/Chat/Gen.antt =====
-- examples/chat/main_gen.go: what msgp generated for the messages of the chat.
pub mod OfIncoming
pub mod OfOutgoing
pub mod OfNothing
pub mod Crossing
use Prim.Native.String.{String}
use bimpc.Common.{ℕ, ◌+◌, Option, none, some, [], ◌∷◌, ◌++◌, if◌then◌else◌, length}
use bimpc.Memory.{Bytes}
use bimpc.Action.{GoError, Action, ◌>>=◌, ◌>>◌}
use bimpc.Mpc.Gen.{write}
use bimpc.Maps.{
  MapDecoder, MapEncoder, MapAppender, same_text, take_field, skip_field, decode_map, left_over,
}
use bimpc.Chat.{Incoming, Outgoing, Nothing}

abbrev pub time_key : Bytes
time_key = b't' ∷ b'i' ∷ b'm' ∷ b'e' ∷ []

abbrev pub from_key : Bytes
from_key = b'f' ∷ b'r' ∷ b'o' ∷ b'm' ∷ []

abbrev pub message_key : Bytes
message_key = b'm' ∷ b'e' ∷ b's' ∷ b's' ∷ b'a' ∷ b'g' ∷ b'e' ∷ []

module _ {R : Type 0} (d : MapDecoder R) where
  unfoldable pub incoming_field : Bytes → Action (Incoming × R) (Unit {0})
  unfolding same_text
  incoming_field field =
      if same_text field from_key
      then take_field d d.base.read_string (λ v z. record z { from = v }) ("From" ∷ [])
      else if same_text field message_key
      then take_field d d.base.read_string (λ v z. record z { message = v }) ("Message" ∷ [])
      else skip_field d

  -- (*Incoming).DecodeMsg
  unfoldable pub decode_incoming : Action (Incoming × R) (Unit {0})
  unfolding incoming_field
  decode_incoming = decode_map d incoming_field

  unfoldable pub outgoing_field : Bytes → Action (Outgoing × R) (Unit {0})
  unfolding same_text
  outgoing_field field =
      if same_text field time_key
      then take_field d d.read_uint32 (λ v z. record z { time = v }) ("Time" ∷ [])
      else if same_text field from_key
      then take_field d d.base.read_string (λ v z. record z { from = v }) ("From" ∷ [])
      else if same_text field message_key
      then take_field d d.base.read_string (λ v z. record z { message = v }) ("Message" ∷ [])
      else skip_field d

  -- (*Outgoing).DecodeMsg
  unfoldable pub decode_outgoing : Action (Outgoing × R) (Unit {0})
  unfolding outgoing_field
  decode_outgoing = decode_map d outgoing_field

  -- (*nothing).DecodeMsg
  unfoldable pub decode_nothing : Action (Nothing × R) (Unit {0})
  decode_nothing = decode_map d (λ field. skip_field d)

-- The methods UnmarshalMsg
module _ (d : MapDecoder Bytes) where
  unfoldable pub unmarshal_incoming : Bytes → Incoming → Bytes × Option GoError × Incoming
  unfolding incoming_field
  unmarshal_incoming b z = left_over (decode_map d (incoming_field d) (z, b))

  unfoldable pub unmarshal_outgoing : Bytes → Outgoing → Bytes × Option GoError × Outgoing
  unfolding outgoing_field
  unmarshal_outgoing b z = left_over (decode_map d (outgoing_field d) (z, b))

  unfoldable pub unmarshal_nothing : Bytes → Nothing → Bytes × Option GoError × Nothing
  unmarshal_nothing b z = left_over (decode_map d (λ field. skip_field d) (z, b))

-- The methods EncodeMsg
module _ {W : Type 0} (e : MapEncoder W) where
  unfoldable pub encode_incoming : Incoming → Action W (Unit {0})
  encode_incoming z = do
    write e.base (e.base.append (0x82 ∷ 0xa4 ∷ 0x66 ∷ 0x72 ∷ 0x6f ∷ 0x6d ∷ [])) (λ x. x)
    write e.base (e.base.write_string z.from) (e.base.wrap_error ("From" ∷ []))
    write e.base (e.base.append (0xa7 ∷ 0x6d ∷ 0x65 ∷ 0x73 ∷ 0x73 ∷ 0x61 ∷ 0x67 ∷ 0x65 ∷ []))
        (λ x. x)
    write e.base (e.base.write_string z.message) (e.base.wrap_error ("Message" ∷ []))

  unfoldable pub encode_outgoing : Outgoing → Action W (Unit {0})
  encode_outgoing z = do
    write e.base (e.base.append (0x83 ∷ 0xa4 ∷ 0x74 ∷ 0x69 ∷ 0x6d ∷ 0x65 ∷ [])) (λ x. x)
    write e.base (e.write_uint32 z.time) (e.base.wrap_error ("Time" ∷ []))
    write e.base (e.base.append (0xa4 ∷ 0x66 ∷ 0x72 ∷ 0x6f ∷ 0x6d ∷ [])) (λ x. x)
    write e.base (e.base.write_string z.from) (e.base.wrap_error ("From" ∷ []))
    write e.base (e.base.append (0xa7 ∷ 0x6d ∷ 0x65 ∷ 0x73 ∷ 0x73 ∷ 0x61 ∷ 0x67 ∷ 0x65 ∷ []))
        (λ x. x)
    write e.base (e.base.write_string z.message) (e.base.wrap_error ("Message" ∷ []))

  unfoldable pub encode_nothing : Nothing → Action W (Unit {0})
  encode_nothing z = write e.base (e.base.append (0x80 ∷ [])) (λ x. x)

-- The methods Msgsize and MarshalMsg
module _ (a : MapAppender) where
  unfoldable pub incoming_size : Incoming → ℕ
  incoming_size z =
      1
      + 5
      + a.base.string_prefix_size
      + length z.from
      + 8
      + a.base.string_prefix_size
      + length z.message

  unfoldable pub marshal_incoming : Incoming → Bytes → Bytes
  unfolding incoming_size
  marshal_incoming z b =
      let o = a.base.require b (incoming_size z) in
      let o = o ++ (0x82 ∷ 0xa4 ∷ 0x66 ∷ 0x72 ∷ 0x6f ∷ 0x6d ∷ []) in
      let o = a.base.append_string o z.from in
      let o = o ++ (0xa7 ∷ 0x6d ∷ 0x65 ∷ 0x73 ∷ 0x73 ∷ 0x61 ∷ 0x67 ∷ 0x65 ∷ []) in
      a.base.append_string o z.message

  unfoldable pub outgoing_size : Outgoing → ℕ
  outgoing_size z =
      1
      + 5
      + a.uint32_size
      + 5
      + a.base.string_prefix_size
      + length z.from
      + 8
      + a.base.string_prefix_size
      + length z.message

  unfoldable pub marshal_outgoing : Outgoing → Bytes → Bytes
  unfolding outgoing_size
  marshal_outgoing z b =
      let o = a.base.require b (outgoing_size z) in
      let o = o ++ (0x83 ∷ 0xa4 ∷ 0x74 ∷ 0x69 ∷ 0x6d ∷ 0x65 ∷ []) in
      let o = a.append_uint32 o z.time in
      let o = o ++ (0xa4 ∷ 0x66 ∷ 0x72 ∷ 0x6f ∷ 0x6d ∷ []) in
      let o = a.base.append_string o z.from in
      let o = o ++ (0xa7 ∷ 0x6d ∷ 0x65 ∷ 0x73 ∷ 0x73 ∷ 0x61 ∷ 0x67 ∷ 0x65 ∷ []) in
      a.base.append_string o z.message

  unfoldable pub nothing_size : Nothing → ℕ
  nothing_size z = 1

  unfoldable pub marshal_nothing : Nothing → Bytes → Bytes
  unfolding nothing_size
  marshal_nothing z b = a.base.require b (nothing_size z) ++ (0x80 ∷ [])
