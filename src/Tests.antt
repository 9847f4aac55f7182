-- ===== src/Tests.antt =====
-- Data for the tests: messages, a store with a buffer of the codec and one of the pool, and a codec.
pub mod Mpc
pub mod Generic
pub mod Stream
pub mod Concurrent
pub mod Websocket
pub mod Frames
pub mod Posts
pub mod Redis
pub mod Closing
pub mod Chat
pub mod Server
pub mod Room
pub mod Program
pub mod Delivery
pub mod Testmsg
use bimpc.Common.{
  ℕ, ◌+◌, ◌≤◌, ◌≡◌, refl, ◌⊎◌, inl, inr, Option, none, some, List, [], ◌∷◌, ◌++◌, arith, length,
}
use bimpc.Memory.{Bytes, Memory, Slice, nil_slice, slice, bytes, Owns}
use bimpc.Action.{GoError, err, ok, errorf, not_marshaler}
use bimpc.Action.Rules.{Runs}
use bimpc.Msgp.{received}
use bimpc.Msgp.Reading.{Decoding}
use bimpc.Mpc.{Error, Message, new_message, Value, raw, obj, Request, Filling, to_wire, from_wire}
use bimpc.Mpc.{unmarshal, Pool, get_message, put_message, keep}
use bimpc.Mpc.Gen.{decode_message, unmarshal_message, encode_message, marshal_message, message_size}
use bimpc.Mpc.Gen.Form.{Content, content, received_content, message_form, IsSendable, IsWire}
use bimpc.Mpc.Gen.Encode.{encode_message_lem, marshal_message_lem, marshal_message-length}
use bimpc.Mpc.Gen.Decode.{decode_message_lem, unmarshal_message_lem}
use bimpc.Mpc.Gen.Frame.{decode_message-Moves}
use bimpc.Mpc.Moves.{Moves, IsGuarded, Disjoint}
use bimpc.Mpc.HandOver.{payload, payload_slice}
use bimpc.Mpc.FromWire.{delivered, from_wire_lem}
use bimpc.Mpc.ToWire.{sent, to_wire_lem, to_wire-accepts}
use bimpc.Mpc.Marshal.{Encodes}
use bimpc.Mpc.Unmarshal.{decoded, from_wire-unmarshal}
use bimpc.Mpc.Pool.{IsPool, IsClean, get_message-IsPool, put_message-IsPool}
use bimpc.Shared.{Shared, IsShared, pooled}
use bimpc.Generic.{Codec, read_message, write_message, send, new_codec}
use bimpc.Generic.Read.{read_message_lem}
use bimpc.Generic.Write.{write_message_lem, write-read, write_message-refused}
use bimpc.Sample.Objects.{skip_object}
use bimpc.Sample.{
  sample_format, sample_decoder, sample_encoder, sample_appender, sample_connection, text_form,
  Item, text, plain, item_marshaler, Sink, text_unmarshaler, big_endian, read_raw, read_text,
  read_number, read_header, read_digits, cut, at_nil, read_nil, store, append_form,
}
use bimpc.Sample.Laws.{
  sample_decoder-DecoderLaws, sample_encoder-EncoderLaws, sample_encoder-FlushLaws,
  sample_appender-AppenderLaws, sink_output, text-Encodes, item_marshaler-Appends,
}

-- A call of "add" with one argument, and the answer to it, an error.
abbrev pub question : Request Item
question = record {
  id = 7;
  func = b'a' ∷ b'd' ∷ b'd' ∷ [];
  args = some (obj (text (b'h' ∷ b'i' ∷ [])));
  result = none;
  error = none;
}

abbrev pub answer : Content
answer = record {
  id = 7;
  func = [];
  args = [];
  result = text_form (b'n' ∷ b'o' ∷ []);
  error = some (record { msg = b'x' ∷ [] });
}

abbrev pub no_request : Request Item
no_request = record { id = 0; func = []; args = none; result = none; error = none }

abbrev pub hi_form : Bytes
hi_form = text_form (b'h' ∷ b'i' ∷ [])

abbrev pub no_form : Bytes
no_form = text_form (b'n' ∷ b'o' ∷ [])

abbrev pub answer_form : Bytes
answer_form = message_form sample_format answer

abbrev pub sink : Sink
sink = record { buffered = 1 ∷ []; got = 2 ∷ [] }

-- One array that the wire message decodes its arguments into, and one of the pool's.
abbrev pub start_mem : Memory
start_mem = (1 ∷ 2 ∷ 3 ∷ []) ∷ (4 ∷ 5 ∷ []) ∷ []

abbrev pub wire : Message
wire = record new_message { args = slice 0 2 }

abbrev pub pooled_message : Message
pooled_message = record new_message { result = slice 1 0 }

abbrev pub start : Shared
start = record { mem = start_mem; pool = pooled_message ∷ [] }

pub wire-IsWire : IsWire start_mem wire
wire-IsWire = record { args_valid = omega arith; result_valid = tt; apart = λ b o o'. o' }

pub pooled-IsWire : IsWire start_mem pooled_message
pooled-IsWire = record { args_valid = tt; result_valid = omega arith; apart = λ b o o'. o }

pub pooled-IsClean : IsClean start_mem pooled_message
pooled-IsClean = record {
  args = record { shows = refl; bound = omega arith };
  result = record { shows = refl; bound = omega arith };
  error = refl;
  wire = pooled-IsWire;
}

pub wire-Disjoint : Disjoint wire pooled_message
wire-Disjoint b (inl o) (inl o') = o'
wire-Disjoint b (inl o) (inr o') = absurd (omega arith)
wire-Disjoint b (inr o) h = o

pub start-IsPool : IsPool start_mem (pooled_message ∷ [])
start-IsPool = (pooled-IsClean, tt, tt)

pub start-IsShared : IsShared wire start
start-IsShared = record {
  wire_ok = wire-IsWire;
  pool_ok = start-IsPool;
  apart = (wire-Disjoint, tt);
}

pub answer-IsSendable : IsSendable sample_format answer
unfolding skip_object big_endian
answer-IsSendable = record {
  id_bound = omega arith;
  func_bound = omega arith;
  args_object = inl refl;
  result_object = inr (refl, λ rest. refl);
  error_bound = omega arith;
}

pub question-IsSendable : IsSendable sample_format (sent question hi_form [])
unfolding skip_object big_endian
question-IsSendable = record {
  id_bound = omega arith;
  func_bound = omega arith;
  args_object = inr (refl, λ rest. refl);
  result_object = inl refl;
  error_bound = tt;
}

abbrev pub codec : Bytes → Codec Bytes Bytes Sink
codec input = record { conn = []; r = input; wire = wire; w = sink }

abbrev pub asked : Bytes
asked = message_form sample_format (sent question hi_form [])
