-- ===== src/Tests/Testmsg.antt =====
-- The theorems about the messages and the service of the tests at concrete inputs.
use bimpc.Common.{◌^◌, ◌-◌, ◌≡◌, refl, inl, inr, Option, none, some, [], ◌∷◌, ◌++◌, arith}
use bimpc.Memory.{Bytes}
use bimpc.Mpc.{Request, Value, raw, obj, Marshaler, to_wire, get_message}
use bimpc.Mpc.Gen.{encode_message}
use bimpc.Mpc.Gen.Form.{IsSendable, message_form}
use bimpc.Mpc.ToWire.{sent}
use bimpc.Mpc.Marshal.{Encodes}
use bimpc.Shared.{pooled, encode_flush}
use bimpc.Generic.{write_message, read_message, unmarshal_args, unmarshal_result}
use bimpc.Testmsg.{Args, Result, Arith, waiting, get, add}
use bimpc.Testmsg.Gen.{marshal_args, marshal_result}
use bimpc.Testmsg.Rpc.{args_unmarshaler, result_unmarshaler, add_arrived, result_arrived}
use bimpc.Sample.{sample_connection, sample_format, append_form, big_endian}
use bimpc.Sample.Objects.{skip_object}
use bimpc.Sample.Laws.{
  sample_decoder-DecoderLaws, sample_encoder-EncoderLaws, sample_encoder-FlushLaws, sink_output,
  append_form-Marshals,
}
use bimpc.Sample.Maps.{
  sample_map_format, sample_map_decoder, sample_map_appender, sample_map_decoder-MapDecoderLaws,
  sample_map_appender-MapAppenderLaws,
}
use bimpc.Tests.{codec, sink, start, start-IsShared}

data Payload : Type 0 where
  of_args : Args → Payload
  of_result : Result → Payload

unfoldable payload_marshaler : Value Payload → Option Marshaler
payload_marshaler (raw s) = none
payload_marshaler (obj (of_args z)) = some (append_form (marshal_args sample_map_appender z []))
payload_marshaler (obj (of_result z)) = some (append_form (marshal_result sample_map_appender z []))

-- 5 and -3.
abbrev args : Args
args = record { a = 5; b = 2 ^ 64 - 3; s = b's' ∷ [] }

abbrev stale_args : Args
stale_args = record { a = 1; b = 1; s = b'z' ∷ [] }

abbrev result : Result
result = record { c = 2; s = b's' ∷ [] }

abbrev stale_result : Result
stale_result = record { c = 9; s = b'z' ∷ [] }

abbrev service : Arith
service = record { calls = record { n = 2 ^ 64 - 1 }; block = some waiting }

abbrev add_request : Request Payload
add_request = record {
  id = 4;
  func = b'A' ∷ [];
  args = some (obj (of_args args));
  result = none;
  error = none;
}

abbrev reply : Request Payload
reply = record {
  id = 4;
  func = [];
  args = none;
  result = some (obj (of_result result));
  error = none;
}

abbrev no_request : Request Payload
no_request = record { id = 0; func = []; args = none; result = none; error = none }

abbrev add_form : Bytes
add_form =
    message_form sample_format (sent add_request (marshal_args sample_map_appender args []) [])

abbrev reply_form : Bytes
reply_form =
    message_form sample_format (sent reply [] (marshal_result sample_map_appender result []))

add_request-IsSendable :
    IsSendable sample_format (sent add_request (marshal_args sample_map_appender args []) [])
unfolding marshal_args skip_object big_endian
add_request-IsSendable = record {
  id_bound = omega arith;
  func_bound = omega arith;
  args_object = inr (refl, λ rest. refl);
  result_object = inl refl;
  error_bound = tt;
}

reply-IsSendable :
    IsSendable sample_format (sent reply [] (marshal_result sample_map_appender result []))
unfolding marshal_result skip_object big_endian
reply-IsSendable = record {
  id_bound = omega arith;
  func_bound = omega arith;
  args_object = inl refl;
  result_object = inr (refl, λ rest. refl);
  error_bound = tt;
}

args-Encodes :
    Encodes payload_marshaler (some (obj (of_args args))) (marshal_args sample_map_appender args [])
unfolding payload_marshaler
args-Encodes = (_, refl, append_form-Marshals (marshal_args sample_map_appender args []))

result-Encodes :
    Encodes payload_marshaler
      (some (obj (of_result result)))
      (marshal_result sample_map_appender result [])
unfolding payload_marshaler
result-Encodes = (_, refl, append_form-Marshals (marshal_result sample_map_appender result []))

add_sent :
    (write_message sample_connection payload_marshaler 0 add_request (codec []) start).0 ≡ none
unfolding write_message pooled to_wire payload_marshaler append_form encode_message encode_flush
add_sent = refl

add_link :
    (write_message sample_connection payload_marshaler 0 add_request (codec []) start).1.w.got
    ≡ sink_output sink ++ add_form
unfolding write_message pooled to_wire payload_marshaler append_form encode_message encode_flush
    big_endian get_message marshal_args
add_link = refl

replied : (write_message sample_connection payload_marshaler 0 reply (codec []) start).0 ≡ none
unfolding write_message pooled to_wire payload_marshaler append_form encode_message encode_flush
replied = refl

reply_link :
    (write_message sample_connection payload_marshaler 0 reply (codec []) start).1.w.got
    ≡ sink_output sink ++ reply_form
unfolding write_message pooled to_wire payload_marshaler append_form encode_message encode_flush
    big_endian get_message marshal_result
reply_link = refl

add_arrived_example :
    let (e, got, server', t') = read_message sample_connection no_request (codec add_form) start in
    let (e', args') =
      unmarshal_args (some (args_unmarshaler sample_map_decoder)) t'.mem got stale_args in
    let (e'', reply', service') = add args' stale_result service in
    (e ≡ none)
    × (e' ≡ none)
    × (args' ≡ args)
    × (e'' ≡ none)
    × (reply' ≡ result)
    × (get service'.calls ≡ 0)
unfolding get
add_arrived_example =
    add_arrived sample_map_format sample_connection sink_output (λ w. w.got)
      sample_encoder-EncoderLaws sample_encoder-FlushLaws payload_marshaler (λ b. b)
      sample_decoder-DecoderLaws sample_map_decoder sample_map_decoder-MapDecoderLaws
      sample_map_appender sample_map_appender-MapAppenderLaws 0 args stale_args stale_result service
      add_request no_request (codec []) (codec add_form) start start
      (omega arith, omega arith, omega arith) start-IsShared start-IsShared args-Encodes refl
      add_request-IsSendable add_sent add_link

result_arrived_example :
    let (e, got, client', t') =
      read_message sample_connection no_request (codec reply_form) start in
    (e ≡ none)
    × (unmarshal_result (some (result_unmarshaler sample_map_decoder)) t'.mem got stale_result
        ≡ (none, result))
result_arrived_example =
    result_arrived sample_map_format sample_connection sink_output (λ w. w.got)
      sample_encoder-EncoderLaws sample_encoder-FlushLaws payload_marshaler (λ b. b)
      sample_decoder-DecoderLaws sample_map_decoder sample_map_decoder-MapDecoderLaws
      sample_map_appender sample_map_appender-MapAppenderLaws 0 result stale_result reply no_request
      (codec []) (codec reply_form) start start (omega arith, omega arith) start-IsShared
      start-IsShared refl result-Encodes reply-IsSendable replied reply_link
