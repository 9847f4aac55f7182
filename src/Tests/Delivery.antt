-- ===== src/Tests/Delivery.antt =====
-- A broadcast of the chat between two codecs over the sockets of Sample/Socket.antt.
use bimpc.Common.{◌^◌, ◌-◌, ◌≡◌, refl, inl, inr, Option, none, some, List, [], ◌∷◌, arith, ℕ}
use bimpc.Memory.{Bytes}
use bimpc.Mpc.{Request, Value, raw, obj, Marshaler, to_wire, get_message}
use bimpc.Mpc.Gen.{encode_message}
use bimpc.Mpc.Gen.Form.{IsSendable, message_form}
use bimpc.Mpc.ToWire.{sent}
use bimpc.Mpc.Marshal.{Encodes}
use bimpc.Shared.{pooled, encode_flush}
use bimpc.Websocket.{Codec, write_message, read_message, unmarshal_args}
use bimpc.Chat.{Incoming, Outgoing}
use bimpc.Chat.Gen.{marshal_outgoing}
use bimpc.Chat.Delivery.{incoming_unmarshaler, broadcast_arrived}
use bimpc.Sample.{sample_format, append_form, big_endian}
use bimpc.Sample.Objects.{skip_object}
use bimpc.Sample.Laws.{append_form-Marshals}
use bimpc.Sample.Socket.{
  SampleSocket, sample_socket, sample_sending, frame_output, sample_socket-DecoderLaws,
  sample_socket-FrameReading, sample_socket-FrameWriting, sample_socket-EncoderLaws,
  sample_socket-FlushLaws,
}
use bimpc.Sample.Maps.{
  sample_map_format, sample_map_decoder, sample_map_appender, sample_map_format-MapFormatLaws,
  sample_map_decoder-MapDecoderLaws, sample_map_appender-MapAppenderLaws,
}
use bimpc.Tests.{wire, start, start-IsShared}

unfoldable outgoing_marshaler : Value Outgoing → Option Marshaler
outgoing_marshaler (raw s) = none
outgoing_marshaler (obj z) = some (append_form (marshal_outgoing sample_map_appender z []))

abbrev spoken : Outgoing
spoken = record { time = 2 ^ 32 - 1; from = b'a' ∷ []; message = b'h' ∷ b'i' ∷ [] }

abbrev stale : Incoming
stale = record { from = b'z' ∷ []; message = b'z' ∷ b'z' ∷ [] }

abbrev broadcast_request : Request Outgoing
broadcast_request = record {
  id = 4;
  func = b'C' ∷ [];
  args = some (obj spoken);
  result = none;
  error = none;
}

abbrev no_request : Request Outgoing
no_request = record { id = 0; func = []; args = none; result = none; error = none }

abbrev broadcast_form : Bytes
broadcast_form =
    message_form sample_format
      (sent broadcast_request (marshal_outgoing sample_map_appender spoken []) [])

-- A codec that has sent a frame, and has bytes of earlier ones in its buffers.
abbrev on_socket : List (ℕ × Bytes) → Codec SampleSocket Bytes Bytes
on_socket incoming = record {
  ws = record { incoming = incoming; sent_frames = (1 ∷ []) ∷ []; writer = none; frame = 3 ∷ [] };
  r = 5 ∷ [];
  wire = wire;
  w = 6 ∷ [];
}

broadcast_request-IsSendable :
    IsSendable sample_format
      (sent broadcast_request (marshal_outgoing sample_map_appender spoken []) [])
unfolding marshal_outgoing skip_object big_endian
broadcast_request-IsSendable = record {
  id_bound = omega arith;
  func_bound = omega arith;
  args_object = inr (refl, λ rest. refl);
  result_object = inl refl;
  error_bound = tt;
}

spoken-Encodes :
    Encodes outgoing_marshaler (some (obj spoken)) (marshal_outgoing sample_map_appender spoken [])
unfolding outgoing_marshaler
spoken-Encodes = (_, refl, append_form-Marshals (marshal_outgoing sample_map_appender spoken []))

broadcast_sent :
    (write_message sample_socket outgoing_marshaler 0 broadcast_request (on_socket []) start).0
    ≡ none
unfolding write_message pooled to_wire outgoing_marshaler append_form encode_message encode_flush
broadcast_sent = refl

broadcast_link :
    (write_message sample_socket outgoing_marshaler 0 broadcast_request
      (on_socket [])
      start).1.ws.sent_frames
    ≡ (1 ∷ []) ∷ broadcast_form ∷ []
unfolding write_message pooled to_wire outgoing_marshaler append_form encode_message encode_flush
    big_endian get_message marshal_outgoing
broadcast_link = refl

broadcast_arrived_example :
    let (e, got, client', t') =
      read_message sample_socket no_request
        (on_socket ((2, broadcast_form) ∷ (1, 104 ∷ []) ∷ []))
        start in
    (e ≡ none)
    × (unmarshal_args (some (incoming_unmarshaler sample_map_decoder)) t'.mem got stale
        ≡ (none, record { from = b'a' ∷ []; message = b'h' ∷ b'i' ∷ [] }))
broadcast_arrived_example =
    broadcast_arrived sample_map_format sample_map_format-MapFormatLaws sample_socket (λ x. x.1)
      sample_socket-DecoderLaws (λ ws. ws.incoming) sample_socket-FrameReading sample_sending
      frame_output sample_socket-FrameWriting sample_socket-EncoderLaws sample_socket-FlushLaws
      outgoing_marshaler sample_map_decoder sample_map_decoder-MapDecoderLaws sample_map_appender
      sample_map_appender-MapAppenderLaws 0 spoken stale broadcast_request no_request broadcast_form
      ((1, 104 ∷ []) ∷ []) (on_socket []) (on_socket ((2, broadcast_form) ∷ (1, 104 ∷ []) ∷ []))
      start start (omega arith, omega arith, omega arith) start-IsShared start-IsShared
      spoken-Encodes refl broadcast_request-IsSendable broadcast_sent broadcast_link refl
