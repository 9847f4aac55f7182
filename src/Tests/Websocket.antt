-- ===== src/Tests/Websocket.antt =====
-- The theorems about websocket at concrete inputs, over the socket of Sample/Socket.antt.
use bimpc.Common.{◌≡◌, refl, none, List, [], ◌∷◌, ◌++◌, ℕ}
use bimpc.Memory.{Bytes}
use bimpc.Mpc.{to_wire}
use bimpc.Mpc.Gen.{encode_message}
use bimpc.Mpc.HandOver.{payload}
use bimpc.Shared.{pooled, encode_flush}
use bimpc.Endpoint.{Call, read, write, calls}
use bimpc.Websocket.{Codec, read_message, write_message}
use bimpc.Websocket.Read.{binary_frame_lem}
use bimpc.Websocket.Write.{write_message-closes}
use bimpc.Websocket.Trace.{websocket_codec, websocket_read-calls}
use bimpc.Sample.{sample_format, Item, item_marshaler, append_form}
use bimpc.Sample.Laws.{item_marshaler-Appends}
use bimpc.Sample.Socket.{
  SampleSocket, sample_socket, sample_sending, frame_output, sample_socket-DecoderLaws,
  sample_socket-FrameReading, sample_socket-FrameWriting,
}
use bimpc.Tests.{
  question, answer, no_request, answer_form, wire, start, start-IsShared, answer-IsSendable,
}

-- An answer in a binary frame with a byte behind it, a text frame, and a binary frame cut short; two
-- frames have been sent, and both buffers hold bytes of earlier frames.
abbrev incoming : List (ℕ × Bytes)
incoming = (2, answer_form ++ (9 ∷ [])) ∷ (1, 104 ∷ []) ∷ (2, 0x95 ∷ []) ∷ []

abbrev socket : SampleSocket
socket = record {
  incoming = incoming;
  sent_frames = (1 ∷ []) ∷ (2 ∷ []) ∷ [];
  writer = none;
  frame = 3 ∷ [];
}

abbrev on_socket : Codec SampleSocket Bytes Bytes
on_socket = record { ws = socket; r = 5 ∷ []; wire = wire; w = 6 ∷ [] }

write_message-closes_example :
    (write_message sample_socket item_marshaler 0 question on_socket start).1.ws.writer ≡ none
write_message-closes_example =
    write_message-closes sample_socket sample_sending frame_output sample_socket-FrameWriting
      item_marshaler 0 question on_socket start refl

written : (write_message sample_socket item_marshaler 0 question on_socket start).0 ≡ none
unfolding write_message pooled to_wire item_marshaler append_form encode_message encode_flush
written = refl

-- A write between reads, the second of a text frame and the third of one that is cut short.
abbrev more_calls : List (Call Item)
more_calls = write 0 question ∷ read no_request ∷ read no_request ∷ []

websocket_read-calls_example :
    let (e, msg, c', s') = read_message sample_socket no_request on_socket start in
    let (c'', s'') = calls (websocket_codec sample_socket item_marshaler) more_calls c' s' in
    (payload s''.mem msg.args ≡ payload s'.mem msg.args)
    × (payload s''.mem msg.result ≡ payload s'.mem msg.result)
websocket_read-calls_example =
    websocket_read-calls sample_format sample_socket (λ x. x.1) sample_socket-DecoderLaws
      item_marshaler item_marshaler-Appends no_request more_calls on_socket start start-IsShared
      (binary_frame_lem sample_format sample_socket (λ x. x.1) sample_socket-DecoderLaws
        (λ ws. ws.incoming) sample_socket-FrameReading answer (9 ∷ []) _ no_request on_socket start
        answer-IsSendable start-IsShared refl).0
