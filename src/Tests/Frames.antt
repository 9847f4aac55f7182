-- ===== src/Tests/Frames.antt =====
-- Three frames of a websocket and what is left behind them, and two messages over it.
use bimpc.Common.{◌≡◌, refl, none, List, [], ◌∷◌, ◌++◌, arith, ℕ}
use bimpc.Memory.{Bytes}
use bimpc.Action.{ok, err, invalid_msg}
use bimpc.Mpc.{to_wire, get_message, put_message}
use bimpc.Mpc.Gen.{encode_message}
use bimpc.Mpc.Gen.Form.{message_form, received_content}
use bimpc.Shared.{pooled, encode_flush}
use bimpc.Shared.Letter.{IsWritten, write_all, content_of}
use bimpc.Websocket.{Codec, write_message}
use bimpc.Websocket.Stream.{Arrival, binary, other, read_frames, read_frames-arrivals}
use bimpc.Websocket.Stream.Sent.{forms, write_all-read_frames}
use bimpc.Sample.{sample_format, item_marshaler, append_form, big_endian}
use bimpc.Sample.Laws.{text-Encodes, item_marshaler-Appends}
use bimpc.Sample.Socket.{
  SampleSocket, sample_socket, sample_sending, frame_output, sample_socket-DecoderLaws,
  sample_socket-FrameReading, sample_socket-FrameWriting, sample_socket-EncoderLaws,
  sample_socket-FlushLaws, sample_socket-FrameOrder,
}
use bimpc.Tests.{question, no_request, wire, start, start-IsShared, question-IsSendable}
use bimpc.Tests.Stream.{first_letter, second_letter, letters, farewell-IsSendable}

-- The first message has a byte behind it, and the frame between the two is text.
abbrev arrived : List Arrival
arrived =
    binary (content_of first_letter) (9 ∷ [])
    ∷ other 1 (104 ∷ [])
    ∷ binary (content_of second_letter) []
    ∷ []

abbrev on_frames : List (ℕ × Bytes) → Codec SampleSocket Bytes Bytes
on_frames incoming = record {
  ws = record { incoming = incoming; sent_frames = (1 ∷ []) ∷ []; writer = none; frame = 3 ∷ [] };
  r = 5 ∷ [];
  wire = wire;
  w = 6 ∷ [];
}

abbrev three_frames : List (ℕ × Bytes)
three_frames =
    (2, message_form sample_format (content_of first_letter) ++ (9 ∷ []))
    ∷ (1, 104 ∷ [])
    ∷ (2, message_form sample_format (content_of second_letter) ++ [])
    ∷ (2, 0x95 ∷ [])
    ∷ []

read_frames-arrivals_example :
    read_frames sample_socket
      (no_request ∷ question ∷ no_request ∷ [])
      (on_frames three_frames)
      start
    ≡ ok (received_content (content_of first_letter))
      ∷ err invalid_msg
      ∷ ok (received_content (content_of second_letter))
      ∷ []
read_frames-arrivals_example =
    read_frames-arrivals sample_format sample_socket (λ x. x.1) sample_socket-DecoderLaws
      (λ ws. ws.incoming) sample_socket-FrameReading sample_socket-FrameOrder arrived
      (no_request ∷ question ∷ no_request ∷ []) ((2, 0x95 ∷ []) ∷ []) (on_frames three_frames) start
      (question-IsSendable, ((λ h. absurd (omega (arith, h))), (farewell-IsSendable, tt))) refl
      start-IsShared refl

letters_sent : IsWritten (write_message sample_socket item_marshaler) letters (on_frames []) start
unfolding write_message pooled to_wire item_marshaler append_form encode_message encode_flush
    get_message
letters_sent = (refl, (refl, tt))

frames_link :
    (write_all
      (write_message sample_socket item_marshaler)
      letters
      (on_frames [])
      start).0.ws.sent_frames
    ≡ ((1 ∷ []) ∷ []) ++ forms sample_format letters
unfolding write_message pooled to_wire item_marshaler append_form encode_message encode_flush
    big_endian get_message put_message
frames_link = refl

abbrev two_frames : List (ℕ × Bytes)
two_frames =
    (2, message_form sample_format (content_of first_letter))
    ∷ (2, message_form sample_format (content_of second_letter))
    ∷ []

write_all-read_frames_example :
    read_frames sample_socket (no_request ∷ question ∷ []) (on_frames two_frames) start
    ≡ ok (received_content (content_of first_letter))
      ∷ ok (received_content (content_of second_letter))
      ∷ []
write_all-read_frames_example =
    write_all-read_frames sample_format sample_socket sample_sending frame_output
      sample_socket-FrameWriting sample_socket-EncoderLaws sample_socket-FlushLaws item_marshaler
      item_marshaler-Appends (λ x. x.1) sample_socket-DecoderLaws (λ ws. ws.incoming)
      sample_socket-FrameReading sample_socket-FrameOrder letters (no_request ∷ question ∷ [])
      (forms sample_format letters) [] (on_frames []) (on_frames two_frames) start start
      (
        (text-Encodes (b'h' ∷ b'i' ∷ []), refl, question-IsSendable),
        ((text-Encodes (b'o' ∷ []), refl, farewell-IsSendable), tt),
      )
      refl start-IsShared start-IsShared letters_sent frames_link refl
