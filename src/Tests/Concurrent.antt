-- ===== src/Tests/Concurrent.antt =====
-- Two goroutines in WriteMessage at a time, and a read, over the connection of Sample.antt.
use bimpc.Common.{◌≡◌, refl, sym, ◌∙◌, none, List, [], ◌∷◌, ◌++◌, ◌==◌, if◌then◌else◌, length}
use mathlib.Core.List.{append-nil}
use bimpc.Memory.{Bytes}
use bimpc.Mpc.{Request, to_wire, get_message}
use bimpc.Mpc.Gen.{encode_message}
use bimpc.Mpc.HandOver.{payload}
use bimpc.Shared.{encode_flush}
use bimpc.Generic.{send, read_message}
use bimpc.Generic.Concurrent.{
  System, outside, Step, begins, fills, sends, returns, reads, take_step, take_steps,
}
use bimpc.Generic.Concurrent.Invariant.{IsSystem, start-IsSystem, take_step-IsSystem}
use bimpc.Generic.Concurrent.Sent.{AreSent, forms, take_steps-forms}
use bimpc.Generic.Concurrent.Delivered.{take_steps-delivered}
use bimpc.Generic.Read.{read_message_lem}
use bimpc.Mpc.ToWire.{sent}
use bimpc.Sample.{
  sample_format, sample_connection, Item, Sink, text_form, item_marshaler, append_form,
}
use bimpc.Sample.Laws.{
  sample_decoder-DecoderLaws, sample_encoder-EncoderLaws, sample_encoder-FlushLaws,
  sample_encoder-kept, sink_output, text-Encodes, item_marshaler-Appends,
}
use bimpc.Tests.{
  codec, question, no_request, hi_form, wire, start, start-IsShared, question-IsSendable, asked,
}
use bimpc.Generic.Stream.{read_all}
use bimpc.Generic.Concurrent.Arrived.{letters_of, take_steps-read_all}
use bimpc.Shared.Letter.{arriving}
use bimpc.Tests.Stream.{farewell, farewell-IsSendable}

abbrev quiet : System Bytes Bytes Sink Item
quiet = record {
  codec = record { conn = []; r = asked; wire = wire; w = record { buffered = []; got = 2 ∷ [] } };
  shared = start;
  writers = λ i. outside none;
}

quiet-IsSystem : IsSystem item_marshaler quiet
quiet-IsSystem = start-IsSystem item_marshaler quiet.codec start start-IsShared

-- Goroutine 1 comes second, and sends first.
abbrev crossing : List (Step Item)
crossing =
    begins 0 0 question
    ∷ begins 1 0 farewell
    ∷ fills 0
    ∷ fills 1
    ∷ reads no_request
    ∷ sends 1
    ∷ returns 1
    ∷ sends 0
    ∷ returns 0
    ∷ []

abbrev payloads : Request Item → Bytes × Bytes
payloads msg = (if length msg.func == 3 then hi_form else text_form (b'o' ∷ []), [])

crossing-AreSent : AreSent sample_connection item_marshaler crossing quiet
unfolding take_step to_wire item_marshaler append_form encode_message encode_flush get_message send
crossing-AreSent = (tt, (tt, (tt, (tt, (tt, (refl, (tt, (refl, (tt, tt)))))))))

crossing_link :
    (take_steps sample_connection item_marshaler crossing quiet).codec.w.got
    ≡ (2 ∷ []) ++ forms sample_format payloads (farewell ∷ question ∷ [])
unfolding take_step to_wire item_marshaler append_form get_message
crossing_link =
    take_steps-forms sample_format sample_connection sink_output (λ w. w.got)
      sample_encoder-EncoderLaws sample_encoder-FlushLaws sample_encoder-kept (λ b. b)
      sample_decoder-DecoderLaws item_marshaler item_marshaler-Appends payloads crossing (2 ∷ [])
      quiet quiet-IsSystem refl refl crossing-AreSent
      ((text-Encodes (b'o' ∷ []), refl), ((text-Encodes (b'h' ∷ b'i' ∷ []), refl), tt))

take_steps-read_all_example :
    read_all sample_connection
      (no_request ∷ no_request ∷ [])
      (codec (forms sample_format payloads (farewell ∷ question ∷ [])))
      start
    ≡ arriving (letters_of payloads (farewell ∷ question ∷ []))
unfolding take_step to_wire item_marshaler append_form get_message
take_steps-read_all_example =
    take_steps-read_all sample_format sample_connection sink_output (λ w. w.got)
      sample_encoder-EncoderLaws sample_encoder-FlushLaws sample_encoder-kept (λ b. b)
      sample_decoder-DecoderLaws item_marshaler item_marshaler-Appends payloads crossing (2 ∷ [])
      quiet (no_request ∷ no_request ∷ [])
      (codec (forms sample_format payloads (farewell ∷ question ∷ []))) start quiet-IsSystem refl
      refl crossing-AreSent
      ((text-Encodes (b'o' ∷ []), refl), ((text-Encodes (b'h' ∷ b'i' ∷ []), refl), tt))
      (farewell-IsSendable, (question-IsSendable, tt)) crossing_link refl start-IsShared

-- A write is under way when the read comes.
abbrev begun : System Bytes Bytes Sink Item
begun = take_step sample_connection item_marshaler (begins 0 0 farewell) quiet

abbrev writing : System Bytes Bytes Sink Item
writing = take_step sample_connection item_marshaler (fills 0) begun

writing-IsSystem : IsSystem item_marshaler writing
writing-IsSystem =
    take_step-IsSystem sample_format sample_connection (λ b. b) sample_decoder-DecoderLaws
      item_marshaler item_marshaler-Appends (fills 0) begun
      (take_step-IsSystem sample_format sample_connection (λ b. b) sample_decoder-DecoderLaws
        item_marshaler item_marshaler-Appends (begins 0 0 farewell) quiet quiet-IsSystem)

still_asked : writing.codec.r ≡ asked
unfolding take_step to_wire item_marshaler append_form get_message
still_asked = refl

take_steps-delivered_example :
    let (e, msg, c', s') = read_message sample_connection no_request writing.codec writing.shared in
    let t =
      take_steps sample_connection item_marshaler
        (reads no_request ∷ sends 0 ∷ begins 1 0 question ∷ fills 1 ∷ returns 0 ∷ [])
        writing in
    (payload t.shared.mem msg.args ≡ payload s'.mem msg.args)
    × (payload t.shared.mem msg.result ≡ payload s'.mem msg.result)
take_steps-delivered_example =
    take_steps-delivered sample_format sample_connection (λ b. b) sample_decoder-DecoderLaws
      item_marshaler item_marshaler-Appends no_request
      (sends 0 ∷ begins 1 0 question ∷ fills 1 ∷ returns 0 ∷ []) writing writing-IsSystem
      (read_message_lem sample_format sample_connection (λ b. b) sample_decoder-DecoderLaws
        (sent question hi_form []) [] no_request writing.codec writing.shared question-IsSendable
        writing-IsSystem.flight.shared (still_asked ∙ sym (append-nil asked))).0
