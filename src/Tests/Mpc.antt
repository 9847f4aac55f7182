-- ===== src/Tests/Mpc.antt =====
-- The theorems about mpc at concrete inputs, over the reader and writer of Sample.antt.
use bimpc.Common.{◌+◌, ◌≤◌, ◌≡◌, refl, none, some, [], ◌∷◌, ◌++◌, length}
use bimpc.Memory.{Memory, Slice, Bytes, nil_slice, slice}
use bimpc.Action.{ok}
use bimpc.Action.Rules.{Runs}
use bimpc.Mpc.{Message, Filling, to_wire, from_wire}
use bimpc.Mpc.{unmarshal, put_message}
use bimpc.Mpc.Gen.{decode_message, unmarshal_message, encode_message, marshal_message, message_size}
use bimpc.Mpc.Gen.Form.{content, received_content, IsWire}
use bimpc.Mpc.Gen.Same.{encode_message-marshal_message}
use bimpc.Mpc.Gen.Encode.{marshal_message-length}
use bimpc.Mpc.Gen.Decode.{decode_message_lem, unmarshal_message_lem}
use bimpc.Mpc.Gen.Frame.{decode_message-Moves}
use bimpc.Mpc.Moves.{Moves, IsGuarded}
use bimpc.Mpc.HandOver.{payload_slice}
use bimpc.Mpc.FromWire.{delivered, from_wire_lem}
use bimpc.Mpc.ToWire.{sent, to_wire_lem, to_wire-accepts}
use bimpc.Mpc.Marshal.{IsMarshaled}
use bimpc.Mpc.Unmarshal.{decoded, from_wire-unmarshal}
use bimpc.Mpc.Pool.{IsPool, put_message-IsPool}
use bimpc.Sample.{
  sample_format, sample_decoder, sample_encoder, sample_appender, Item, item_marshaler,
  text_unmarshaler, append_form,
}
use bimpc.Sample.Laws.{
  sample_decoder-DecoderLaws, sample_encoder-EncoderLaws, sample_appender-AppenderLaws, sink_output,
  text-Encodes,
}
use bimpc.Tests.{
  question, answer, hi_form, answer_form, sink, start_mem, wire, pooled_message, wire-IsWire,
  wire-Disjoint, start-IsPool, answer-IsSendable,
}

decode_message_lem_example :
    Runs
      (decode_message sample_decoder)
      (record { z = wire; mem = start_mem; rd = answer_form ++ (9 ∷ []) })
      λ _ s'.
        (content s'.mem s'.z ≡ received_content answer) × (s'.rd ≡ 9 ∷ []) × IsWire s'.mem s'.z
decode_message_lem_example =
    decode_message_lem sample_format sample_decoder (λ b. b) sample_decoder-DecoderLaws answer
      (9 ∷ []) (record { z = wire; mem = start_mem; rd = answer_form ++ (9 ∷ []) })
      answer-IsSendable wire-IsWire refl

unmarshal_message_lem_example :
    let (o, e, z', mem') =
      unmarshal_message sample_decoder (answer_form ++ (9 ∷ [])) wire start_mem in
    (o ≡ 9 ∷ []) × (e ≡ none) × (content mem' z' ≡ received_content answer) × IsWire mem' z'
unmarshal_message_lem_example =
    unmarshal_message_lem sample_format sample_decoder sample_decoder-DecoderLaws answer (9 ∷ [])
      wire start_mem answer-IsSendable wire-IsWire

abbrev full : Message
full = record { id = 7; func = []; args = nil_slice; result = slice 0 3; error = none }

encode_message-marshal_message_example :
    (form : Bytes) × (marshal_message sample_appender start_mem full (9 ∷ [])
      ≡ (ok tt, 9 ∷ [] ++ form))
    × (sink_output (encode_message sample_encoder start_mem full sink).1 ≡ sink_output sink ++ form)
unfolding encode_message
encode_message-marshal_message_example =
    encode_message-marshal_message sample_format sample_encoder sink_output
      sample_encoder-EncoderLaws sample_appender sample_appender-AppenderLaws start_mem full sink
      (9 ∷ []) refl

marshal_message-length_example :
    length (marshal_message sample_appender start_mem full (9 ∷ [])).1
    ≤ 1 + message_size sample_appender start_mem full
marshal_message-length_example =
    marshal_message-length sample_format sample_appender sample_appender-AppenderLaws start_mem full
      (9 ∷ [])

decode_message-Moves_example :
    let s' =
      (decode_message sample_decoder
        (record { z = wire; mem = start_mem; rd = 0x95 ∷ 0xcf ∷ 1 ∷ [] })).1 in
    Moves start_mem wire s'.mem s'.z
decode_message-Moves_example =
    decode_message-Moves sample_format sample_decoder (λ b. b) sample_decoder-DecoderLaws
      (record { z = wire; mem = start_mem; rd = 0x95 ∷ 0xcf ∷ 1 ∷ [] }) wire-IsWire

from_wire_lem_example :
    let (msg, m', mem') = from_wire {Obj = Item} wire start_mem in
    (delivered mem' msg ≡ content start_mem wire)
    × IsGuarded (payload_slice msg.args) (1 ∷ 2 ∷ []) mem' m'
    × IsGuarded (payload_slice msg.result) [] mem' m'
from_wire_lem_example = from_wire_lem Item start_mem wire wire-IsWire

from_wire-unmarshal_example :
    let (msg, m', mem') = from_wire {Obj = Item} wire start_mem in
    (unmarshal (some text_unmarshaler) mem' msg.args (8 ∷ [])
      ≡ decoded text_unmarshaler (1 ∷ 2 ∷ []) (8 ∷ []))
    × (unmarshal (some text_unmarshaler) mem' msg.result (8 ∷ [])
        ≡ decoded text_unmarshaler [] (8 ∷ []))
from_wire-unmarshal_example =
    from_wire-unmarshal Item start_mem wire wire-IsWire text_unmarshaler (8 ∷ [])

abbrev filling : Filling
filling = record { m = wire; mem = start_mem }

to_wire_lem_example :
    Runs
      (to_wire item_marshaler question)
      filling
      λ _ s'. (content s'.mem s'.m ≡ sent question hi_form []) × IsWire s'.mem s'.m
to_wire_lem_example =
    to_wire_lem item_marshaler question hi_form [] filling wire-IsWire
      (text-Encodes (b'h' ∷ b'i' ∷ [])) refl

to_wire-accepts_example :
    (a : Slice) × (mem₁ : Memory) × (r : Slice) × (mem₂ : Memory) × IsMarshaled item_marshaler
      question.args wire.args start_mem a mem₁
    × IsMarshaled item_marshaler question.result wire.result mem₁ r mem₂
    × ((to_wire item_marshaler question filling).1 ≡ record {
      m = record {
        id = question.id;
        func = question.func;
        args = a;
        result = r;
        error = question.error;
      };
      mem = mem₂;
    })
unfolding to_wire item_marshaler append_form
to_wire-accepts_example = to_wire-accepts item_marshaler question filling refl

put_message-IsPool_example : IsPool start_mem (put_message start_mem wire (pooled_message ∷ []))
put_message-IsPool_example =
    put_message-IsPool start_mem wire (pooled_message ∷ []) wire-IsWire (wire-Disjoint, tt)
      start-IsPool
