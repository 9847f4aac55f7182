-- ===== src/Tests/Chat.antt =====
-- The theorems about the chat's messages at concrete inputs.
use bimpc.Common.{◌≡◌, refl, none, [], ◌∷◌, ◌++◌, arith}
use bimpc.Maps.{map_form}
use bimpc.Maps.Schema.{Entry, known, unknown, entries_form}
use bimpc.Chat.{Incoming, Outgoing}
use bimpc.Chat.Gen.{unmarshal_incoming, unmarshal_outgoing, marshal_outgoing}
use bimpc.Chat.Gen.OfOutgoing.{
  OutgoingField, time_field, from_field, outgoing_schema, unmarshal_outgoing_lem,
}
use bimpc.Chat.Gen.Crossing.{unmarshal_incoming-marshal_outgoing}
use bimpc.Sample.{big_endian}
use bimpc.Sample.Objects.{skip_object}
use bimpc.Sample.Maps.{
  sample_map_format, sample_map_decoder, sample_map_appender, sample_map_format-MapFormatLaws,
  sample_map_decoder-MapDecoderLaws, sample_map_appender-MapAppenderLaws,
}
use bimpc.Tests.{hi_form}
use bimpc.Memory.{Bytes}
use bimpc.Common.{List, get_or, ap, ◌^◌, ◌-◌}

abbrev greeting_sent : Outgoing
greeting_sent = record { time = 2 ^ 32 - 1; from = b'a' ∷ []; message = b'h' ∷ b'i' ∷ [] }

abbrev stale : Incoming
stale = record { from = b'z' ∷ []; message = b'z' ∷ b'z' ∷ [] }

unmarshal_incoming-marshal_outgoing_example :
    unmarshal_incoming sample_map_decoder
      (marshal_outgoing sample_map_appender greeting_sent [] ++ (9 ∷ []))
      stale
    ≡ (9 ∷ [], none, record { from = b'a' ∷ []; message = b'h' ∷ b'i' ∷ [] })
unmarshal_incoming-marshal_outgoing_example =
    unmarshal_incoming-marshal_outgoing sample_map_format sample_map_format-MapFormatLaws
      sample_map_decoder sample_map_decoder-MapDecoderLaws sample_map_appender
      sample_map_appender-MapAppenderLaws greeting_sent stale (9 ∷ [])
      (omega arith, omega arith, omega arith)

-- The sender before the time, a key "x" that no field has, and the sender once more; no message.
abbrev entries : List (Entry OutgoingField)
entries =
    known (from_field (b'b' ∷ []))
    ∷ known (time_field 7)
    ∷ unknown (b'x' ∷ []) hi_form
    ∷ known (from_field (b'c' ∷ []))
    ∷ []

no_x : ¬ ((y : OutgoingField) × ((outgoing_schema sample_map_format).key y ≡ b'x' ∷ []))
no_x (time_field v, e) = absurd (omega (arith, ap (λ (b : Bytes). get_or b 0 0) e))
no_x (from_field v, e) = absurd (omega (arith, ap (λ (b : Bytes). get_or b 0 0) e))
no_x (OutgoingField.message_field v, e) = absurd (omega (arith, ap (λ (b : Bytes). get_or b 0 0) e))

unmarshal_outgoing_lem_example :
    unmarshal_outgoing sample_map_decoder
      (map_form 4 ++ (entries_form (outgoing_schema sample_map_format) entries ++ (9 ∷ [])))
      greeting_sent
    ≡ (9 ∷ [], none, record { time = 7; from = b'c' ∷ []; message = b'h' ∷ b'i' ∷ [] })
unfolding skip_object big_endian
unmarshal_outgoing_lem_example =
    unmarshal_outgoing_lem sample_map_format sample_map_decoder sample_map_decoder-MapDecoderLaws
      entries greeting_sent (9 ∷ []) (omega arith)
      (
        (omega arith, omega arith),
        (
          (omega arith, omega arith),
          ((omega arith, no_x, (refl, λ rest. refl)), ((omega arith, omega arith), tt)),
        ),
      )
