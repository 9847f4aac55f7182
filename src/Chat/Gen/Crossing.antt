-- ===== src/Chat/Gen/Crossing.antt =====
-- An Outgoing that is read as an Incoming: the broadcasts of the server are the arguments of the
-- method Message, at the other end of a connection.
use bimpc.Common.{◌≡◌, ap, ◌∙◌, none, [], ◌∷◌, ◌++◌, get_or, arith}
use mathlib.Core.List.{append_assoc}
use bimpc.Memory.{Bytes}
use bimpc.Maps.{MapFormat, MapFormatLaws, MapDecoder, MapDecoderLaws, MapAppender, MapAppenderLaws}
use bimpc.Maps.Schema.{known, unknown}
use bimpc.Chat.{Incoming, Outgoing}
use bimpc.Chat.Gen.{time_key, unmarshal_incoming, marshal_outgoing}
use bimpc.Chat.Gen.OfIncoming.{
  IncomingField, from_field, message_field, incoming_schema, unmarshal_incoming_lem,
}
use bimpc.Chat.Gen.OfOutgoing.{IsOutgoing, marshal_outgoing_lem}

module _ (f : MapFormat) (format : MapFormatLaws f) (d : MapDecoder Bytes)
    (laws : MapDecoderLaws f d (λ b. b)) (a : MapAppender) (appends : MapAppenderLaws f a) where
  not_time : (x : IncomingField) → ¬ ((incoming_schema f).key x ≡ time_key)
  not_time (from_field v) e = absurd (omega (arith, ap (λ (b : Bytes). get_or b 0 0) e))
  not_time (message_field v) e = absurd (omega (arith, ap (λ (b : Bytes). get_or b 0 0) e))

  -- The MessagePack of an Outgoing, read as an Incoming: UnmarshalMsg skips the time, returns no error
  -- and what follows, and sets sender and message to those that were sent.
  pub unmarshal_incoming-marshal_outgoing :
      (z : Outgoing) (old : Incoming) (rest : Bytes)
      → IsOutgoing z
      → unmarshal_incoming d (marshal_outgoing a z [] ++ rest) old
        ≡ (rest, none, record { from = z.from; message = z.message })
  unmarshal_incoming-marshal_outgoing z old rest (fit_time, fit_from, fit_message) =
      ap (λ b. unmarshal_incoming d (b ++ rest) old) (marshal_outgoing_lem f a appends z [])
      ∙ ap (λ b. unmarshal_incoming d b old) (simp append_assoc)
      ∙ unmarshal_incoming_lem f d laws
          (unknown time_key (f.uint32 z.time)
            ∷ known (from_field z.from)
            ∷ known (message_field z.message)
            ∷ [])
          old rest (omega arith)
          (
            (omega arith, (λ x. not_time x.0 x.1), format.uint32_object z.time fit_time),
            ((omega arith, fit_from), ((omega arith, fit_message), tt)),
          )
