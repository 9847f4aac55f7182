-- ===== src/Chat/Gen/OfIncoming.antt =====
-- The methods generated for Incoming, against the form that they read and write.
use bimpc.Common.{
  ◌+◌, ◌<◌, ◌≤◌, ◌^◌, ◌≡◌, ap, ◌∙◌, none, List, [], ◌∷◌, ◌++◌, length, All, arith, length-append,
}
use mathlib.Core.List.{append_assoc, append-nil}
use bimpc.Memory.{Bytes}
use bimpc.Action.{ok}
use bimpc.Mpc.Gen.Encode.{Adds, write-Adds, then-Adds}
use bimpc.Maps.{
  MapFormat, MapDecoder, MapDecoderLaws, MapEncoder, MapEncoderLaws, MapAppender, MapAppenderLaws,
  map_form,
}
use bimpc.Maps.Schema.{
  Schema, Entry, entries_form, set_all, known_all, value_form, IsEntry, IsSwitch,
}
use bimpc.Maps.Read.{same_text-ne, decode_map_lem, left_over_lem}
use bimpc.Chat.{Incoming}
use bimpc.Chat.Gen.{
  from_key, message_key, incoming_field, decode_incoming, unmarshal_incoming, encode_incoming,
  marshal_incoming, incoming_size,
}

pub data IncomingField : Type 0 where
  from_field : Bytes → IncomingField
  message_field : Bytes → IncomingField

abbrev pub incoming_schema : MapFormat → Schema Incoming IncomingField
incoming_schema f = record {
  key = λ x. elim x [ from_field v ↦ from_key | message_field v ↦ message_key ];
  form = λ x. elim x [ from_field v ↦ f.base.string v | message_field v ↦ f.base.string v ];
  set_field = λ x z. elim x [
    | from_field v ↦ record z { from = v }
    | message_field v ↦ record z { message = v }
  ];
  IsFit = λ x. elim x [ from_field v ↦ length v < 2 ^ 32 | message_field v ↦ length v < 2 ^ 32 ];
  fields = λ z. from_field z.from ∷ message_field z.message ∷ [];
}

-- What the carrier's forms can hold.
abbrev pub IsIncoming : Incoming → Type 0
IsIncoming z = (length z.from < 2 ^ 32) × (length z.message < 2 ^ 32)

module _ (f : MapFormat) {R : Type 0} (d : MapDecoder R) (input : R → Bytes)
    (laws : MapDecoderLaws f d input) where
  known_field :
      (x : IncomingField) (z : Incoming) (rd : R) (rest : Bytes)
      → (incoming_schema f).IsFit x
      → input rd ≡ (incoming_schema f).form x ++ rest
      → (rd' : R) × (incoming_field d ((incoming_schema f).key x) (z, rd)
          ≡ (ok tt, ((incoming_schema f).set_field x z, rd')))
        × (input rd' ≡ rest)
  unfolding incoming_field
  known_field (from_field v) z rd rest fit i =
      let (rd', e, i') = laws.base.string v fit rd rest i in (rd', rw e, i')
  known_field (message_field v) z rd rest fit i =
      let (rd', e, i') = laws.base.string v fit rd rest i in (rd', rw e, i')

  pub incoming_field-IsSwitch : IsSwitch (incoming_schema f) d input (incoming_field d)
  unfolding incoming_field
  incoming_field-IsSwitch = record {
    at_known = known_field;
    at_unknown = λ k new. rw (
      same_text-ne k from_key (λ e. new (from_field [], e)),
      same_text-ne k message_key (λ e. new (message_field [], e)),
    );
  }

  -- DecodeMsg reads a map of at most 15 entries, in any order and with repeated, missing or unknown
  -- keys: it returns no error, sets the fields in the order of the map, and leaves what follows.
  pub decode_incoming_lem :
      (xs : List (Entry IncomingField)) (z : Incoming) (rd : R) (rest : Bytes)
      → length xs < 16
      → All (IsEntry (incoming_schema f) f) xs
      → input rd ≡ map_form (length xs) ++ (entries_form (incoming_schema f) xs ++ rest)
      → (rd' : R) × (decode_incoming d (z, rd) ≡ (ok tt, (set_all (incoming_schema f) xs z, rd')))
        × (input rd' ≡ rest)
  unfolding decode_incoming
  decode_incoming_lem =
      decode_map_lem f (incoming_schema f) d input laws (incoming_field d) incoming_field-IsSwitch

module _ (f : MapFormat) (d : MapDecoder Bytes) (laws : MapDecoderLaws f d (λ b. b)) where
  -- UnmarshalMsg of an Incoming reads a map of at most 15 entries, in any order and with repeated, missing or
  -- unknown keys: it returns no error, sets the fields in the order of the map, and returns the bytes
  -- that follow.
  pub unmarshal_incoming_lem :
      (xs : List (Entry IncomingField)) (z : Incoming) (rest : Bytes)
      → length xs < 16
      → All (IsEntry (incoming_schema f) f) xs
      → unmarshal_incoming d
          (map_form (length xs) ++ (entries_form (incoming_schema f) xs ++ rest))
          z
        ≡ (rest, none, set_all (incoming_schema f) xs z)
  unfolding unmarshal_incoming
  unmarshal_incoming_lem =
      left_over_lem f (incoming_schema f) d laws (incoming_field d)
        (incoming_field-IsSwitch f d (λ b. b) laws)

  -- It reads back what was written of a value, whatever it decodes into.
  pub unmarshal_incoming-value_form :
      (y z : Incoming) (rest : Bytes)
      → IsIncoming z
      → unmarshal_incoming d (value_form (incoming_schema f) z ++ rest) y ≡ (rest, none, z)
  unmarshal_incoming-value_form y z rest (fit_from, fit_message) =
      unmarshal_incoming_lem (known_all (incoming_schema f) ((incoming_schema f).fields z)) y rest
        (omega arith) ((omega arith, fit_from), ((omega arith, fit_message), tt))

module _ (f : MapFormat) {W : Type 0} (e : MapEncoder W) (output : W → Bytes)
    (laws : MapEncoderLaws f e output) where
  -- An EncodeMsg that returns no error has written the form of the value, and nothing else.
  pub encode_incoming_lem :
      (z : Incoming) → Adds output (encode_incoming e z) (value_form (incoming_schema f) z)
  unfolding encode_incoming
  encode_incoming_lem z w h =
      then-Adds e.base output _ _ _ _ (write-Adds e.base output _ _ _ (laws.base.append _))
        (then-Adds e.base output _ _ _ _ (write-Adds e.base output _ _ _ (laws.base.string z.from))
          (then-Adds e.base output _ _ _ _ (write-Adds e.base output _ _ _ (laws.base.append _))
            (write-Adds e.base output _ _ _ (laws.base.string z.message))))
        w h
      ∙ ap (λ b. output w ++ b) (simp (append_assoc, append-nil))

module _ (f : MapFormat) (a : MapAppender) (laws : MapAppenderLaws f a) where
  -- MarshalMsg appends the same form.
  pub marshal_incoming_lem :
      (z : Incoming) (b : Bytes) → marshal_incoming a z b ≡ b ++ value_form (incoming_schema f) z
  unfolding marshal_incoming
  marshal_incoming_lem z b = simp (laws.base.require, laws.base.string, append_assoc, append-nil)

  -- It appends at most Msgsize bytes.
  pub marshal_incoming-length :
      (z : Incoming) (b : Bytes) → length (marshal_incoming a z b) ≤ length b + incoming_size a z
  unfolding incoming_size
  marshal_incoming-length z b = rw (marshal_incoming_lem z b) (
      simp length-append
        (omega (arith, laws.base.string_size z.from, laws.base.string_size z.message)))
