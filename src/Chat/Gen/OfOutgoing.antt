-- ===== src/Chat/Gen/OfOutgoing.antt =====
-- The methods generated for Outgoing, against the form that they read and write.
use bimpc.Common.{
  ℕ, ◌+◌, ◌<◌, ◌≤◌, ◌^◌, ◌≡◌, ap, ◌∙◌, none, List, [], ◌∷◌, ◌++◌, length, All, arith, length-append,
}
use mathlib.Core.List.{append_assoc, append-nil}
use bimpc.Memory.{Bytes}
use bimpc.Action.{ok}
use bimpc.Mpc.Gen.Encode.{Adds, write-Adds, then-Adds}
use bimpc.Maps.{
  MapFormat, MapDecoder, MapDecoderLaws, MapEncoder, MapEncoderLaws, MapAppender, MapAppenderLaws,
  map_form,
}
use bimpc.Maps.Schema.{
  Schema, Entry, entries_form, set_all, known_all, value_form, IsEntry, IsSwitch,
}
use bimpc.Maps.Read.{same_text-ne, decode_map_lem, left_over_lem}
use bimpc.Chat.{Outgoing}
use bimpc.Chat.Gen.{
  time_key, from_key, message_key, outgoing_field, decode_outgoing, unmarshal_outgoing,
  encode_outgoing, marshal_outgoing, outgoing_size,
}

pub data OutgoingField : Type 0 where
  time_field : ℕ → OutgoingField
  from_field : Bytes → OutgoingField
  message_field : Bytes → OutgoingField

abbrev pub outgoing_schema : MapFormat → Schema Outgoing OutgoingField
outgoing_schema f = record {
  key = λ x. elim x [
    | time_field v ↦ time_key
    | from_field v ↦ from_key
    | message_field v ↦ message_key
  ];
  form = λ x. elim x [
    | time_field v ↦ f.uint32 v
    | from_field v ↦ f.base.string v
    | message_field v ↦ f.base.string v
  ];
  set_field = λ x z. elim x [
    | time_field v ↦ record z { time = v }
    | from_field v ↦ record z { from = v }
    | message_field v ↦ record z { message = v }
  ];
  IsFit = λ x. elim x [
    | time_field v ↦ v < 2 ^ 32
    | from_field v ↦ length v < 2 ^ 32
    | message_field v ↦ length v < 2 ^ 32
  ];
  fields = λ z. time_field z.time ∷ from_field z.from ∷ message_field z.message ∷ [];
}

-- What the carrier's forms can hold.
abbrev pub IsOutgoing : Outgoing → Type 0
IsOutgoing z = (z.time < 2 ^ 32) × (length z.from < 2 ^ 32) × (length z.message < 2 ^ 32)

module _ (f : MapFormat) {R : Type 0} (d : MapDecoder R) (input : R → Bytes)
    (laws : MapDecoderLaws f d input) where
  known_field :
      (x : OutgoingField) (z : Outgoing) (rd : R) (rest : Bytes)
      → (outgoing_schema f).IsFit x
      → input rd ≡ (outgoing_schema f).form x ++ rest
      → (rd' : R) × (outgoing_field d ((outgoing_schema f).key x) (z, rd)
          ≡ (ok tt, ((outgoing_schema f).set_field x z, rd')))
        × (input rd' ≡ rest)
  unfolding outgoing_field
  known_field (time_field v) z rd rest fit i =
      let (rd', e, i') = laws.uint32 v fit rd rest i in (rd', rw e, i')
  known_field (from_field v) z rd rest fit i =
      let (rd', e, i') = laws.base.string v fit rd rest i in (rd', rw e, i')
  known_field (message_field v) z rd rest fit i =
      let (rd', e, i') = laws.base.string v fit rd rest i in (rd', rw e, i')

  pub outgoing_field-IsSwitch : IsSwitch (outgoing_schema f) d input (outgoing_field d)
  unfolding outgoing_field
  outgoing_field-IsSwitch = record {
    at_known = known_field;
    at_unknown = λ k new. rw (
      same_text-ne k time_key (λ e. new (time_field 0, e)),
      same_text-ne k from_key (λ e. new (from_field [], e)),
      same_text-ne k message_key (λ e. new (message_field [], e)),
    );
  }

  -- DecodeMsg reads a map of at most 15 entries, in any order and with repeated, missing or unknown
  -- keys: it returns no error, sets the fields in the order of the map, and leaves what follows.
  pub decode_outgoing_lem :
      (xs : List (Entry OutgoingField)) (z : Outgoing) (rd : R) (rest : Bytes)
      → length xs < 16
      → All (IsEntry (outgoing_schema f) f) xs
      → input rd ≡ map_form (length xs) ++ (entries_form (outgoing_schema f) xs ++ rest)
      → (rd' : R) × (decode_outgoing d (z, rd) ≡ (ok tt, (set_all (outgoing_schema f) xs z, rd')))
        × (input rd' ≡ rest)
  unfolding decode_outgoing
  decode_outgoing_lem =
      decode_map_lem f (outgoing_schema f) d input laws (outgoing_field d) outgoing_field-IsSwitch

module _ (f : MapFormat) (d : MapDecoder Bytes) (laws : MapDecoderLaws f d (λ b. b)) where
  -- UnmarshalMsg of an Outgoing reads a map of at most 15 entries, in any order and with repeated, missing or
  -- unknown keys: it returns no error, sets the fields in the order of the map, and returns the bytes
  -- that follow.
  pub unmarshal_outgoing_lem :
      (xs : List (Entry OutgoingField)) (z : Outgoing) (rest : Bytes)
      → length xs < 16
      → All (IsEntry (outgoing_schema f) f) xs
      → unmarshal_outgoing d
          (map_form (length xs) ++ (entries_form (outgoing_schema f) xs ++ rest))
          z
        ≡ (rest, none, set_all (outgoing_schema f) xs z)
  unfolding unmarshal_outgoing
  unmarshal_outgoing_lem =
      left_over_lem f (outgoing_schema f) d laws (outgoing_field d)
        (outgoing_field-IsSwitch f d (λ b. b) laws)

  -- It reads back what was written of a value, whatever it decodes into.
  pub unmarshal_outgoing-value_form :
      (y z : Outgoing) (rest : Bytes)
      → IsOutgoing z
      → unmarshal_outgoing d (value_form (outgoing_schema f) z ++ rest) y ≡ (rest, none, z)
  unmarshal_outgoing-value_form y z rest (fit_time, fit_from, fit_message) =
      unmarshal_outgoing_lem (known_all (outgoing_schema f) ((outgoing_schema f).fields z)) y rest
        (omega arith)
        ((omega arith, fit_time), ((omega arith, fit_from), ((omega arith, fit_message), tt)))

module _ (f : MapFormat) {W : Type 0} (e : MapEncoder W) (output : W → Bytes)
    (laws : MapEncoderLaws f e output) where
  -- An EncodeMsg that returns no error has written the form of the value, and nothing else.
  pub encode_outgoing_lem :
      (z : Outgoing) → Adds output (encode_outgoing e z) (value_form (outgoing_schema f) z)
  unfolding encode_outgoing
  encode_outgoing_lem z w h =
      then-Adds e.base output _ _ _ _ (write-Adds e.base output _ _ _ (laws.base.append _))
        (then-Adds e.base output _ _ _ _ (write-Adds e.base output _ _ _ (laws.uint32 z.time)) (
          then-Adds e.base output _ _ _ _ (write-Adds e.base output _ _ _ (laws.base.append _)) (
            then-Adds e.base output _ _ _ _
              (write-Adds e.base output _ _ _ (laws.base.string z.from))
              (then-Adds e.base output _ _ _ _ (write-Adds e.base output _ _ _ (laws.base.append _))
                (write-Adds e.base output _ _ _ (laws.base.string z.message))))))
        w h
      ∙ ap (λ b. output w ++ b) (simp (append_assoc, append-nil))

module _ (f : MapFormat) (a : MapAppender) (laws : MapAppenderLaws f a) where
  -- MarshalMsg appends the same form.
  pub marshal_outgoing_lem :
      (z : Outgoing) (b : Bytes) → marshal_outgoing a z b ≡ b ++ value_form (outgoing_schema f) z
  unfolding marshal_outgoing
  marshal_outgoing_lem z b =
      simp (laws.base.require, laws.base.string, laws.uint32, append_assoc, append-nil)

  -- It appends at most Msgsize bytes.
  pub marshal_outgoing-length :
      (z : Outgoing) (b : Bytes) → length (marshal_outgoing a z b) ≤ length b + outgoing_size a z
  unfolding outgoing_size
  marshal_outgoing-length z b = rw (marshal_outgoing_lem z b) (
      simp length-append (
        omega (
          arith,
          laws.uint32_size z.time,
          laws.base.string_size z.from,
          laws.base.string_size z.message,
        )))
