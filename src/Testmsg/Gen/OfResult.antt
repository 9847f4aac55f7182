-- ===== src/Testmsg/Gen/OfResult.antt =====
-- The methods generated for Result, against the form that they read and write.
use bimpc.Common.{
  ℕ, ◌+◌, ◌<◌, ◌≤◌, ◌^◌, ◌≡◌, ap, ◌∙◌, none, List, [], ◌∷◌, ◌++◌, length, All, arith, length-append,
}
use mathlib.Core.List.{append_assoc, append-nil}
use bimpc.Memory.{Bytes}
use bimpc.Action.{ok}
use bimpc.Mpc.Gen.Encode.{Adds, write-Adds, then-Adds}
use bimpc.Maps.{
  MapFormat, MapDecoder, MapDecoderLaws, MapEncoder, MapEncoderLaws, MapAppender, MapAppenderLaws,
  map_form,
}
use bimpc.Maps.Schema.{
  Schema, Entry, entries_form, set_all, known_all, value_form, IsEntry, IsSwitch,
}
use bimpc.Maps.Read.{same_text-ne, decode_map_lem, left_over_lem}
use bimpc.Testmsg.{Result}
use bimpc.Testmsg.Gen.{
  c_key, s_key, result_field, decode_result, unmarshal_result, encode_result, marshal_result,
  result_size,
}

pub data ResultField : Type 0 where
  c_field : ℕ → ResultField
  s_field : Bytes → ResultField

abbrev pub result_schema : MapFormat → Schema Result ResultField
result_schema f = record {
  key = λ x. elim x [ c_field v ↦ c_key | s_field v ↦ s_key ];
  form = λ x. elim x [ c_field v ↦ f.int64 v | s_field v ↦ f.base.string v ];
  set_field = λ x z. elim x [ c_field v ↦ record z { c = v } | s_field v ↦ record z { s = v } ];
  IsFit = λ x. elim x [ c_field v ↦ v < 2 ^ 64 | s_field v ↦ length v < 2 ^ 32 ];
  fields = λ z. c_field z.c ∷ s_field z.s ∷ [];
}

-- What the carrier's forms can hold.
abbrev pub IsResult : Result → Type 0
IsResult z = (z.c < 2 ^ 64) × (length z.s < 2 ^ 32)

module _ (f : MapFormat) {R : Type 0} (d : MapDecoder R) (input : R → Bytes)
    (laws : MapDecoderLaws f d input) where
  known_field :
      (x : ResultField) (z : Result) (rd : R) (rest : Bytes)
      → (result_schema f).IsFit x
      → input rd ≡ (result_schema f).form x ++ rest
      → (rd' : R) × (result_field d ((result_schema f).key x) (z, rd)
          ≡ (ok tt, ((result_schema f).set_field x z, rd')))
        × (input rd' ≡ rest)
  unfolding result_field
  known_field (c_field v) z rd rest fit i =
      let (rd', e, i') = laws.int64 v fit rd rest i in (rd', rw e, i')
  known_field (s_field v) z rd rest fit i =
      let (rd', e, i') = laws.base.string v fit rd rest i in (rd', rw e, i')

  pub result_field-IsSwitch : IsSwitch (result_schema f) d input (result_field d)
  unfolding result_field
  result_field-IsSwitch = record {
    at_known = known_field;
    at_unknown = λ k new. rw (
      same_text-ne k c_key (λ e. new (c_field 0, e)),
      same_text-ne k s_key (λ e. new (s_field [], e)),
    );
  }

  -- DecodeMsg reads a map of at most 15 entries, in any order and with repeated, missing or unknown
  -- keys: it returns no error, sets the fields in the order of the map, and leaves what follows.
  pub decode_result_lem :
      (xs : List (Entry ResultField)) (z : Result) (rd : R) (rest : Bytes)
      → length xs < 16
      → All (IsEntry (result_schema f) f) xs
      → input rd ≡ map_form (length xs) ++ (entries_form (result_schema f) xs ++ rest)
      → (rd' : R) × (decode_result d (z, rd) ≡ (ok tt, (set_all (result_schema f) xs z, rd')))
        × (input rd' ≡ rest)
  unfolding decode_result
  decode_result_lem =
      decode_map_lem f (result_schema f) d input laws (result_field d) result_field-IsSwitch

module _ (f : MapFormat) (d : MapDecoder Bytes) (laws : MapDecoderLaws f d (λ b. b)) where
  -- UnmarshalMsg of a Result reads a map of at most 15 entries, in any order and with repeated, missing or
  -- unknown keys: it returns no error, sets the fields in the order of the map, and returns the bytes
  -- that follow.
  pub unmarshal_result_lem :
      (xs : List (Entry ResultField)) (z : Result) (rest : Bytes)
      → length xs < 16
      → All (IsEntry (result_schema f) f) xs
      → unmarshal_result d (map_form (length xs) ++ (entries_form (result_schema f) xs ++ rest)) z
        ≡ (rest, none, set_all (result_schema f) xs z)
  unfolding unmarshal_result
  unmarshal_result_lem =
      left_over_lem f (result_schema f) d laws (result_field d)
        (result_field-IsSwitch f d (λ b. b) laws)

  -- It reads back what was written of a value, whatever it decodes into.
  pub unmarshal_result-value_form :
      (y z : Result) (rest : Bytes)
      → IsResult z
      → unmarshal_result d (value_form (result_schema f) z ++ rest) y ≡ (rest, none, z)
  unmarshal_result-value_form y z rest (fit_c, fit_s) =
      unmarshal_result_lem (known_all (result_schema f) ((result_schema f).fields z)) y rest
        (omega arith) ((omega arith, fit_c), ((omega arith, fit_s), tt))

module _ (f : MapFormat) {W : Type 0} (e : MapEncoder W) (output : W → Bytes)
    (laws : MapEncoderLaws f e output) where
  -- An EncodeMsg that returns no error has written the form of the value, and nothing else.
  pub encode_result_lem :
      (z : Result) → Adds output (encode_result e z) (value_form (result_schema f) z)
  unfolding encode_result
  encode_result_lem z w h =
      then-Adds e.base output _ _ _ _ (write-Adds e.base output _ _ _ (laws.base.append _))
        (then-Adds e.base output _ _ _ _ (write-Adds e.base output _ _ _ (laws.int64 z.c)) (
          then-Adds e.base output _ _ _ _ (write-Adds e.base output _ _ _ (laws.base.append _))
            (write-Adds e.base output _ _ _ (laws.base.string z.s))))
        w h
      ∙ ap (λ b. output w ++ b) (simp (append_assoc, append-nil))

module _ (f : MapFormat) (a : MapAppender) (laws : MapAppenderLaws f a) where
  -- MarshalMsg appends the same form.
  pub marshal_result_lem :
      (z : Result) (b : Bytes) → marshal_result a z b ≡ b ++ value_form (result_schema f) z
  unfolding marshal_result
  marshal_result_lem z b =
      simp (laws.base.require, laws.base.string, laws.int64, append_assoc, append-nil)

  -- It appends at most Msgsize bytes.
  pub marshal_result-length :
      (z : Result) (b : Bytes) → length (marshal_result a z b) ≤ length b + result_size a z
  unfolding result_size
  marshal_result-length z b =
      rw (marshal_result_lem z b)
        (simp length-append (omega (arith, laws.int64_size z.c, laws.base.string_size z.s)))
