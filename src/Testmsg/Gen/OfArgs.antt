-- ===== src/Testmsg/Gen/OfArgs.antt =====
-- The methods generated for Args, against the form that they read and write.
use bimpc.Common.{
  ℕ, ◌+◌, ◌<◌, ◌≤◌, ◌^◌, ◌≡◌, ap, ◌∙◌, none, List, [], ◌∷◌, ◌++◌, length, All, arith, length-append,
}
use mathlib.Core.List.{append_assoc, append-nil}
use bimpc.Memory.{Bytes}
use bimpc.Action.{ok}
use bimpc.Mpc.Gen.Encode.{Adds, write-Adds, then-Adds}
use bimpc.Maps.{
  MapFormat, MapDecoder, MapDecoderLaws, MapEncoder, MapEncoderLaws, MapAppender, MapAppenderLaws,
  map_form,
}
use bimpc.Maps.Schema.{
  Schema, Entry, entries_form, set_all, known_all, value_form, IsEntry, IsSwitch,
}
use bimpc.Maps.Read.{same_text-ne, decode_map_lem, left_over_lem}
use bimpc.Testmsg.{Args}
use bimpc.Testmsg.Gen.{
  a_key, b_key, s_key, args_field, decode_args, unmarshal_args, encode_args, marshal_args,
  args_size,
}

pub data ArgsField : Type 0 where
  a_field : ℕ → ArgsField
  b_field : ℕ → ArgsField
  s_field : Bytes → ArgsField

abbrev pub args_schema : MapFormat → Schema Args ArgsField
args_schema f = record {
  key = λ x. elim x [ a_field v ↦ a_key | b_field v ↦ b_key | s_field v ↦ s_key ];
  form =
      λ x. elim x [ a_field v ↦ f.int64 v | b_field v ↦ f.int64 v | s_field v ↦ f.base.string v ];
  set_field = λ x z. elim x [
    | a_field v ↦ record z { a = v }
    | b_field v ↦ record z { b = v }
    | s_field v ↦ record z { s = v }
  ];
  IsFit = λ x. elim x [
    | a_field v ↦ v < 2 ^ 64
    | b_field v ↦ v < 2 ^ 64
    | s_field v ↦ length v < 2 ^ 32
  ];
  fields = λ z. a_field z.a ∷ b_field z.b ∷ s_field z.s ∷ [];
}

-- What the carrier's forms can hold.
abbrev pub IsArgs : Args → Type 0
IsArgs z = (z.a < 2 ^ 64) × (z.b < 2 ^ 64) × (length z.s < 2 ^ 32)

module _ (f : MapFormat) {R : Type 0} (d : MapDecoder R) (input : R → Bytes)
    (laws : MapDecoderLaws f d input) where
  known_field :
      (x : ArgsField) (z : Args) (rd : R) (rest : Bytes)
      → (args_schema f).IsFit x
      → input rd ≡ (args_schema f).form x ++ rest
      → (rd' : R) × (args_field d ((args_schema f).key x) (z, rd)
          ≡ (ok tt, ((args_schema f).set_field x z, rd')))
        × (input rd' ≡ rest)
  unfolding args_field
  known_field (a_field v) z rd rest fit i =
      let (rd', e, i') = laws.int64 v fit rd rest i in (rd', rw e, i')
  known_field (b_field v) z rd rest fit i =
      let (rd', e, i') = laws.int64 v fit rd rest i in (rd', rw e, i')
  known_field (s_field v) z rd rest fit i =
      let (rd', e, i') = laws.base.string v fit rd rest i in (rd', rw e, i')

  pub args_field-IsSwitch : IsSwitch (args_schema f) d input (args_field d)
  unfolding args_field
  args_field-IsSwitch = record {
    at_known = known_field;
    at_unknown = λ k new. rw (
      same_text-ne k a_key (λ e. new (a_field 0, e)),
      same_text-ne k b_key (λ e. new (b_field 0, e)),
      same_text-ne k s_key (λ e. new (s_field [], e)),
    );
  }

  -- DecodeMsg reads a map of at most 15 entries, in any order and with repeated, missing or unknown
  -- keys: it returns no error, sets the fields in the order of the map, and leaves what follows.
  pub decode_args_lem :
      (xs : List (Entry ArgsField)) (z : Args) (rd : R) (rest : Bytes)
      → length xs < 16
      → All (IsEntry (args_schema f) f) xs
      → input rd ≡ map_form (length xs) ++ (entries_form (args_schema f) xs ++ rest)
      → (rd' : R) × (decode_args d (z, rd) ≡ (ok tt, (set_all (args_schema f) xs z, rd')))
        × (input rd' ≡ rest)
  unfolding decode_args
  decode_args_lem = decode_map_lem f (args_schema f) d input laws (args_field d) args_field-IsSwitch

module _ (f : MapFormat) (d : MapDecoder Bytes) (laws : MapDecoderLaws f d (λ b. b)) where
  -- UnmarshalMsg of an Args reads a map of at most 15 entries, in any order and with repeated, missing or
  -- unknown keys: it returns no error, sets the fields in the order of the map, and returns the bytes
  -- that follow.
  pub unmarshal_args_lem :
      (xs : List (Entry ArgsField)) (z : Args) (rest : Bytes)
      → length xs < 16
      → All (IsEntry (args_schema f) f) xs
      → unmarshal_args d (map_form (length xs) ++ (entries_form (args_schema f) xs ++ rest)) z
        ≡ (rest, none, set_all (args_schema f) xs z)
  unfolding unmarshal_args
  unmarshal_args_lem =
      left_over_lem f (args_schema f) d laws (args_field d) (args_field-IsSwitch f d (λ b. b) laws)

  -- It reads back what was written of a value, whatever it decodes into.
  pub unmarshal_args-value_form :
      (y z : Args) (rest : Bytes)
      → IsArgs z
      → unmarshal_args d (value_form (args_schema f) z ++ rest) y ≡ (rest, none, z)
  unmarshal_args-value_form y z rest (fit_a, fit_b, fit_s) =
      unmarshal_args_lem (known_all (args_schema f) ((args_schema f).fields z)) y rest (omega arith)
        ((omega arith, fit_a), ((omega arith, fit_b), ((omega arith, fit_s), tt)))

module _ (f : MapFormat) {W : Type 0} (e : MapEncoder W) (output : W → Bytes)
    (laws : MapEncoderLaws f e output) where
  -- An EncodeMsg that returns no error has written the form of the value, and nothing else.
  pub encode_args_lem : (z : Args) → Adds output (encode_args e z) (value_form (args_schema f) z)
  unfolding encode_args
  encode_args_lem z w h =
      then-Adds e.base output _ _ _ _ (write-Adds e.base output _ _ _ (laws.base.append _))
        (then-Adds e.base output _ _ _ _ (write-Adds e.base output _ _ _ (laws.int64 z.a)) (
          then-Adds e.base output _ _ _ _ (write-Adds e.base output _ _ _ (laws.base.append _)) (
            then-Adds e.base output _ _ _ _ (write-Adds e.base output _ _ _ (laws.int64 z.b)) (
              then-Adds e.base output _ _ _ _ (write-Adds e.base output _ _ _ (laws.base.append _))
                (write-Adds e.base output _ _ _ (laws.base.string z.s))))))
        w h
      ∙ ap (λ b. output w ++ b) (simp (append_assoc, append-nil))

module _ (f : MapFormat) (a : MapAppender) (laws : MapAppenderLaws f a) where
  -- MarshalMsg appends the same form.
  pub marshal_args_lem :
      (z : Args) (b : Bytes) → marshal_args a z b ≡ b ++ value_form (args_schema f) z
  unfolding marshal_args
  marshal_args_lem z b =
      simp (laws.base.require, laws.base.string, laws.int64, append_assoc, append-nil)

  -- It appends at most Msgsize bytes.
  pub marshal_args-length :
      (z : Args) (b : Bytes) → length (marshal_args a z b) ≤ length b + args_size a z
  unfolding args_size
  marshal_args-length z b = rw (marshal_args_lem z b) (
      simp length-append
        (omega (arith, laws.int64_size z.a, laws.int64_size z.b, laws.base.string_size z.s)))
