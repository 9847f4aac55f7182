-- ===== src/Chat/Gen/OfNothing.antt =====
-- The methods generated for `nothing`, which is an empty map.
use bimpc.Common.{
  ◌<◌, ◌≤◌, ◌+◌, ◌≡◌, refl, ap, ◌∙◌, none, List, [], ◌∷◌, ◌++◌, length, All, arith, length-append,
}
use bimpc.Memory.{Bytes}
use bimpc.Mpc.Gen.Encode.{Adds, write-Adds}
use bimpc.Maps.{
  MapFormat, MapDecoder, MapDecoderLaws, MapEncoder, MapEncoderLaws, MapAppender, MapAppenderLaws,
  map_form, skip_field,
}
use bimpc.Maps.Schema.{Schema, Entry, entries_form, value_form, IsEntry, IsSwitch, set_all}
use bimpc.Maps.Read.{left_over_lem}
use bimpc.Chat.{Nothing, nothing}
use bimpc.Chat.Gen.{unmarshal_nothing, encode_nothing, marshal_nothing, nothing_size}

-- It has no field.
abbrev pub nothing_schema : Schema Nothing ⊥
nothing_schema = record {
  key = λ x. absurd x;
  form = λ x. absurd x;
  set_field = λ x z. z;
  IsFit = λ x. Unit {0};
  fields = λ z. [];
}

one_nothing : (y z : Nothing) → y ≡ z
one_nothing nothing nothing = refl

module _ (f : MapFormat) (d : MapDecoder Bytes) (laws : MapDecoderLaws f d (λ b. b)) where
  -- UnmarshalMsg of `nothing` skips all entries of a map of at most 15.
  pub unmarshal_nothing_lem :
      (xs : List (Entry ⊥)) (z : Nothing) (rest : Bytes)
      → length xs < 16
      → All (IsEntry nothing_schema f) xs
      → unmarshal_nothing d (map_form (length xs) ++ (entries_form nothing_schema xs ++ rest)) z
        ≡ (rest, none, z)
  unfolding unmarshal_nothing
  unmarshal_nothing_lem xs z rest few h =
      left_over_lem f nothing_schema d laws (λ field. skip_field d) skips xs z rest few h
      ∙ ap (λ y. (rest, none, y)) (one_nothing (set_all nothing_schema xs z) z)
    where
      skips : IsSwitch nothing_schema d (λ b. b) (λ field. skip_field d)
      skips = record { at_known = λ x. absurd x; at_unknown = λ k new. refl }

module _ (f : MapFormat) {W : Type 0} (e : MapEncoder W) (output : W → Bytes)
    (laws : MapEncoderLaws f e output) where
  pub encode_nothing_lem :
      (z : Nothing) → Adds output (encode_nothing e z) (value_form nothing_schema z)
  unfolding encode_nothing
  encode_nothing_lem z = write-Adds e.base output _ _ _ (laws.base.append (0x80 ∷ []))

module _ (f : MapFormat) (a : MapAppender) (laws : MapAppenderLaws f a) where
  pub marshal_nothing_lem :
      (z : Nothing) (b : Bytes) → marshal_nothing a z b ≡ b ++ value_form nothing_schema z
  unfolding marshal_nothing
  marshal_nothing_lem z b = simp laws.base.require

  pub marshal_nothing-length :
      (z : Nothing) (b : Bytes) → length (marshal_nothing a z b) ≤ length b + nothing_size a z
  unfolding nothing_size
  marshal_nothing-length z b =
      rw (marshal_nothing_lem z b) (omega (arith, length-append b (0x80 ∷ [])))
