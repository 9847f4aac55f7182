-- ===== src/Maps/Read.antt =====
-- The loop over the fields reads any map: fields in any order, repeated or missing, and unknown keys.
use bimpc.Common.{
  ◌<◌, ◌≡◌, refl, sym, ap, ◌∙◌, none, List, [], ◌∷◌, ◌++◌, length, All, inl, inr, true, false,
  Bool-cases, ◌==◌, arith,
}
use mathlib.Core.List.{append_assoc}
use bimpc.Memory.{Bytes}
use bimpc.Action.{Action, ok}
use bimpc.Maps.{
  MapFormat, MapDecoder, MapDecoderLaws, map_form, same_text, decode_fields, decode_map, left_over,
}
use bimpc.Maps.Schema.{Schema, Entry, known, unknown, entries_form, set_all, IsEntry, IsSwitch}

pub same_text_refl : (k : Bytes) → same_text k k ≡ true
unfolding same_text
same_text_refl [] = refl
same_text_refl (c ∷ k) = let same : (c == c) ≡ true = ground arith in rw same (same_text_refl k)

pub eq_of_same_text : (j k : Bytes) → same_text j k ≡ true → j ≡ k
unfolding same_text
eq_of_same_text [] [] h = refl
eq_of_same_text [] (y ∷ k) h = absurd (cc)
eq_of_same_text (x ∷ j) [] h = absurd (cc)
eq_of_same_text (x ∷ j) (y ∷ k) h = ground (arith, eq_of_same_text j k)

pub same_text-ne : (j k : Bytes) → ¬ (k ≡ j) → same_text j k ≡ false
same_text-ne j k h = elim (Bool-cases (same_text j k)) [
  | inl same ↦ absurd (h (sym (eq_of_same_text j k same)))
  | inr other ↦ other
]

module _ {Z F R : Type 0} (f : MapFormat) (t : Schema Z F) (d : MapDecoder R) (input : R → Bytes)
    (laws : MapDecoderLaws f d input) (switch : Bytes → Action (Z × R) (Unit {0}))
    (fits : IsSwitch t d input switch) where
  pub decode_fields_lem :
      (xs : List (Entry F)) (z : Z) (rd : R) (rest : Bytes)
      → All (IsEntry t f) xs
      → input rd ≡ entries_form t xs ++ rest
      → (rd' : R) × (decode_fields d switch (length xs) (z, rd) ≡ (ok tt, (set_all t xs z, rd')))
        × (input rd' ≡ rest)
  unfolding decode_fields
  decode_fields_lem [] z rd rest h i = (rd, refl, i)
  decode_fields_lem (known x ∷ xs) z rd rest ((short, fit), h) i =
      let later = entries_form t xs ++ rest in
      let (rd₁, e₁, i₁) =
        laws.map_key (t.key x) short rd (t.form x ++ later) (i ∙ simp append_assoc) in
      let (rd₂, e₂, i₂) = fits.at_known x z rd₁ later fit i₁ in
      let (rd₃, e₃, i₃) = decode_fields_lem xs (t.set_field x z) rd₂ rest h i₂ in
      (rd₃, rw (e₁, e₂) e₃, i₃)
  decode_fields_lem (unknown k v ∷ xs) z rd rest ((short, new, object), h) i =
      let later = entries_form t xs ++ rest in
      let (rd₁, e₁, i₁) = laws.map_key k short rd (v ++ later) (i ∙ simp append_assoc) in
      let (rd₂, e₂, i₂) = laws.skip v rd₁ later object i₁ in
      let (rd₃, e₃, i₃) = decode_fields_lem xs z rd₂ rest h i₂ in
      (rd₃, rw (e₁, fits.at_unknown k new, e₂) e₃, i₃)

  -- A map of fewer than 16 entries is read whole, and what follows it is left.
  pub decode_map_lem :
      (xs : List (Entry F)) (z : Z) (rd : R) (rest : Bytes)
      → length xs < 16
      → All (IsEntry t f) xs
      → input rd ≡ map_form (length xs) ++ (entries_form t xs ++ rest)
      → (rd' : R) × (decode_map d switch (z, rd) ≡ (ok tt, (set_all t xs z, rd')))
        × (input rd' ≡ rest)
  unfolding decode_map
  decode_map_lem xs z rd rest few h i =
      let (rd₁, e₁, i₁) = laws.map_header (length xs) few rd (entries_form t xs ++ rest) i in
      let (rd₂, e₂, i₂) = decode_fields_lem xs z rd₁ rest h i₁ in (rd₂, rw e₁ e₂, i₂)

module _ {Z F : Type 0} (f : MapFormat) (t : Schema Z F) (d : MapDecoder Bytes)
    (laws : MapDecoderLaws f d (λ b. b)) (switch : Bytes → Action (Z × Bytes) (Unit {0}))
    (fits : IsSwitch t d (λ b. b) switch) where
  -- The same for UnmarshalMsg.
  pub left_over_lem :
      (xs : List (Entry F)) (z : Z) (rest : Bytes)
      → length xs < 16
      → All (IsEntry t f) xs
      → left_over (decode_map d switch (z, map_form (length xs) ++ (entries_form t xs ++ rest)))
        ≡ (rest, none, set_all t xs z)
  left_over_lem xs z rest few h =
      let (rd, e, i) = decode_map_lem f t d (λ b. b) laws switch fits xs z _ rest few h refl in
      ap left_over e ∙ ap (λ b. (b, none, set_all t xs z)) i
