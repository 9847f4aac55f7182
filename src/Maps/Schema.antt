-- ===== src/Maps/Schema.antt =====
-- What a map of fields is, apart from any decoder: names, forms, and what a field does to the value.
use bimpc.Common.{◌<◌, ◌≡◌, List, [], ◌∷◌, ◌++◌, length}
use bimpc.Memory.{Bytes}
use bimpc.Action.{Action, ok}
use bimpc.Maps.{MapFormat, MapDecoder, map_form, key_form, skip_field}

-- The fields `F` of a struct `Z`, each with its value.
pub record Schema (Z F : Type 0) : Type 1 where
  pub key : F → Bytes
  pub form : F → Bytes
  pub set_field : F → Z → Z
  -- The value can be carried.
  pub IsFit : F → Type 0
  -- What the encoders write, in their order.
  pub fields : Z → List F

-- An entry of a map as the peer may send it: one of the fields, or a key that the struct does not have.
pub data Entry (F : Type 0) : Type 0 where
  known : F → Entry F
  unknown : Bytes → Bytes → Entry F

module _ {Z F : Type 0} (t : Schema Z F) where
  abbrev pub entry_form : Entry F → Bytes
  entry_form (known x) = key_form (t.key x) ++ t.form x
  entry_form (unknown k v) = key_form k ++ v

  abbrev pub entries_form : List (Entry F) → Bytes
  entries_form [] = []
  entries_form (x ∷ xs) = entry_form x ++ entries_form xs

  -- Fields are set in order, so the last value of a field counts; unknown keys do nothing.
  abbrev pub set_all : List (Entry F) → Z → Z
  set_all [] z = z
  set_all (known x ∷ xs) z = set_all xs (t.set_field x z)
  set_all (unknown k v ∷ xs) z = set_all xs z

  abbrev pub known_all : List F → List (Entry F)
  known_all [] = []
  known_all (x ∷ xs) = known x ∷ known_all xs

  -- What the encoders write.
  abbrev pub value_form : Z → Bytes
  value_form z = map_form (length (t.fields z)) ++ entries_form (known_all (t.fields z))

  abbrev pub IsEntry : MapFormat → Entry F → Type 0
  IsEntry f (known x) = (length (t.key x) < 32) × t.IsFit x
  IsEntry f (unknown k v) = (length k < 32) × (¬ ((x : F) × (t.key x ≡ k))) × f.base.IsObject v

  -- The switch of a decoder knows the fields, and skips any other key.
  pub record IsSwitch {R : Type 0} (d : MapDecoder R) (input : R → Bytes)
      (switch : Bytes → Action (Z × R) (Unit {0})) : Type 0 where
    pub at_known :
        (x : F) (z : Z) (rd : R) (rest : Bytes)
        → t.IsFit x
        → input rd ≡ t.form x ++ rest
        → (rd' : R) × (switch (t.key x) (z, rd) ≡ (ok tt, (t.set_field x z, rd')))
          × (input rd' ≡ rest)
    pub at_unknown : (k : Bytes) → ¬ ((x : F) × (t.key x ≡ k)) → switch k ≡ skip_field d
