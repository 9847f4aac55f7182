-- ===== src/Maps.antt =====
-- What msgp generates for a struct whose fields have names, which travels as a map: the functions of
-- msgp that only these methods call, as parameters, and the loop over the fields. DecodeMsg and
-- UnmarshalMsg call the same functions, on a stream or on the bytes that are left.
pub mod Schema
pub mod Read
use Prim.Native.String.{String}
use bimpc.Common.{
  ℕ, zero, suc, ◌+◌, ◌≤◌, ◌<◌, ◌^◌, ◌≡◌, Bool, true, false, Option, none, some, List, [], ◌∷◌, ◌++◌,
  ◌==◌, if◌then◌else◌, length,
}
use bimpc.Memory.{Bytes}
use bimpc.Action.{GoError, Action, Result, ok, err, pure, returned, ◌>>=◌, ◌>>◌}
use bimpc.Msgp.{Decoder, DecoderLaws, Encoder, EncoderLaws, Appender, AppenderLaws, Format, Reads}
use bimpc.Msgp.{Puts}

pub record MapDecoder (R : Type 0) : Type 0 where
  pub base : Decoder R
  pub read_map_header : R → ℕ × Option GoError × R
  -- ReadMapKeyPtr and ReadMapKeyZC
  pub read_map_key : R → Bytes × Option GoError × R
  pub read_uint32 : R → ℕ × Option GoError × R
  -- An int64 is its bit pattern, below 2^64.
  pub read_int64 : R → ℕ × Option GoError × R
  pub skip : R → Option GoError × R

pub record MapEncoder (W : Type 0) : Type 0 where
  pub base : Encoder W
  pub write_uint32 : ℕ → W → Option GoError × W
  pub write_int64 : ℕ → W → Option GoError × W

pub record MapAppender : Type 0 where
  pub base : Appender
  pub append_uint32 : Bytes → ℕ → Bytes
  pub append_int64 : Bytes → ℕ → Bytes
  pub uint32_size : ℕ
  pub int64_size : ℕ

pub record MapFormat : Type 1 where
  pub base : Format
  pub uint32 : ℕ → Bytes
  pub int64 : ℕ → Bytes

-- The form of a number is one object, which can be skipped.
pub record MapFormatLaws (f : MapFormat) : Type 0 where
  pub uint32_object : (v : ℕ) → v < 2 ^ 32 → f.base.IsObject (f.uint32 v)

-- A map of fewer than 16 entries begins with one byte, and so does a key of fewer than 32 bytes.
abbrev pub map_form : ℕ → Bytes
map_form n = (0x80 + n) ∷ []

abbrev pub key_form : Bytes → Bytes
key_form k = (0xa0 + length k) ∷ k

pub record MapDecoderLaws (f : MapFormat) {R : Type 0} (d : MapDecoder R) (input : R → Bytes)
    : Type 0 where
  pub base : DecoderLaws f.base d.base input
  pub map_header : (n : ℕ) → n < 16 → Reads input d.read_map_header (map_form n) n
  pub map_key : (k : Bytes) → length k < 32 → Reads input d.read_map_key (key_form k) k
  pub uint32 : (v : ℕ) → v < 2 ^ 32 → Reads input d.read_uint32 (f.uint32 v) v
  pub int64 : (v : ℕ) → v < 2 ^ 64 → Reads input d.read_int64 (f.int64 v) v
  pub skip :
      (v : Bytes) (rd : R) (rest : Bytes)
      → f.base.IsObject v
      → input rd ≡ v ++ rest
      → (rd' : R) × (d.skip rd ≡ (none, rd')) × (input rd' ≡ rest)

pub record MapEncoderLaws (f : MapFormat) {W : Type 0} (e : MapEncoder W) (output : W → Bytes)
    : Type 0 where
  pub base : EncoderLaws f.base e.base output
  pub uint32 : (v : ℕ) → Puts output (e.write_uint32 v) (f.uint32 v)
  pub int64 : (v : ℕ) → Puts output (e.write_int64 v) (f.int64 v)

pub record MapAppenderLaws (f : MapFormat) (a : MapAppender) : Type 0 where
  pub base : AppenderLaws f.base a.base
  pub uint32 : (b : Bytes) (v : ℕ) → a.append_uint32 b v ≡ b ++ f.uint32 v
  pub int64 : (b : Bytes) (v : ℕ) → a.append_int64 b v ≡ b ++ f.int64 v
  pub uint32_size : (v : ℕ) → length (f.uint32 v) ≤ a.uint32_size
  pub int64_size : (v : ℕ) → length (f.int64 v) ≤ a.int64_size

-- `switch msgp.UnsafeString(field)` compares texts.
unfoldable pub same_text : Bytes → Bytes → Bool
same_text [] [] = true
same_text [] (y ∷ ys) = false
same_text (x ∷ xs) [] = false
same_text (x ∷ xs) (y ∷ ys) = let rest = same_text xs ys in if x == y then rest else false

-- A decoder's state: the value that it decodes into, and the reader.
module _ {Z R : Type 0} (d : MapDecoder R) where
  -- `z.F, err = op()`: the field is set also where the read fails.
  abbrev pub take_field :
      {A : Type 0}
      → (R → A × Option GoError × R)
      → (A → Z → Z)
      → List String
      → Action (Z × R) (Unit {0})
  take_field op set_field ctx (z, rd) =
      let (a, e, rd') = op rd in returned (d.base.wrap_error ctx) e tt (set_field a z, rd')

  abbrev pub skip_field : Action (Z × R) (Unit {0})
  skip_field (z, rd) = let (e, rd') = d.skip rd in returned (d.base.wrap_error []) e tt (z, rd')

  abbrev pub take_value : {A : Type 0} → (R → A × Option GoError × R) → Action (Z × R) A
  take_value op (z, rd) = let (a, e, rd') = op rd in returned (d.base.wrap_error []) e a (z, rd')

  -- `for zb0001 > 0`, with the switch over the names of the fields.
  unfoldable pub decode_fields : (Bytes → Action (Z × R) (Unit {0})) → ℕ → Action (Z × R) (Unit {0})
  decode_fields switch zero = pure tt
  decode_fields switch (suc n) = do
    field ← take_value d.read_map_key
    switch field
    decode_fields switch n

  unfoldable pub decode_map : (Bytes → Action (Z × R) (Unit {0})) → Action (Z × R) (Unit {0})
  unfolding decode_fields
  decode_map switch = do n ← take_value d.read_map_header; decode_fields switch n

-- What UnmarshalMsg returns: the bytes that are left, nil after an error, the error, and the value.
abbrev pub left_over : {Z : Type 0} → Result (Unit {0}) × (Z × Bytes) → Bytes × Option GoError × Z
left_over (ok _, (z, b)) = (b, none, z)
left_over (err e, (z, b)) = ([], some e, z)
