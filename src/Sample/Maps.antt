-- ===== src/Sample/Maps.antt =====
-- The functions of msgp for maps that meet the laws of Maps.antt: one form for each kind of number, and
-- map headers and keys of one byte alone.
use bimpc.Common.{
  ℕ, ◌+◌, ◌-◌, ◌*◌, ◌^◌, ◌<◌, ◌≡◌, refl, sym, ap, ◌∙◌, true, false, Option, none, some, [], ◌∷◌,
  ◌++◌, ◌==◌, ltb, if◌then◌else◌, length, arith,
}
use mathlib.Core.List.{append_assoc}
use bimpc.Memory.{Bytes}
use bimpc.Action.{GoError, foreign}
use bimpc.Maps.{
  MapFormat, MapFormatLaws, MapDecoder, MapDecoderLaws, MapEncoder, MapEncoderLaws, MapAppender,
  MapAppenderLaws, map_form, key_form,
}
use bimpc.Sample.{
  big_endian, read_digits, cut, sample_format, sample_decoder, sample_encoder, sample_appender, put,
  Sink,
}
use bimpc.Sample.Objects.{skip_object}
use bimpc.Sample.Laws.{
  sample_decoder-DecoderLaws, sample_encoder-EncoderLaws, sample_appender-AppenderLaws, sink_output,
  read_digits-big_endian, length-big_endian, cut-text,
}

abbrev pub sample_map_format : MapFormat
sample_map_format = record {
  base = sample_format;
  uint32 = λ v. 0xce ∷ big_endian 4 v;
  int64 = λ v. 0xd3 ∷ big_endian 8 v;
}

unfoldable pub read_map_header : Bytes → ℕ × Option GoError × Bytes
read_map_header [] = (0, some (foreign 1), [])
read_map_header (c ∷ b) =
    if ltb c 0x80
    then (0, some (foreign 2), c ∷ b)
    else if ltb c 0x90
    then (c - 0x80, none, b)
    else (0, some (foreign 2), c ∷ b)

unfoldable pub read_map_key : Bytes → Bytes × Option GoError × Bytes
unfolding cut
read_map_key [] = ([], some (foreign 1), [])
read_map_key (c ∷ b) =
    if ltb c 0xa0
    then ([], some (foreign 2), c ∷ b)
    else if ltb c 0xc0
    then cut (c - 0xa0, none, b)
    else ([], some (foreign 2), c ∷ b)

-- A number of `k` bytes behind the byte `code`.
unfoldable pub read_coded : ℕ → ℕ → Bytes → ℕ × Option GoError × Bytes
unfolding read_digits
read_coded code k [] = (0, some (foreign 1), [])
read_coded code k (c ∷ b) = if c == code then read_digits k 0 b else (0, some (foreign 2), c ∷ b)

abbrev skipped : Bytes → Option Bytes → Option GoError × Bytes
skipped b none = (some (foreign 1), b)
skipped b (some rest) = (none, rest)

abbrev pub sample_map_decoder : MapDecoder Bytes
sample_map_decoder = record {
  base = sample_decoder;
  read_map_header = read_map_header;
  read_map_key = read_map_key;
  read_uint32 = read_coded 0xce 4;
  read_int64 = read_coded 0xd3 8;
  skip = λ b. skipped b (skip_object b);
}

abbrev pub sample_map_encoder : MapEncoder Sink
sample_map_encoder = record {
  base = sample_encoder;
  write_uint32 = λ v. put (sample_map_format.uint32 v);
  write_int64 = λ v. put (sample_map_format.int64 v);
}

abbrev pub sample_map_appender : MapAppender
sample_map_appender = record {
  base = sample_appender;
  append_uint32 = λ b v. b ++ sample_map_format.uint32 v;
  append_int64 = λ b v. b ++ sample_map_format.int64 v;
  uint32_size = 5;
  int64_size = 9;
}

pub sample_map_format-MapFormatLaws : MapFormatLaws sample_map_format
unfolding skip_object big_endian
sample_map_format-MapFormatLaws = record { uint32_object = λ v h. (refl, λ rest. refl) }

read_map_header-form :
    (n : ℕ) (rest : Bytes) → n < 16 → read_map_header (map_form n ++ rest) ≡ (n, none, rest)
unfolding read_map_header
read_map_header-form n rest h = ground arith

read_map_key-form :
    (k rest : Bytes) → length k < 32 → read_map_key (key_form k ++ rest) ≡ (k, none, rest)
unfolding read_map_key
read_map_key-form k rest h =
    let high : ltb (0xa0 + length k) 0xa0 ≡ false = ground arith in
    let low : ltb (0xa0 + length k) 0xc0 ≡ true = ground arith in
    let size : (0xa0 + length k) - 0xa0 ≡ length k = omega arith in
    rw (high, low, size) (cut-text k rest)

read_coded-form :
    (code k v : ℕ) (rest : Bytes)
    → v < 256 ^ k
    → read_coded code k (code ∷ (big_endian k v ++ rest)) ≡ (v, none, rest)
unfolding read_coded
read_coded-form code k v rest h =
    let same : (code == code) ≡ true = ground arith in
    rw same (read_digits-big_endian k 0 v rest h ∙ (λ i. (zero_plus i, none, rest)))
  where
    zero_plus : 0 * 256 ^ k + v ≡ v
    zero_plus = omega arith

pub sample_map_decoder-MapDecoderLaws : MapDecoderLaws sample_map_format sample_map_decoder (λ b. b)
sample_map_decoder-MapDecoderLaws = record {
  base = sample_decoder-DecoderLaws;
  map_header = λ n h rd rest i. (rest, rw i (read_map_header-form n rest h), refl);
  map_key = λ k h rd rest i. (rest, rw i (read_map_key-form k rest h), refl);
  uint32 = λ v h rd rest i. (rest, rw i (read_coded-form 0xce 4 v rest (omega arith)), refl);
  int64 = λ v h rd rest i. (rest, rw i (read_coded-form 0xd3 8 v rest (omega arith)), refl);
  skip = λ v rd rest object i. (rest, rw i (ap (skipped (v ++ rest)) (object.1 rest)), refl);
}

pub sample_map_encoder-MapEncoderLaws :
    MapEncoderLaws sample_map_format sample_map_encoder sink_output
sample_map_encoder-MapEncoderLaws = record {
  base = sample_encoder-EncoderLaws;
  uint32 = λ v w h. sym (append_assoc w.got w.buffered (sample_map_format.uint32 v));
  int64 = λ v w h. sym (append_assoc w.got w.buffered (sample_map_format.int64 v));
}

pub sample_map_appender-MapAppenderLaws : MapAppenderLaws sample_map_format sample_map_appender
sample_map_appender-MapAppenderLaws = record {
  base = sample_appender-AppenderLaws;
  uint32 = λ b v. refl;
  int64 = λ b v. refl;
  uint32_size = λ v. omega (arith, length-big_endian 4 v);
  int64_size = λ v. omega (arith, length-big_endian 8 v);
}
