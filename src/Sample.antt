-- ===== src/Sample.antt =====
-- A reader and a writer that meet the laws of Msgp.antt, for the tests: MessagePack with one form for
-- numbers (uint64) and one for texts (str32), where every object is a text. Buffers are reused where
-- they are large enough.
pub mod Objects
pub mod Store
pub mod Laws
pub mod Socket
pub mod Maps
pub mod Subscription
pub mod Database
use bimpc.Sample.Objects.{IsSampleObject, skip_object, object_before}
use bimpc.Common.{
  ℕ, zero, suc, ◌+◌, ◌*◌, ◌/◌, ◌%◌, ◌^◌, ◌<◌, ◌≡◌, Bool, Option, none, some, List, [], ◌∷◌, ◌++◌,
  ◌==◌, ltb, if◌then◌else◌, length, take, drop, set,
}
use bimpc.Memory.{Bytes, Memory, Slice, nil_slice, slice, array, bytes, overwrite, cap_of, truncate}
use bimpc.Action.{GoError, foreign}
use bimpc.Msgp.{Format, Decoder, Encoder, Appender, nil_form, payload_form, received}
use bimpc.Mpc.{Value, raw, obj, Marshaler, Unmarshaler}
use bimpc.Generic.{Connection}

-- `k` bytes of `v`, the highest first.
unfoldable pub big_endian : ℕ → ℕ → Bytes
big_endian zero v = []
big_endian (suc k) v = v / 256 ^ k ∷ big_endian k (v % 256 ^ k)

-- The number in the next `k` bytes, behind the digits `acc`, and what follows.
unfoldable pub read_digits : ℕ → ℕ → Bytes → ℕ × Option GoError × Bytes
read_digits zero acc b = (acc, none, b)
read_digits (suc k) acc [] = (0, some (foreign 1), [])
read_digits (suc k) acc (x ∷ b) = read_digits k (acc * 256 + x) b

abbrev pub text_form : Bytes → Bytes
text_form s = 0xdb ∷ (big_endian 4 (length s) ++ s)

abbrev pub sample_format : Format
sample_format = record {
  uint64 = λ v. 0xcf ∷ big_endian 8 v;
  string = text_form;
  IsObject = IsSampleObject;
}

unfoldable pub cut : ℕ × Option GoError × Bytes → Bytes × Option GoError × Bytes
cut (n, some e, b) = ([], some e, b)
cut (n, none, b) =
    if ltb (length b) n then ([], some (foreign 1), b) else (take n b, none, drop n b)

unfoldable pub read_text : Bytes → Bytes × Option GoError × Bytes
unfolding cut read_digits
read_text [] = ([], some (foreign 1), [])
read_text (c ∷ b) = if c == 0xdb then cut (read_digits 4 0 b) else ([], some (foreign 2), c ∷ b)

unfoldable pub read_number : Bytes → ℕ × Option GoError × Bytes
unfolding read_digits
read_number [] = (0, some (foreign 1), [])
read_number (c ∷ b) = if c == 0xcf then read_digits 8 0 b else (0, some (foreign 2), c ∷ b)

-- Array headers of one byte alone.
unfoldable pub read_header : Bytes → ℕ × Option GoError × Bytes
read_header [] = (0, some (foreign 1), [])
read_header (c ∷ b) =
    if ltb c 0x90
    then (0, some (foreign 2), c ∷ b)
    else if ltb c 0xa0
    then (c % 16, none, b)
    else (0, some (foreign 2), c ∷ b)

unfoldable pub at_nil : Bytes → Bool × Bytes
at_nil [] = (Bool.false, [])
at_nil (c ∷ b) = (c == 0xc0, c ∷ b)

unfoldable pub read_nil : Bytes → Option GoError × Bytes
read_nil [] = (some (foreign 1), [])
read_nil (c ∷ b) = if c == 0xc0 then (none, b) else (some (foreign 2), c ∷ b)

-- Puts `p` into the buffer if it fits, and into a new array if not.
unfoldable pub store : Slice → Bytes → Memory → Slice × Memory
store nil_slice p mem = (slice (length mem) (length p), mem ++ (p ∷ []))
store (slice b n) p mem =
    if ltb (length (array mem b)) (length p)
    then (slice (length mem) (length p), mem ++ (p ∷ []))
    else (slice b (length p), set mem b (overwrite (array mem b) p))

-- The object at the front of the input, which ends before `rest`.
abbrev pub store_object :
    Slice → Memory → Bytes → Option Bytes → Slice × Option GoError × Memory × Bytes
store_object s mem b none = (truncate s, some (foreign 1), mem, b)
store_object s mem b (some rest) =
    let (s', mem') = store s (object_before b rest) mem in (s', none, mem', rest)

unfoldable pub read_raw : Slice → Memory → Bytes → Slice × Option GoError × Memory × Bytes
unfolding store skip_object object_before
read_raw s mem [] = (truncate s, some (foreign 1), mem, [])
read_raw s mem (c ∷ b) =
    if c == 0xc0
    then (truncate s, none, mem, b)
    else store_object s mem (c ∷ b) (skip_object (c ∷ b))

abbrev pub sample_decoder : Decoder Bytes
sample_decoder = record {
  wrap_error = λ ctx e. e;
  read_array_header = read_header;
  read_uint64 = read_number;
  read_string = read_text;
  is_nil = at_nil;
  read_nil = read_nil;
  read_raw = read_raw;
}

-- A writer: what it has buffered, and what the connection has got.
pub record Sink : Type 0 where
  pub buffered : Bytes
  pub got : Bytes

abbrev pub put : Bytes → Sink → Option GoError × Sink
put b w = (none, record w { buffered = w.buffered ++ b })

abbrev pub sample_encoder : Encoder Sink
sample_encoder = record {
  wrap_error = λ ctx e. e;
  append = put;
  write_uint64 = λ v. put (sample_format.uint64 v);
  write_string = λ s. put (text_form s);
  write_nil = put nil_form;
  write_raw = λ p. put (payload_form p);
  flush = λ w. (none, record { buffered = []; got = w.got ++ w.buffered });
}

abbrev pub sample_appender : Appender
sample_appender = record {
  wrap_error = λ ctx e. e;
  require = λ b n. b;
  append_uint64 = λ b v. b ++ sample_format.uint64 v;
  append_string = λ b s. b ++ text_form s;
  append_nil = λ b. b ++ nil_form;
  append_raw = λ p b. (b ++ payload_form p, none);
  raw_size = λ p. length p + 1;
  uint64_size = 9;
  string_prefix_size = 5;
  nil_size = 1;
}

-- A connection is what can be read from it.
abbrev pub sample_connection : Connection Bytes Bytes Sink
sample_connection = record {
  decoder = sample_decoder;
  encoder = sample_encoder;
  new_reader = λ c. c;
  new_writer = λ c. record { buffered = []; got = [] };
  close = λ c. (none, c);
}

-- A type that marshals itself as a text, and one that has no MarshalMsg.
pub data Item : Type 0 where
  text : Bytes → Item
  plain : Item

unfoldable pub append_form : Bytes → Marshaler
unfolding store
append_form enc buf mem = let (b, mem') = store buf (bytes mem buf ++ enc) mem in (b, none, mem')

unfoldable pub item_marshaler : Value Item → Option Marshaler
unfolding append_form
item_marshaler (raw s) = none
item_marshaler (obj (text t)) = some (append_form (text_form t))
item_marshaler (obj plain) = none

unfoldable pub text_unmarshaler : Unmarshaler Bytes
unfolding read_text
text_unmarshaler b old = let (t, e, _) = read_text b in (e, t)
