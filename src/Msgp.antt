-- ===== src/Msgp.antt =====
-- The parts of github.com/tinylib/msgp that the code calls, as parameters: the MessagePack forms,
-- the readers and the writers, each with the documented behaviour that the proofs rely on.
-- `Decoder` stands for both ways to read, the methods of msgp.Reader and the functions on byte
-- slices: what changes is the state `R`, a stream or the bytes that are left.
pub mod Reading
use Prim.Native.String.{String}
use bimpc.Common.{
  ℕ, ◌+◌, ◌≤◌, ◌<◌, ◌^◌, ◌≡◌, ◌⊎◌, Bool, Option, none, List, [], ◌∷◌, ◌++◌, ◌==◌, if◌then◌else◌,
  length,
}
use bimpc.Memory.{Bytes, Memory, Slice, bytes, IsValid}
use bimpc.Memory.Writes.{Writes}
use bimpc.Action.{GoError}

-- A read returns a value and an error, both at once; the value counts also where the error is set.
pub record Decoder (R : Type 0) : Type 0 where
  pub wrap_error : List String → GoError → GoError
  pub read_array_header : R → ℕ × Option GoError × R
  pub read_uint64 : R → ℕ × Option GoError × R
  pub read_string : R → Bytes × Option GoError × R
  pub is_nil : R → Bool × R
  pub read_nil : R → Option GoError × R
  -- Raw.DecodeMsg and Raw.UnmarshalMsg, on a buffer that may be reused
  pub read_raw : Slice → Memory → R → Slice × Option GoError × Memory × R

-- A write to a msgp.Writer returns an error. Raw.EncodeMsg gets the bytes that the slice shows.
pub record Encoder (W : Type 0) : Type 0 where
  pub wrap_error : List String → GoError → GoError
  pub append : Bytes → W → Option GoError × W
  pub write_uint64 : ℕ → W → Option GoError × W
  pub write_string : Bytes → W → Option GoError × W
  pub write_nil : W → Option GoError × W
  pub write_raw : Bytes → W → Option GoError × W
  pub flush : W → Option GoError × W

-- The functions that append to a byte slice, and the sizes that they may need.
pub record Appender : Type 0 where
  pub wrap_error : List String → GoError → GoError
  pub require : Bytes → ℕ → Bytes
  pub append_uint64 : Bytes → ℕ → Bytes
  pub append_string : Bytes → Bytes → Bytes
  pub append_nil : Bytes → Bytes
  -- Raw.MarshalMsg and Raw.Msgsize
  pub append_raw : Bytes → Bytes → Bytes × Option GoError
  pub raw_size : Bytes → ℕ
  pub uint64_size : ℕ
  pub string_prefix_size : ℕ
  pub nil_size : ℕ

-- The MessagePack form of a number and of a string, and the byte strings that are one object.
pub record Format : Type 1 where
  pub uint64 : ℕ → Bytes
  pub string : Bytes → Bytes
  pub IsObject : Bytes → Type 0

abbrev pub nil_form : Bytes
nil_form = 0xc0 ∷ []

-- An array of fewer than 16 elements begins with one byte.
abbrev pub array_form : ℕ → Bytes
array_form n = (0x90 + n) ∷ []

-- An absent payload is empty, and travels as nil.
abbrev pub payload_form : Bytes → Bytes
payload_form [] = nil_form
payload_form (c ∷ p) = c ∷ p

-- What the reader makes of a payload: nil is absent.
abbrev pub received : Bytes → Bytes
received [] = []
received (c ∷ []) = if c == 0xc0 then [] else c ∷ []
received (c ∷ d ∷ p) = c ∷ d ∷ p

abbrev pub IsPayload : Format → Bytes → Type 0
IsPayload f p = (p ≡ []) ⊎ f.IsObject p

-- `op` reads the form `enc` of `v` off the input, whatever follows it.
abbrev pub Reads : {R A : Type 0} → (R → Bytes) → (R → A × Option GoError × R) → Bytes → A → Type 0
Reads {R} input op enc v =
    (rd : R) (rest : Bytes)
    → input rd ≡ enc ++ rest
    → (rd' : R) × (op rd ≡ (v, none, rd')) × (input rd' ≡ rest)

pub record DecoderLaws (f : Format) {R : Type 0} (d : Decoder R) (input : R → Bytes) : Type 0 where
  pub array_header : (n : ℕ) → n < 16 → Reads input d.read_array_header (array_form n) n
  pub uint64 : (v : ℕ) → v < 2 ^ 64 → Reads input d.read_uint64 (f.uint64 v) v
  pub string : (s : Bytes) → length s < 2 ^ 32 → Reads input d.read_string (f.string s) s
  pub is_nil :
      (rd : R) (c : ℕ) (rest : Bytes)
      → input rd ≡ c ∷ rest
      → (rd' : R) × (d.is_nil rd ≡ (c == 0xc0, rd')) × (input rd' ≡ c ∷ rest)
  pub nil :
      (rd : R) (rest : Bytes)
      → input rd ≡ nil_form ++ rest
      → (rd' : R) × (d.read_nil rd ≡ (none, rd')) × (input rd' ≡ rest)
  pub raw :
      (s : Slice) (mem : Memory) (rd : R) (p rest : Bytes)
      → IsValid mem s
      → IsPayload f p
      → input rd ≡ payload_form p ++ rest
      → let (s', e, mem', rd') = d.read_raw s mem rd in
        (e ≡ none) × (bytes mem' s' ≡ received p) × (input rd' ≡ rest)
  -- Also where it fails, it writes only to its buffer and to new arrays.
  pub raw_writes :
      (s : Slice) (mem : Memory) (rd : R)
      → IsValid mem s
      → let (s', e, mem', rd') = d.read_raw s mem rd in Writes mem s mem' s'

-- A write that returns no error has put the form behind all that was written before.
abbrev pub Puts : {W : Type 0} → (W → Bytes) → (W → Option GoError × W) → Bytes → Type 0
Puts {W} output op enc = (w : W) → (op w).0 ≡ none → output (op w).1 ≡ output w ++ enc

pub record EncoderLaws (f : Format) {W : Type 0} (e : Encoder W) (output : W → Bytes) : Type 0 where
  pub append : (b : Bytes) → Puts output (e.append b) b
  pub uint64 : (v : ℕ) → Puts output (e.write_uint64 v) (f.uint64 v)
  pub string : (s : Bytes) → Puts output (e.write_string s) (f.string s)
  pub nil : Puts output e.write_nil nil_form
  pub raw : (p : Bytes) → Puts output (e.write_raw p) (payload_form p)

-- A flush that returns no error has handed all output to the connection, which has then got `sent`.
pub record FlushLaws {W : Type 0} (e : Encoder W) (output sent : W → Bytes) : Type 0 where
  pub flush : (w : W) → (e.flush w).0 ≡ none → sent (e.flush w).1 ≡ output w

pub record AppenderLaws (f : Format) (a : Appender) : Type 0 where
  pub require : (b : Bytes) (n : ℕ) → a.require b n ≡ b
  pub uint64 : (b : Bytes) (v : ℕ) → a.append_uint64 b v ≡ b ++ f.uint64 v
  pub string : (b s : Bytes) → a.append_string b s ≡ b ++ f.string s
  pub nil : (b : Bytes) → a.append_nil b ≡ b ++ nil_form
  pub raw : (p b : Bytes) → a.append_raw p b ≡ (b ++ payload_form p, none)
  pub uint64_size : (v : ℕ) → length (f.uint64 v) ≤ a.uint64_size
  pub string_size : (s : Bytes) → length (f.string s) ≤ a.string_prefix_size + length s
  pub raw_size : (p : Bytes) → length (payload_form p) ≤ a.raw_size p
  pub nil_size : 1 ≤ a.nil_size
