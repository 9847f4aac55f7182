-- ===== src/Sample/Laws.antt =====
-- The sample meets the laws.
use bimpc.Common.{
  Bool-cases, ℕ, zero, suc, ◌+◌, ◌*◌, ◌/◌, ◌%◌, ◌^◌, ◌≡◌, ◌<◌, ◌≤◌, refl, sym, ap, ◌∙◌, inl, inr,
  Option, none, some, [], ◌∷◌, ◌++◌, ◌==◌, arith, length, length-append,
}
use mathlib.Core.List.{append-nil, append_assoc}
use native.Mathlib.Nat.{div-add-mod', mod-lt, pow-suc}
use bimpc.Common.Lists.{take-append, drop-append}
use bimpc.Memory.{Bytes, Memory, Slice, bytes, IsValid, truncate}
use bimpc.Memory.Writes.{Writes}
use bimpc.Msgp.{
  DecoderLaws, EncoderLaws, FlushLaws, AppenderLaws, IsPayload, payload_form, received, array_form,
}
use mathlib.Core.Option.{some-injective}
use bimpc.Mpc.Marshal.{Encodes, Writes-refl, Marshals, bytes-truncate}
use bimpc.Mpc.Appending.{Appends}
use bimpc.Mpc.{raw, obj}
use bimpc.Sample.Objects.{
  IsSampleObject, skip_object, object_before, object_before-append, payload_form-object,
  received-object,
}
use bimpc.Sample.{
  big_endian, read_digits, text_form, sample_format, cut, read_text, read_number, read_header,
  at_nil, read_nil, store, store_object, read_raw, sample_decoder, Sink, sample_encoder,
  sample_appender, text, plain, append_form, item_marshaler,
}
use bimpc.Sample.Store.{store-Writes, store-bytes}

pow-pos : (k : ℕ) → 0 < 256 ^ k
pow-pos zero = omega arith
pow-pos (suc k) = omega (arith, pow-suc 256 k, pow-pos k)

-- The number `v` is read back behind any digits, if it fits.
pub read_digits-big_endian :
    (k acc v : ℕ) (rest : Bytes)
    → v < 256 ^ k
    → read_digits k acc (big_endian k v ++ rest) ≡ (acc * 256 ^ k + v, none, rest)
unfolding read_digits big_endian
read_digits-big_endian zero acc v rest h = λ i. (value i, none, rest)
  where
    value : acc ≡ acc * 256 ^ zero + v
    value = omega arith
read_digits-big_endian (suc k) acc v rest h =
    read_digits-big_endian k (acc * 256 + v / 256 ^ k) (v % 256 ^ k) rest (mod-lt v (pow-pos k))
    ∙ (λ i. (value i, none, rest))
  where
    value : (acc * 256 + v / 256 ^ k) * 256 ^ k + v % 256 ^ k ≡ acc * 256 ^ suc k + v
    value = omega (arith, ap (λ (t : ℕ). acc * t) (pow-suc 256 k), div-add-mod' v (256 ^ k))

pub cut-text : (s rest : Bytes) → cut (length s, none, s ++ rest) ≡ (s, none, rest)
unfolding cut
cut-text s rest = rw (take-append s rest, drop-append s rest) (ground (arith, length-append s rest))

read_text-text_form :
    (s rest : Bytes) → length s < 2 ^ 32 → read_text (text_form s ++ rest) ≡ (s, none, rest)
unfolding read_text
read_text-text_form s rest h = rw append_assoc (
    rw (read_digits-big_endian 4 0 (length s) (s ++ rest) (omega arith))
      (rw (zero_plus (length s)) (cut-text s rest)))
  where
    zero_plus : (n : ℕ) → 0 * 256 ^ 4 + n ≡ n
    zero_plus n = omega arith

read_number-form :
    (v : ℕ) (rest : Bytes)
    → v < 2 ^ 64
    → read_number (0xcf ∷ big_endian 8 v ++ rest) ≡ (v, none, rest)
unfolding read_number
read_number-form v rest h =
    read_digits-big_endian 8 0 v rest (omega arith) ∙ (λ i. (zero_plus i, none, rest))
  where
    zero_plus : 0 * 256 ^ 8 + v ≡ v
    zero_plus = omega arith

read_header-form :
    (n : ℕ) (rest : Bytes) → n < 16 → read_header (array_form n ++ rest) ≡ (n, none, rest)
unfolding read_header
read_header-form n rest h = ground arith

read_raw-nil :
    (s : Slice) (mem : Memory) (rest : Bytes)
    → read_raw s mem (0xc0 ∷ rest) ≡ (truncate s, none, mem, rest)
unfolding read_raw
read_raw-nil s mem rest = refl

read_raw-object :
    (s : Slice) (mem : Memory) (p rest : Bytes)
    → IsSampleObject p
    → let (s', mem') = store s p mem in read_raw s mem (p ++ rest) ≡ (s', none, mem', rest)
unfolding read_raw
read_raw-object s mem [] rest (h, ends) = absurd h
read_raw-object s mem (c ∷ p) rest (h, ends) =
    rw (h, ends rest)
      (ap (λ q. let (s', mem') = store s q mem in (s', none, mem', rest))
        (object_before-append (c ∷ p) rest))

sample_raw :
    (s : Slice) (mem : Memory) (rd p rest : Bytes)
    → IsValid mem s
    → IsPayload sample_format p
    → rd ≡ payload_form p ++ rest
    → let (s', e, mem', rd') = read_raw s mem rd in
      (e ≡ none) × (bytes mem' s' ≡ received p) × (rd' ≡ rest)
sample_raw s mem rd p rest v (inl e) i =
    rw (i, e, read_raw-nil s mem rest) (refl, bytes-truncate mem s, refl)
sample_raw s mem rd p rest v (inr (h, ends)) i =
    rw (i, payload_form-object p h, received-object p h, read_raw-object s mem p rest (h, ends))
      (refl, store-bytes s p mem v, refl)

store_object-Writes :
    (s : Slice) (mem : Memory) (b : Bytes) (o : Option Bytes)
    → IsValid mem s
    → let (s', e, mem', b') = store_object s mem b o in Writes mem s mem' s'
store_object-Writes s mem b none v = Writes-refl mem s v
store_object-Writes s mem b (some rest) v = store-Writes s (object_before b rest) mem v

read_raw-Writes :
    (s : Slice) (mem : Memory) (rd : Bytes)
    → IsValid mem s
    → let (s', e, mem', rd') = read_raw s mem rd in Writes mem s mem' s'
unfolding read_raw
read_raw-Writes s mem [] v = Writes-refl mem s v
read_raw-Writes s mem (c ∷ b) v = elim (Bool-cases (c == 0xc0)) [
  | inl yes_nil ↦ rw yes_nil (Writes-refl mem s v)
  | inr no_nil ↦ rw no_nil (store_object-Writes s mem (c ∷ b) (skip_object (c ∷ b)) v)
]

pub sample_decoder-DecoderLaws : DecoderLaws sample_format sample_decoder (λ b. b)
unfolding at_nil read_nil
sample_decoder-DecoderLaws = record {
  array_header = λ n h rd rest i. (rest, rw i (read_header-form n rest h), refl);
  uint64 = λ v h rd rest i. (rest, rw i (read_number-form v rest h), refl);
  string = λ s h rd rest i. (rest, rw i (read_text-text_form s rest h), refl);
  is_nil = λ rd c rest i. (c ∷ rest, rw i, refl);
  nil = λ rd rest i. (rest, rw i, refl);
  raw = λ s mem rd p rest. sample_raw s mem rd p rest;
  raw_writes = read_raw-Writes;
}

-- What the connection has got and what waits in the buffer.
abbrev pub sink_output : Sink → Bytes
sink_output w = w.got ++ w.buffered

pub sample_encoder-EncoderLaws : EncoderLaws sample_format sample_encoder sink_output
sample_encoder-EncoderLaws = record {
  append = λ b w h. sym (append_assoc w.got w.buffered b);
  uint64 = λ v w h. sym (append_assoc w.got w.buffered (sample_format.uint64 v));
  string = λ s w h. sym (append_assoc w.got w.buffered (text_form s));
  nil = λ w h. sym (append_assoc w.got w.buffered _);
  raw = λ p w h. sym (append_assoc w.got w.buffered (payload_form p));
}

pub sample_encoder-FlushLaws : FlushLaws sample_encoder sink_output (λ w. w.got)
sample_encoder-FlushLaws = record { flush = λ w h. refl }

pub sample_encoder-kept : FlushLaws sample_encoder sink_output sink_output
sample_encoder-kept = record { flush = λ w h. append-nil (w.got ++ w.buffered) }

pub length-big_endian : (k v : ℕ) → length (big_endian k v) ≡ k
unfolding big_endian
length-big_endian zero v = refl
length-big_endian (suc k) v = ap suc (length-big_endian k (v % 256 ^ k))

payload_form-length : (p : Bytes) → length (payload_form p) ≤ length p + 1
payload_form-length [] = omega arith
payload_form-length (c ∷ p) = omega arith

pub sample_appender-AppenderLaws : AppenderLaws sample_format sample_appender
sample_appender-AppenderLaws = record {
  require = λ b n. refl;
  uint64 = λ b v. refl;
  string = λ b s. refl;
  nil = λ b. refl;
  raw = λ p b. refl;
  uint64_size = λ v. omega (arith, length-big_endian 8 v);
  string_size =
      λ s. omega (arith, length-append (big_endian 4 (length s)) s, length-big_endian 4 (length s));
  raw_size = payload_form-length;
  nil_size = omega arith;
}

pub append_form-Marshals : (enc : Bytes) → Marshals (append_form enc) enc
unfolding append_form
append_form-Marshals enc = record {
  succeeds = λ buf mem. refl;
  writes = λ buf mem v. store-Writes buf (bytes mem buf ++ enc) mem v;
  appends = λ buf mem v. store-bytes buf (bytes mem buf ++ enc) mem v;
}

-- A text item is encoded as its text.
pub text-Encodes : (t : Bytes) → Encodes item_marshaler (some (obj (text t))) (text_form t)
unfolding item_marshaler
text-Encodes t = (append_form (text_form t), refl, append_form-Marshals (text_form t))

pub item_marshaler-Appends : Appends item_marshaler
unfolding item_marshaler
item_marshaler-Appends (raw s) m e = absurd (cc)
item_marshaler-Appends (obj (text t)) m e =
    rw (← some-injective _ _ e) (append_form-Marshals (text_form t)).writes
item_marshaler-Appends (obj plain) m e = absurd (cc)
