-- ===== src/Mpc/HandOver.antt =====
-- The parts of FromWire: the copy of a payload, and the buffer that the codec keeps.
use bimpc.Common.{
  ℕ, ◌≤◌, ◌<◌, ◌≡◌, refl, sym, ◌∙◌, ◌==◌, Bool-cases, inl, inr, Option, none, some, [], arith,
  length,
}
use bimpc.Memory.{Bytes, Memory, Slice, nil_slice, slice, array, len, bytes, IsValid, Owns}
use bimpc.Memory.Frame.{
  length-after_copy, array-after_copy, bytes-after_copy, after_copy-IsValid, make_slice-Owns,
  bytes-same_array,
}
use bimpc.Memory.Writes.{owned-lt}
use bimpc.Mpc.{Value, raw, obj, keep, hand_over}

-- The bytes that a delivered payload shows, and the slice that it is.
abbrev pub payload : {Obj : Type 0} → Memory → Option (Value Obj) → Bytes
payload mem none = []
payload mem (some (raw s)) = bytes mem s
payload mem (some (obj x)) = []

abbrev pub payload_slice : {Obj : Type 0} → Option (Value Obj) → Slice
payload_slice none = nil_slice
payload_slice (some (raw s)) = s
payload_slice (some (obj x)) = nil_slice

-- A payload that was delivered is absent or a msgp.Raw.
abbrev pub IsRaw : {Obj : Type 0} → Option (Value Obj) → Type 0
IsRaw none = Unit {0}
IsRaw (some (raw s)) = Unit {0}
IsRaw (some (obj x)) = ⊥

-- The store has only grown.
pub record Extends (mem mem' : Memory) : Type 0 where
  pub grows : length mem ≤ length mem'
  pub old : (b : ℕ) → b < length mem → array mem' b ≡ array mem b

module _ {mem mem' : Memory} (x : Extends mem mem') where
  pub Extends-bytes : (s : Slice) → IsValid mem s → bytes mem' s ≡ bytes mem s
  Extends-bytes s v = bytes-same_array mem mem' s λ b o. x.old b (owned-lt mem s v b o)

  pub Extends-IsValid : (s : Slice) → IsValid mem s → IsValid mem' s
  Extends-IsValid nil_slice v = tt
  Extends-IsValid (slice b n) v = (omega (arith, x.grows), rw (x.old b v.0) v.1)

pub Extends-trans :
    {mem mem₁ mem₂ : Memory} → Extends mem mem₁ → Extends mem₁ mem₂ → Extends mem mem₂
Extends-trans x y = record {
  grows = omega (arith, x.grows, y.grows);
  old = λ b h. y.old b (omega (arith, x.grows)) ∙ x.old b h;
}

-- `v` shows what `s` shows, in an array of its own.
pub record IsCopy {Obj : Type 0} (mem : Memory) (s : Slice) (v : Option (Value Obj)) (mem' : Memory)
    : Type 0 where
  pub extends : Extends mem mem'
  pub shows : payload mem' v ≡ bytes mem s
  pub valid : IsValid mem' (payload_slice v)
  pub fresh : (b : ℕ) → Owns (payload_slice v) b → length mem ≤ b
  pub absent : len s ≡ 0 → v ≡ none
  pub is_raw : IsRaw v

no_bytes : (mem : Memory) (s : Slice) → len s ≡ 0 → bytes mem s ≡ []
no_bytes mem nil_slice h = refl
no_bytes mem (slice b n) h = rw h

module _ {Obj : Type 0} (mem : Memory) (s : Slice) (valid : IsValid mem s) where
  pub hand_over-IsCopy : let (v, mem') = hand_over {Obj = Obj} s mem in IsCopy mem s v mem'
  unfolding hand_over
  hand_over-IsCopy = elim (Bool-cases (len s == 0)) [
    | inl empty ↦ rw empty (record {
      extends = record { grows = omega arith; old = λ b h. refl };
      shows = sym (no_bytes mem s (ground arith));
      valid = tt;
      fresh = λ b o. absurd o;
      absent = λ h. refl;
      is_raw = tt;
    })
    | inr full ↦ rw full (record {
      extends = record {
        grows = omega (arith, length-after_copy mem s valid);
        old = array-after_copy mem s valid;
      };
      shows = bytes-after_copy mem s valid;
      valid = after_copy-IsValid mem s valid;
      fresh = make_slice-Owns (len s) mem;
      absent = λ h. absurd (ground arith);
      is_raw = tt;
    })
  ]

-- What `keep` leaves is the old buffer with nothing in it, or no buffer.
pub keep-Owns : (mem : Memory) (s : Slice) (b : ℕ) → Owns (keep mem s) b → Owns s b
unfolding keep
keep-Owns mem nil_slice b o = o
keep-Owns mem (slice b' n) b o = ground arith

pub keep-IsValid : (mem : Memory) (s : Slice) → IsValid mem s → IsValid mem (keep mem s)
unfolding keep
keep-IsValid mem nil_slice v = tt
keep-IsValid mem (slice b n) v = ground arith
