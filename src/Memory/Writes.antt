-- ===== src/Memory/Writes.antt =====
-- What a write into a buffer may do to the store: fill the array of the buffer that it is given, or
-- make new arrays. Nothing else changes, and the buffer that comes back is one of these.
use bimpc.Common.{ℕ, ◌≤◌, ◌<◌, ◌≡◌, ◌⊎◌, inl, inr, arith, length}
use bimpc.Memory.{Memory, Slice, nil_slice, slice, array, bytes, IsValid, Owns, Apart}
use bimpc.Memory.Frame.{bytes-same_array}

pub record Writes (mem : Memory) (buf : Slice) (mem' : Memory) (out : Slice) : Type 0 where
  pub grows : length mem ≤ length mem'
  pub sizes : (b : ℕ) → b < length mem → length (array mem' b) ≡ length (array mem b)
  pub frame : (b : ℕ) → b < length mem → ¬ Owns buf b → array mem' b ≡ array mem b
  pub valid : IsValid mem' out
  pub origin : (b : ℕ) → Owns out b → Owns buf b ⊎ (length mem ≤ b)

-- The array of a valid slice is in the store.
pub owned-lt : (mem : Memory) (s : Slice) → IsValid mem s → (b : ℕ) → Owns s b → b < length mem
owned-lt mem nil_slice v b o = absurd o
owned-lt mem (slice b' n) v b o = omega arith

pub Apart-sym : (s t : Slice) → Apart s t → Apart t s
Apart-sym s t a b o o' = a b o' o

module _ {mem mem' : Memory} {buf out : Slice} (w : Writes mem buf mem' out) where
  -- A slice of another array still shows what it showed.
  pub Writes-bytes : (s : Slice) → IsValid mem s → Apart s buf → bytes mem' s ≡ bytes mem s
  Writes-bytes s v a = bytes-same_array mem mem' s λ b o. w.frame b (owned-lt mem s v b o) (a b o)

  -- Every slice stays valid.
  pub Writes-IsValid : (s : Slice) → IsValid mem s → IsValid mem' s
  Writes-IsValid nil_slice v = tt
  Writes-IsValid (slice b n) v = omega (arith, w.grows, w.sizes b v.0)

  -- The buffer that comes back shares nothing with a slice that the old one shared nothing with.
  pub Writes-Apart : (s : Slice) → IsValid mem s → Apart s buf → Apart s out
  Writes-Apart s v a b o o' = elim (w.origin b o') [
    | inl old ↦ a b o old
    | inr new ↦ absurd (omega (arith, owned-lt mem s v b o))
  ]
