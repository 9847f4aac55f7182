-- ===== src/Memory.antt =====
-- Go's byte slices over an explicit store, for the buffers that mpc/mpc.go reuses and hands over.
-- An array never moves, never changes its size, and is named by its position in the store. The
-- code only makes slices that begin where their array begins, so a slice has no offset, and its
-- capacity is the size of its array.
pub mod Frame
pub mod Writes
use bimpc.Common.{ℕ, ◌-◌, ◌≤◌, ◌<◌, ◌≡◌, Bool, true, false, List, [], ◌∷◌, ◌++◌, min}
use bimpc.Common.{length, get_or, set, take, drop, replicate}

abbrev pub Bytes : Type 0
Bytes = List ℕ

-- The arrays that were ever made. An address below `length` is in use.
abbrev pub Memory : Type 0
Memory = List Bytes

abbrev pub array : Memory → ℕ → Bytes
array mem b = get_or mem b []

pub data Slice : Type 0 where
  nil_slice : Slice
  slice : (base len : ℕ) → Slice

-- `len(s)`, `cap(s)` and what the slice shows.
abbrev pub len : Slice → ℕ
len nil_slice = 0
len (slice b n) = n

abbrev pub cap_of : Memory → Slice → ℕ
cap_of mem nil_slice = 0
cap_of mem (slice b n) = length (array mem b)

abbrev pub bytes : Memory → Slice → Bytes
bytes mem nil_slice = []
bytes mem (slice b n) = take n (array mem b)

-- `s[:0]`: a nil slice stays nil.
abbrev pub truncate : Slice → Slice
truncate nil_slice = nil_slice
truncate (slice b n) = slice b 0

-- `make(msgp.Raw, n)`
unfoldable pub make_slice : ℕ → Memory → Slice × Memory
make_slice n mem = (slice (length mem) n, mem ++ (replicate n 0 ∷ []))

-- The first bytes of `a` are replaced by those of `new`, as many as fit.
abbrev pub overwrite : Bytes → Bytes → Bytes
overwrite a [] = a
overwrite [] (y ∷ new) = []
overwrite (x ∷ a) (y ∷ new) = y ∷ overwrite a new

-- `copy(dst, src)` copies as many bytes as the shorter one has.
unfoldable pub copy : Slice → Slice → Memory → Memory
copy nil_slice src mem = mem
copy (slice b n) src mem = set mem b (overwrite (array mem b) (take n (bytes mem src)))

-- A slice lies in its array, and its array is in the store.
abbrev pub IsValid : Memory → Slice → Type 0
IsValid mem nil_slice = Unit {0}
IsValid mem (slice b n) = (b < length mem) × (n ≤ length (array mem b))

-- `s` is a slice of the array at `b`.
abbrev pub Owns : Slice → ℕ → Type 0
Owns nil_slice b = ⊥
Owns (slice b' n) b = b' ≡ b

-- Two slices share no array.
abbrev pub Apart : Slice → Slice → Type 0
Apart s t = (b : ℕ) → Owns s b → ¬ Owns t b
