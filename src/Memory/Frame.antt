-- ===== src/Memory/Frame.antt =====
-- What `make` and `copy` leave alone, and what a copy into a new array shows.
use bimpc.Common.{ℕ, suc, ◌≤◌, ◌<◌, ◌≡◌, refl, sym, ap, ◌∙◌, [], ◌∷◌, ◌++◌, arith}
use bimpc.Common.{length, take, replicate, length-append}
use bimpc.Common.Lists.{length-set, length-replicate, length-take_le, get_or-append_left}
use bimpc.Common.Lists.{get_or-append_here, get_or-set_self, get_or-set_ne}
use bimpc.Memory.{Bytes, Memory, Slice, nil_slice, slice, array, bytes, len, make_slice, copy}
use bimpc.Memory.{overwrite, IsValid, Owns}

pub length-bytes : (mem : Memory) (s : Slice) → IsValid mem s → length (bytes mem s) ≡ len s
length-bytes mem nil_slice v = refl
length-bytes mem (slice b n) v = length-take_le n (array mem b) v.1

overwrite_all : (a new : Bytes) → length new ≡ length a → overwrite a new ≡ new
overwrite_all [] [] h = refl
overwrite_all (x ∷ a) [] h = absurd (omega arith)
overwrite_all [] (y ∷ new) h = absurd (omega arith)
overwrite_all (x ∷ a) (y ∷ new) h = ap (λ t. y ∷ t) (overwrite_all a new (omega arith))

pub take-overwrite :
    (a new : Bytes) → length new ≤ length a → take (length new) (overwrite a new) ≡ new
take-overwrite a [] h = refl
take-overwrite [] (y ∷ new) h = elim h [ ]
take-overwrite (x ∷ a) (y ∷ new) h = ap (λ t. y ∷ t) (take-overwrite a new (omega arith))

pub length-overwrite : (a new : Bytes) → length (overwrite a new) ≡ length a
length-overwrite a [] = refl
length-overwrite [] (y ∷ new) = refl
length-overwrite (x ∷ a) (y ∷ new) = ap suc (length-overwrite a new)

pub take_all : (xs : Bytes) → take (length xs) xs ≡ xs
take_all [] = refl
take_all (x ∷ xs) = ap (λ t. x ∷ t) (take_all xs)

-- A slice shows the same bytes in two stores that agree on its array.
pub bytes-same_array :
    (mem mem' : Memory) (s : Slice)
    → ((b : ℕ) → Owns s b → array mem' b ≡ array mem b)
    → bytes mem' s ≡ bytes mem s
bytes-same_array mem mem' nil_slice h = refl
bytes-same_array mem mem' (slice b n) h = ap (take n) (h b refl)

-- The store after `out := make(msgp.Raw, len(raw)); copy(out, raw)`.
abbrev pub after_copy : Memory → Slice → Memory
after_copy mem s = copy (make_slice (len s) mem).0 s (make_slice (len s) mem).1

module _ (mem : Memory) (s : Slice) (valid : IsValid mem s) where
  -- The bytes of `s` are still there after the new array is made.
  made_bytes : bytes (mem ++ (replicate (len s) 0 ∷ [])) s ≡ bytes mem s
  made_bytes = bytes-same_array mem _ s (old_arrays s valid)
    where
      old_arrays :
          (t : Slice)
          → IsValid mem t
          → (b : ℕ) → Owns t b
          → array (mem ++ (replicate (len s) 0 ∷ [])) b ≡ array mem b
      old_arrays nil_slice v b o = absurd o
      old_arrays (slice b' n) v b o = get_or-append_left mem _ b [] (omega arith)

  pub length-after_copy : length (after_copy mem s) ≡ suc (length mem)
  unfolding make_slice copy
  length-after_copy = length-set _ _ _ ∙ length-append mem _ ∙ omega arith

  -- Every old array is as it was.
  pub array-after_copy : (b : ℕ) → b < length mem → array (after_copy mem s) b ≡ array mem b
  unfolding make_slice copy
  array-after_copy b h =
      get_or-set_ne _ (length mem) b _ [] (omega arith) ∙ get_or-append_left mem _ b [] h

  take-bytes : take (len s) (bytes mem s) ≡ bytes mem s
  take-bytes = rw (← length-bytes mem s valid) (take_all (bytes mem s))

  -- The new array holds the bytes of `s` and nothing else.
  pub new_array-after_copy : array (after_copy mem s) (length mem) ≡ bytes mem s
  unfolding make_slice copy
  new_array-after_copy =
      get_or-set_self _ (length mem) _ [] (rw length-append (omega arith))
      ∙ rw (get_or-append_here mem (replicate (len s) 0) [], made_bytes, take-bytes)
          (overwrite_all _ _ fits)
    where
      fits : length (bytes mem s) ≡ length (replicate {A = ℕ} (len s) 0)
      fits = length-bytes mem s valid ∙ sym (length-replicate (len s) 0)

  -- The new slice shows what `s` shows, and lies in the new array.
  pub bytes-after_copy : bytes (after_copy mem s) (make_slice (len s) mem).0 ≡ bytes mem s
  unfolding make_slice
  bytes-after_copy = ap (take (len s)) new_array-after_copy ∙ take-bytes

  pub after_copy-IsValid : IsValid (after_copy mem s) (make_slice (len s) mem).0
  unfolding make_slice
  after_copy-IsValid = (
    omega (arith, length-after_copy),
    rw new_array-after_copy (rw (length-bytes mem s valid) le_self),
  )
    where
      le_self : len s ≤ len s
      le_self = omega arith

-- The new slice owns the new array alone.
pub make_slice-Owns : (n : ℕ) (mem : Memory) (b : ℕ) → Owns (make_slice n mem).0 b → length mem ≤ b
unfolding make_slice
make_slice-Owns n mem b o = omega arith
