-- ===== src/Sample/Store.antt =====
-- `store` writes to its buffer or to a new array, and shows what it was given.
use bimpc.Common.{
  ℕ, ◌≤◌, ◌≡◌, inl, inr, Bool-cases, [], ◌∷◌, ◌++◌, ltb, arith, length, set, length-append,
}
use bimpc.Common.Lists.{
  get_or-append_left, get_or-append_here, get_or-set_self, get_or-set_ne, length-set,
}
use bimpc.Memory.{Bytes, Memory, Slice, nil_slice, slice, array, bytes, overwrite, IsValid}
use bimpc.Memory.Frame.{take_all, length-overwrite, take-overwrite}
use bimpc.Memory.Writes.{Writes}
use bimpc.Sample.{store}
use native.Mathlib.Decide.{ℕ_discrete}

-- A new array behind the others.
new_array-Writes :
    (s : Slice) (p : Bytes) (mem : Memory)
    → Writes mem s (mem ++ (p ∷ [])) (slice (length mem) (length p))
new_array-Writes s p mem = record {
  grows = omega (arith, length-append mem (p ∷ []));
  sizes = λ b h. rw (get_or-append_left mem (p ∷ []) b [] h);
  frame = λ b h n. get_or-append_left mem (p ∷ []) b [] h;
  valid = (omega (arith, length-append mem (p ∷ [])), rw (get_or-append_here mem p []) le_self);
  origin = λ b o. inr (omega arith);
}
  where
    le_self : length p ≤ length p
    le_self = omega arith

new_array-bytes :
    (p : Bytes) (mem : Memory) → bytes (mem ++ (p ∷ [])) (slice (length mem) (length p)) ≡ p
new_array-bytes p mem = rw (get_or-append_here mem p []) (take_all p)

module _ (b n : ℕ) (p : Bytes) (mem : Memory) (v : IsValid mem (slice b n))
    (fits : length p ≤ length (array mem b)) where
  abbrev after : Memory
  after = set mem b (overwrite (array mem b) p)

  reused-Writes : Writes mem (slice b n) after (slice b (length p))
  reused-Writes = record {
    grows = omega (arith, length-set mem b (overwrite (array mem b) p));
    sizes = λ b' h. elim (ℕ_discrete b b') [
      | yes e ↦ rw (← e) (
          rw (get_or-set_self mem b (overwrite (array mem b) p) [] v.0)
            (length-overwrite (array mem b) p))
      | no ne ↦ rw (get_or-set_ne mem b b' (overwrite (array mem b) p) [] ne)
    ];
    frame = λ b' h k. get_or-set_ne mem b b' _ [] k;
    valid = (
      omega (arith, v.0, length-set mem b (overwrite (array mem b) p)),
      rw (get_or-set_self mem b (overwrite (array mem b) p) [] v.0)
          (rw (length-overwrite (array mem b) p) fits),
    );
    origin = λ b' o. inl o;
  }

  reused-bytes : bytes after (slice b (length p)) ≡ p
  reused-bytes =
      rw (get_or-set_self mem b (overwrite (array mem b) p) [] v.0)
        (take-overwrite (array mem b) p fits)

pub store-Writes :
    (s : Slice) (p : Bytes) (mem : Memory)
    → IsValid mem s
    → let (s', mem') = store s p mem in Writes mem s mem' s'
unfolding store
store-Writes nil_slice p mem v = new_array-Writes nil_slice p mem
store-Writes (slice b n) p mem v = elim (Bool-cases (ltb (length (array mem b)) (length p))) [
  | inl large ↦ rw large (new_array-Writes (slice b n) p mem)
  | inr small ↦ rw small (reused-Writes b n p mem v (ground arith))
]

pub store-bytes :
    (s : Slice) (p : Bytes) (mem : Memory)
    → IsValid mem s
    → let (s', mem') = store s p mem in bytes mem' s' ≡ p
unfolding store
store-bytes nil_slice p mem v = new_array-bytes p mem
store-bytes (slice b n) p mem v = elim (Bool-cases (ltb (length (array mem b)) (length p))) [
  | inl large ↦ rw large (new_array-bytes p mem)
  | inr small ↦ rw small (reused-bytes b n p mem v (ground arith))
]
