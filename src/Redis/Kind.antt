-- ===== src/Redis/Kind.antt =====
-- strings.Contains, and what the loop of ReadMessage makes of a value by its kind.
use bimpc.Common.{
  ℕ, ◌≡◌, refl, ap, inl, inr, ◌⊎◌, Bool, true, false, Bool-cases, none, some, [], ◌∷◌, ◌++◌, ◌==◌,
  if◌then◌else◌, arith,
}
use bimpc.Memory.{Bytes}
use bimpc.Redis.{has_prefix, contains, Published, message_kind, payload_of}

-- `p` stands somewhere in `s`.
abbrev pub IsWithin : Bytes → Bytes → Type 0
IsWithin p s = (before : Bytes) × (after : Bytes) × (s ≡ before ++ (p ++ after))

same_byte : (c : ℕ) → (c == c) ≡ true
same_byte c = ground arith

equal_bytes : (c x : ℕ) → (c == x) ≡ true → c ≡ x
equal_bytes c x h = ground arith

both_true : (a b : Bool) → (if a then b else false) ≡ true → (a ≡ true) × (b ≡ true)
both_true true b h = (refl, h)
both_true false b h = absurd (cc)

either_true : (a b : Bool) → (if a then true else b) ≡ true → (a ≡ true) ⊎ (b ≡ true)
either_true true b h = inl refl
either_true false b h = inr h

has_prefix-append : (p b : Bytes) → has_prefix (p ++ b) p ≡ true
unfolding has_prefix
has_prefix-append [] b = refl
has_prefix-append (x ∷ p) b = rw (same_byte x) (has_prefix-append p b)

has_prefix-found : (s p : Bytes) → has_prefix s p ≡ true → (b : Bytes) × (s ≡ p ++ b)
unfolding has_prefix
has_prefix-found s [] h = (s, refl)
has_prefix-found [] (x ∷ p) h = absurd (cc)
has_prefix-found (c ∷ s) (x ∷ p) h =
    let (same, rest) = both_true (c == x) (has_prefix s p) h in
    let (b, e) = has_prefix-found s p rest in (b, λ i. equal_bytes c x same i ∷ e i)

contains-prefix : (s p : Bytes) → has_prefix s p ≡ true → contains s p ≡ true
unfolding contains
contains-prefix [] p h = h
contains-prefix (c ∷ s) p h = rw h refl

contains-later : (c : ℕ) (s p : Bytes) → contains s p ≡ true → contains (c ∷ s) p ≡ true
unfolding contains
contains-later c s p h = elim (Bool-cases (has_prefix (c ∷ s) p)) [
  | inl here ↦ rw here refl
  | inr later ↦ rw later h
]

pub contains-IsWithin : (s p : Bytes) → IsWithin p s → contains s p ≡ true
contains-IsWithin s p ([], after, e) =
    rw e (contains-prefix (p ++ after) p (has_prefix-append p after))
contains-IsWithin s p (c ∷ before, after, e) = rw e (
    contains-later c (before ++ (p ++ after)) p
      (contains-IsWithin (before ++ (p ++ after)) p (before, after, refl)))

pub contains-found : (s p : Bytes) → contains s p ≡ true → IsWithin p s
unfolding contains
contains-found [] p h = let (b, e) = has_prefix-found [] p h in ([], b, e)
contains-found (c ∷ s) p h = elim (either_true (has_prefix (c ∷ s) p) (contains s p) h) [
  | inl here ↦ let (b, e) = has_prefix-found (c ∷ s) p here in ([], b, e)
  | inr later ↦
      let (before, after, e) = contains-found s p later in (c ∷ before, after, ap (λ t. c ∷ t) e)
]

-- Nothing to deliver: the kind of the value does not contain "message", or the value is nil.
abbrev pub IsSkipped : Published → Type 0
IsSkipped p = (¬ IsWithin message_kind p.kind) ⊎ (p.value ≡ none)

-- A message with the payload `b`.
abbrev pub IsMessage : Bytes → Published → Type 0
IsMessage b p = IsWithin message_kind p.kind × (p.value ≡ some b)

pub payload_of-IsSkipped : (p : Published) → IsSkipped p → payload_of p ≡ none
unfolding payload_of
payload_of-IsSkipped p (inl other) = elim (Bool-cases (contains p.kind message_kind)) [
  | inl found ↦ absurd (other (contains-found p.kind message_kind found))
  | inr not_found ↦ rw not_found refl
]
payload_of-IsSkipped p (inr no_value) = elim (Bool-cases (contains p.kind message_kind)) [
  | inl found ↦ rw (found, no_value) refl
  | inr not_found ↦ rw not_found refl
]

pub payload_of-IsMessage : (b : Bytes) (p : Published) → IsMessage b p → payload_of p ≡ some b
unfolding payload_of
payload_of-IsMessage b p (kind, value) = rw (contains-IsWithin p.kind message_kind kind, value) refl
