-- ===== src/Sample/Objects.antt =====
-- Where an object ends, for the sample: nil, numbers, texts and maps.
use bimpc.Common.{
  ℕ, zero, suc, ◌+◌, ◌-◌, ◌*◌, ◌≡◌, refl, true, false, Option, none, some, [], ◌∷◌, ◌++◌, ◌==◌, ltb,
  if◌then◌else◌, length, take, arith, length-append,
}
use bimpc.Common.Lists.{take-append}
use bimpc.Memory.{Bytes}
use bimpc.Msgp.{payload_form, received}

-- What is behind `n` bytes, if there are as many.
unfoldable pub behind : ℕ → Bytes → Option Bytes
behind zero b = some b
behind (suc n) [] = none
behind (suc n) (x ∷ b) = behind n b

-- The number in the next `k` bytes.
unfoldable pub number : ℕ → ℕ → Bytes → ℕ
number zero acc b = acc
number (suc k) acc [] = acc
number (suc k) acc (x ∷ b) = number k (acc * 256 + x) b

-- The bytes of an object that is no map, by its first byte `c` and what follows that.
unfoldable pub scalar_size : ℕ → Bytes → ℕ
unfolding number
scalar_size c b =
    if c == 0xc0
    then 1
    else if c == 0xcf
    then 9
    else if c == 0xd3
    then 9
    else if c == 0xce
    then 5
    else if c == 0xdb
    then 5 + number 4 0 b
    else if ltb c 0xc0
    then 1 + (c - 0xa0)
    else 1

-- What is behind `n` objects, in as many steps as there is fuel.
unfoldable pub skip_objects : ℕ → ℕ → Bytes → Option Bytes
unfolding behind scalar_size
skip_objects zero n b = none
skip_objects (suc fuel) zero b = some b
skip_objects (suc fuel) (suc n) [] = none
skip_objects (suc fuel) (suc n) (c ∷ b) = elim (ltb c 0xa0) [
  | true ↦ skip_objects fuel (2 * (c - 0x80) + n) b
  | false ↦ elim (behind (scalar_size c b) (c ∷ b)) [
    | none ↦ none
    | some rest ↦ skip_objects fuel n rest
  ]
]

unfoldable pub skip_object : Bytes → Option Bytes
unfolding skip_objects
skip_object b = skip_objects 100 1 b

abbrev pub IsNotNil : Bytes → Type 0
IsNotNil [] = ⊥
IsNotNil (c ∷ p) = (c == 0xc0) ≡ false

-- One object that is not nil, and no more.
abbrev pub IsSampleObject : Bytes → Type 0
IsSampleObject p = IsNotNil p × ((rest : Bytes) → skip_object (p ++ rest) ≡ some rest)

-- The object before `rest`.
unfoldable pub object_before : Bytes → Bytes → Bytes
object_before b rest = take (length b - length rest) b

pub object_before-append : (p rest : Bytes) → object_before (p ++ rest) rest ≡ p
unfolding object_before
object_before-append p rest =
    let n : length (p ++ rest) - length rest ≡ length p = omega (arith, length-append p rest) in
    rw n (take-append p rest)

pub payload_form-object : (p : Bytes) → IsNotNil p → payload_form p ≡ p
payload_form-object [] h = absurd h
payload_form-object (c ∷ p) h = refl

pub received-object : (p : Bytes) → IsNotNil p → received p ≡ p
received-object [] h = absurd h
received-object (c ∷ []) h = rw h refl
received-object (c ∷ d ∷ p) h = refl
