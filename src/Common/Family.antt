-- ===== src/Common/Family.antt =====
-- Families indexed by number, of goroutines or of connections, with an update at one index.
use Prim.Native.Nat.{ℕ}
use mathlib.Core.Path.{◌≡◌, refl, ap, sym}
use mathlib.Core.Path.{subst}
use mathlib.Core.Logic.{◌≢◌, inl, inr}
use mathlib.Core.Bool.{Bool, true, false}
use native.Mathlib.Omega.{arith}
use bimpc.Common.Tests.{◌==◌, if◌then◌else◌, Bool-cases}

abbrev pub update {ℓ} : {A : Type ℓ} → (ℕ → A) → ℕ → A → ℕ → A
update f i a j = if i == j then a else f j

pub eq_true : (i j : ℕ) → (i == j) ≡ true → i ≡ j
eq_true i j h = ground arith

eq_false : (i j : ℕ) → (i == j) ≡ false → i ≢ j
eq_false i j h = ground arith

pub eq_self : (i : ℕ) → (i == i) ≡ true
eq_self i = ground arith

module _ {ℓ} {A : Type ℓ} (f : ℕ → A) (i : ℕ) (a : A) where
  pub update_self : update f i a i ≡ a
  update_self = ap (λ b. if b then a else f i) (eq_self i)

  -- What holds of the new value at `i`, and of the old ones elsewhere, holds everywhere.
  pub update_cases {κ} :
      (P : A → Type κ) (j : ℕ) → (i ≡ j → P a) → (i ≢ j → P (f j)) → P (update f i a j)
  update_cases P j here there = elim (Bool-cases (i == j)) [
    | inl e ↦ subst (λ b. P (if b then a else f j)) (sym e) (here (eq_true i j e))
    | inr e ↦ subst (λ b. P (if b then a else f j)) (sym e) (there (eq_false i j e))
  ]

pub ap-update {ℓ κ} :
    {A : Type ℓ} {B : Type κ} (g : A → B) (f : ℕ → A) (i : ℕ) (a : A) (j : ℕ)
    → g (update f i a j) ≡ update (λ k. g (f k)) i (g a) j
ap-update g f i a j = go (i == j)
  where
    go : (b : Bool) → g (if b then a else f j) ≡ (if b then g a else g (f j))
    go true = refl
    go false = refl
