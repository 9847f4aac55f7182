-- ===== src/Action/Rules.antt =====
-- Rules for actions, one for each step of a `do` block.
use bimpc.Common.{◌≡◌}
use bimpc.Action.{Result, ok, err, Action, ◌>>=◌, continue}

-- The action succeeds at `s`, and `P` holds of its result and of the state that it leaves.
abbrev pub Runs : {S A : Type 0} → Action S A → S → (A → S → Type 0) → Type 0
Runs {S} {A} m s P = (a : A) × (s' : S) × (m s ≡ (ok a, s')) × P a s'

-- The action keeps `I`, whether it succeeds or fails.
pub record Preserves {S A : Type 0} (I : S → Type 0) (m : Action S A) : Type 0 where
  pub keeps : (s : S) → I s → I (m s).1

module _ {S A B : Type 0} where
  pub Runs-bind :
      (m : Action S A) (f : A → Action S B) (s : S) (P : A → S → Type 0) (Q : B → S → Type 0)
      → Runs m s P
      → ((a : A) (s' : S) → P a s' → Runs (f a) s' Q)
      → Runs (m >>= f) s Q
  Runs-bind m f s P Q (a, s', e, p) k = let (b, s'', e', q) = k a s' p in (b, s'', rw e e', q)

  pub Preserves-bind :
      (I : S → Type 0) (m : Action S A) (f : A → Action S B)
      → Preserves I m
      → ((a : A) → Preserves I (f a))
      → Preserves I (m >>= f)
  Preserves-bind I m f h k = record { keeps = λ s i. go (m s) (h.keeps s i) }
    where
      go : (r : Result A × S) → I r.1 → I (continue r f).1
      go (ok a, s) j = (k a).keeps s j
      go (err e, s) j = j
