-- ===== src/Generic/Concurrent/Held.antt =====
-- The messages that the goroutines hold, when one of them goes on.
use mathlib.Core.Path.{subst}
use bimpc.Common.{ℕ, ◌≡◌, refl, sym, ap, ◌∙◌, update, update_cases, ap-update}
use bimpc.Mpc.{Message}
use bimpc.Generic.Concurrent.{Writer, message_of}

module _ {Obj : Type 0} (P : (ℕ → Message) → Type 0) (writers : ℕ → Writer Obj) (i : ℕ)
    (x : Writer Obj) where
  pub held_updated :
      P (update (λ j. message_of (writers j)) i (message_of x))
      → P (λ j. message_of (update writers i x j))
  held_updated = subst P (λ k j. sym (ap-update message_of writers i x j) k)

  -- It keeps its message.
  pub held_same :
      message_of (writers i) ≡ message_of x
      → P (λ j. message_of (writers j))
      → P (λ j. message_of (update writers i x j))
  held_same e = subst P (λ k j.
      update_cases writers i x (λ y. message_of (writers j) ≡ message_of y) j
        (λ e'. ap (λ l. message_of (writers l)) (sym e') ∙ e) (λ n. refl) k)
