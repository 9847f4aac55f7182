-- ===== src/Mpc/Moves.antt =====
-- What any operation on a message may do to the store: it writes to the arrays of the message's own
-- buffers and to new ones. All that the buffers of a codec can do to others follows from this.
use bimpc.Common.{ℕ, ◌≤◌, ◌<◌, ◌≡◌, refl, ◌∙◌, ◌⊎◌, inl, inr, arith, length}
use bimpc.Memory.{Bytes, Memory, Slice, nil_slice, slice, array, bytes, IsValid, Owns}
use bimpc.Memory.Frame.{bytes-same_array}
use bimpc.Memory.Writes.{Writes, Writes-IsValid, Writes-Apart, Apart-sym, owned-lt}
use bimpc.Mpc.{Message}
use bimpc.Mpc.Gen.Form.{IsWire}

-- The message holds the array at `b`.
abbrev pub Holds : Message → ℕ → Type 0
Holds m b = Owns m.args b ⊎ Owns m.result b

-- No array is held by both.
abbrev pub Disjoint : Message → Message → Type 0
Disjoint m n = (b : ℕ) → Holds m b → ¬ Holds n b

pub Disjoint-sym : (m n : Message) → Disjoint m n → Disjoint n m
Disjoint-sym m n d b h h' = d b h' h

pub record Moves (mem : Memory) (m : Message) (mem' : Memory) (m' : Message) : Type 0 where
  pub grows : length mem ≤ length mem'
  pub sizes : (b : ℕ) → b < length mem → length (array mem' b) ≡ length (array mem b)
  pub frame : (b : ℕ) → b < length mem → ¬ Holds m b → array mem' b ≡ array mem b
  pub wire : IsWire mem' m'
  pub origin : (b : ℕ) → Holds m' b → Holds m b ⊎ (length mem ≤ b)

-- The slice `t` shows `shown`, and shares no array with the message.
pub record IsGuarded (t : Slice) (shown : Bytes) (mem : Memory) (m : Message) : Type 0 where
  pub valid : IsValid mem t
  pub same : bytes mem t ≡ shown
  pub apart : (b : ℕ) → Owns t b → ¬ Holds m b

pub Moves-refl : {mem : Memory} {m : Message} → IsWire mem m → Moves mem m mem m
Moves-refl w = record {
  grows = omega arith;
  sizes = λ b h. refl;
  frame = λ b h n. refl;
  wire = w;
  origin = λ b h. inl h;
}

pub held-lt : (mem : Memory) (m : Message) → IsWire mem m → (b : ℕ) → Holds m b → b < length mem
held-lt mem m w b (inl o) = owned-lt mem m.args w.args_valid b o
held-lt mem m w b (inr o) = owned-lt mem m.result w.result_valid b o

module _ {mem mem₁ : Memory} {m m₁ : Message} (v : Moves mem m mem₁ m₁) where
  -- An old array that the message did not hold at first it does not hold later.
  not_held : (b : ℕ) → b < length mem → ¬ Holds m b → ¬ Holds m₁ b
  not_held b h n h₁ = elim (v.origin b h₁) [ inl old ↦ n old | inr new ↦ absurd (omega arith) ]

  pub Moves-trans : {mem₂ : Memory} {m₂ : Message} → Moves mem₁ m₁ mem₂ m₂ → Moves mem m mem₂ m₂
  Moves-trans u = record {
    grows = omega (arith, v.grows, u.grows);
    sizes = λ b h. u.sizes b (omega (arith, v.grows)) ∙ v.sizes b h;
    frame = λ b h n. u.frame b (omega (arith, v.grows)) (not_held b h n) ∙ v.frame b h n;
    wire = u.wire;
    origin = λ b h. elim (u.origin b h) [
      | inl held ↦ v.origin b held
      | inr new ↦ inr (omega (arith, v.grows))
    ];
  }

  -- A slice that shares no array with the message stays as it is, in the store and out of reach.
  pub Moves-IsValid : (s : Slice) → IsValid mem s → IsValid mem₁ s
  Moves-IsValid nil_slice h = tt
  Moves-IsValid (slice b n) h = omega (arith, v.grows, v.sizes b h.0)

  pub Moves-IsGuarded :
      {t : Slice} {shown : Bytes} → IsGuarded t shown mem m → IsGuarded t shown mem₁ m₁
  Moves-IsGuarded {t} g = record {
    valid = Moves-IsValid t g.valid;
    same =
        bytes-same_array mem mem₁ t (λ b o. v.frame b (owned-lt mem t g.valid b o) (g.apart b o))
        ∙ g.same;
    apart = λ b o. not_held b (owned-lt mem t g.valid b o) (g.apart b o);
  }

  -- So does another message that shares no array with it.
  pub Moves-IsWire : (n : Message) → IsWire mem n → IsWire mem₁ n
  Moves-IsWire n w = record {
    args_valid = Moves-IsValid n.args w.args_valid;
    result_valid = Moves-IsValid n.result w.result_valid;
    apart = w.apart;
  }

  pub Moves-Disjoint : (n : Message) → IsWire mem n → Disjoint m n → Disjoint m₁ n
  Moves-Disjoint n w d b h h' = not_held b (held-lt mem n w b h') (λ o. d b o h') h

-- A write into one of the buffers is such a move.
module _ {mem mem' : Memory} {m : Message} {out : Slice} (wire : IsWire mem m) where
  pub Writes-args-Moves : Writes mem m.args mem' out → Moves mem m mem' (record m { args = out })
  Writes-args-Moves w = record {
    grows = w.grows;
    sizes = w.sizes;
    frame = λ b h n. w.frame b h (λ o. n (inl o));
    wire = record {
      args_valid = w.valid;
      result_valid = Writes-IsValid w m.result wire.result_valid;
      apart =
          Apart-sym m.result out
            (Writes-Apart w m.result wire.result_valid (Apart-sym m.args m.result wire.apart));
    };
    origin = go;
  }
    where
      go : (b : ℕ) → Holds (record m { args = out }) b → Holds m b ⊎ (length mem ≤ b)
      go b (inl o) = elim (w.origin b o) [ inl old ↦ inl (inl old) | inr new ↦ inr new ]
      go b (inr o) = inl (inr o)

  pub Writes-result-Moves :
      Writes mem m.result mem' out → Moves mem m mem' (record m { result = out })
  Writes-result-Moves w = record {
    grows = w.grows;
    sizes = w.sizes;
    frame = λ b h n. w.frame b h (λ o. n (inr o));
    wire = record {
      args_valid = Writes-IsValid w m.args wire.args_valid;
      result_valid = w.valid;
      apart = Writes-Apart w m.args wire.args_valid wire.apart;
    };
    origin = go;
  }
    where
      go : (b : ℕ) → Holds (record m { result = out }) b → Holds m b ⊎ (length mem ≤ b)
      go b (inl o) = inl (inl o)
      go b (inr o) = elim (w.origin b o) [ inl old ↦ inl (inr old) | inr new ↦ inr new ]

-- The fields beside the buffers are no matter, at either end.
pub Moves-fields :
    {mem mem' : Memory} {m m₁ : Message} (n n₁ : Message)
    → n.args ≡ m.args
    → n.result ≡ m.result
    → n₁.args ≡ m₁.args
    → n₁.result ≡ m₁.result
    → Moves mem m mem' m₁
    → Moves mem n mem' n₁
Moves-fields {mem} {mem'} n n₁ p q p₁ q₁ v = record {
  grows = v.grows;
  sizes = v.sizes;
  frame = λ b h k. v.frame b h (λ o. k (rw (p, q) o));
  wire = record {
    args_valid = rw p₁ v.wire.args_valid;
    result_valid = rw q₁ v.wire.result_valid;
    apart = rw (p₁, q₁) v.wire.apart;
  };
  origin = λ b. rw (p, q, p₁, q₁) (v.origin b);
}
