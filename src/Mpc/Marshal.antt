-- ===== src/Mpc/Marshal.antt =====
-- ToWire on its payloads: what `marshal` makes of a value, and the buffers that it writes.
use bimpc.Common.{ℕ, ◌≡◌, refl, sym, ap, ◌∙◌, inl, inr, ◌⊎◌, Option, none, some, [], ◌++◌, arith}
use bimpc.Memory.{Bytes, Memory, Slice, nil_slice, slice, bytes, truncate, IsValid, Owns}
use bimpc.Memory.Writes.{Writes}
use bimpc.Action.{GoError, not_marshaler}
use bimpc.Mpc.{Value, Marshaler, marshaled, marshal_by, marshal}

-- A marshaler appends its encoding to a buffer, and returns no error.
pub record Marshals (m : Marshaler) (enc : Bytes) : Type 0 where
  pub succeeds : (buf : Slice) (mem : Memory) → (m buf mem).1 ≡ none
  pub writes :
      (buf : Slice) (mem : Memory)
      → IsValid mem buf
      → let (b, e, mem') = m buf mem in Writes mem buf mem' b
  pub appends :
      (buf : Slice) (mem : Memory)
      → IsValid mem buf
      → let (b, e, mem') = m buf mem in bytes mem' b ≡ bytes mem buf ++ enc

pub truncate-IsValid : (mem : Memory) (s : Slice) → IsValid mem s → IsValid mem (truncate s)
truncate-IsValid mem nil_slice v = tt
truncate-IsValid mem (slice b n) v = omega arith

pub truncate-Owns : (s : Slice) (b : ℕ) → Owns (truncate s) b → Owns s b
truncate-Owns nil_slice b o = o
truncate-Owns (slice b' n) b o = o

pub bytes-truncate : (mem : Memory) (s : Slice) → bytes mem (truncate s) ≡ []
bytes-truncate mem nil_slice = refl
bytes-truncate mem (slice b n) = refl

pub Writes-refl : (mem : Memory) (s : Slice) → IsValid mem s → Writes mem s mem (truncate s)
Writes-refl mem s v = record {
  grows = omega arith;
  sizes = λ b h. refl;
  frame = λ b h n. refl;
  valid = truncate-IsValid mem s v;
  origin = λ b o. inl (truncate-Owns s b o);
}

pub Writes-truncate :
    {mem mem' : Memory} {out : Slice} (s : Slice)
    → Writes mem (truncate s) mem' out
    → Writes mem s mem' out
Writes-truncate s w = record {
  grows = w.grows;
  sizes = w.sizes;
  frame = λ b h n. w.frame b h (λ o. n (truncate-Owns s b o));
  valid = w.valid;
  origin = λ b o. elim (w.origin b o) [ inl old ↦ inl (truncate-Owns s b old) | inr new ↦ inr new ];
}

module _ {Obj : Type 0} (as_marshaler : Value Obj → Option Marshaler) where
  -- The payload is absent and encoded as nothing, or its type encodes it as `enc`.
  abbrev pub Encodes : Option (Value Obj) → Bytes → Type 0
  Encodes none enc = enc ≡ []
  Encodes (some v) enc = (m : Marshaler) × (as_marshaler v ≡ some m) × Marshals m enc

  -- The payload cannot be marshaled: its dynamic type has no MarshalMsg, or its MarshalMsg returns the
  -- error `e`, whatever the buffer.
  abbrev pub IsRejected : Option (Value Obj) → GoError → Type 0
  IsRejected none e = ⊥
  IsRejected (some v) e =
      ((as_marshaler v ≡ none) × (e ≡ not_marshaler))
      ⊎ ((m : Marshaler) × (as_marshaler v ≡ some m)
          × ((buf : Slice) (mem : Memory) → (m buf mem).1 ≡ some e))

  -- The payload is absent, and the buffer is emptied; or its type has a MarshalMsg, which has been
  -- called on the emptied buffer and has returned the buffer `out` without an error.
  abbrev pub IsMarshaled : Option (Value Obj) → Slice → Memory → Slice → Memory → Type 0
  IsMarshaled none buf mem out mem' = (out ≡ truncate buf) × (mem' ≡ mem)
  IsMarshaled (some v) buf mem out mem' =
      (m : Marshaler) × (as_marshaler v ≡ some m) × (m (truncate buf) mem ≡ (out, none, mem'))

  marshaled-rejected :
      (buf : Slice) (r : Slice × Option GoError × Memory) (e : GoError)
      → r.1 ≡ some e
      → (marshaled buf r).1 ≡ some e
  marshaled-rejected buf (b, none, mem) e h = absurd (cc)
  marshaled-rejected buf (b, some x, mem) e h = h

  -- `marshal` on a payload that cannot be marshaled.
  pub marshal-rejected :
      (buf : Slice) (v : Option (Value Obj)) (mem : Memory) (e : GoError)
      → IsRejected v e
      → (marshal as_marshaler buf v mem).1 ≡ some e
  unfolding marshal
  marshal-rejected buf none mem e h = absurd h
  marshal-rejected buf (some v) mem e (inl (no_method, q)) = rw no_method (ap some (sym q))
  marshal-rejected buf (some v) mem e (inr (m, has, fails)) =
      rw has (marshaled-rejected (truncate buf) (m (truncate buf) mem) e (fails (truncate buf) mem))

  marshaled-accepted :
      (buf : Slice) (r : Slice × Option GoError × Memory)
      → (marshaled buf r).1 ≡ none
      → r ≡ ((marshaled buf r).0, none, (marshaled buf r).2)
  marshaled-accepted buf (b, none, mem) h = refl
  marshaled-accepted buf (b, some x, mem) h = absurd (cc)

  marshal_by-accepts :
      (v : Value Obj) (buf : Slice) (mem : Memory) (o : Option Marshaler)
      → as_marshaler v ≡ o
      → (marshal_by o (truncate buf) mem).1 ≡ none
      → IsMarshaled
          (some v)
          buf
          mem
          (marshal_by o (truncate buf) mem).0
          (marshal_by o (truncate buf) mem).2
  marshal_by-accepts v buf mem none has done = absurd (cc)
  marshal_by-accepts v buf mem (some m) has done =
      (m, has, marshaled-accepted (truncate buf) (m (truncate buf) mem) done)

  -- A `marshal` that returns no error.
  pub marshal-accepts :
      (buf : Slice) (v : Option (Value Obj)) (mem : Memory)
      → (marshal as_marshaler buf v mem).1 ≡ none
      → IsMarshaled v buf mem (marshal as_marshaler buf v mem).0 (marshal as_marshaler buf v mem).2
  unfolding marshal
  marshal-accepts buf none mem done = (refl, refl)
  marshal-accepts buf (some v) mem done = marshal_by-accepts v buf mem (as_marshaler v) refl done

  -- `marshal` on a payload that can be encoded.
  pub marshal_lem :
      (buf : Slice) (v : Option (Value Obj)) (mem : Memory) (enc : Bytes)
      → IsValid mem buf
      → Encodes v enc
      → let (b, e, mem') = marshal as_marshaler buf v mem in
        (e ≡ none) × Writes mem buf mem' b × (bytes mem' b ≡ enc)
  unfolding marshal
  marshal_lem buf none mem enc valid h =
      (refl, Writes-refl mem buf valid, bytes-truncate mem buf ∙ sym h)
  marshal_lem buf (some v) mem enc valid (m, e, law) =
      let t = truncate buf in
      let valid' = truncate-IsValid mem buf valid in
      rw e (
        rw (marshaled-eq t (m t mem) (law.succeeds t mem)) (
          law.succeeds t mem,
          Writes-truncate buf (law.writes t mem valid'),
          law.appends t mem valid' ∙ ap (λ x. x ++ enc) (bytes-truncate mem buf),
        ))
    where
      marshaled-eq :
          (buf : Slice) (r : Slice × Option GoError × Memory) → r.1 ≡ none → marshaled buf r ≡ r
      marshaled-eq buf (b, none, mem') h = refl
      marshaled-eq buf (b, some x, mem') h = absurd (cc)
