-- ===== src/Mpc/Appending.antt =====
-- What ToWire may do to the store, also where it fails.
use bimpc.Common.{◌≡◌, refl, inl, Option, none, some}
use bimpc.Memory.{Memory, Slice, IsValid, truncate}
use bimpc.Memory.Writes.{Writes, Writes-IsValid}
use bimpc.Action.{GoError, returned, modify}
use bimpc.Action.Rules.{Preserves, Preserves-bind}
use bimpc.Mpc.{
  Message, Value, Request, Marshaler, marshaled, marshal, Filling, fill_args, fill_result, to_wire,
}
use bimpc.Mpc.Marshal.{Writes-refl, Writes-truncate, truncate-IsValid}
use bimpc.Mpc.Gen.Form.{IsWire}
use bimpc.Mpc.Moves.{
  Moves, Moves-refl, Moves-trans, Moves-fields, Writes-args-Moves, Writes-result-Moves,
}

-- Every MarshalMsg writes to the buffer that it is given and to new arrays only.
abbrev pub Appends : {Obj : Type 0} → (Value Obj → Option Marshaler) → Type 0
Appends {Obj} as_marshaler =
    (v : Value Obj) (m : Marshaler)
    → as_marshaler v ≡ some m
    → (buf : Slice) (mem : Memory) → IsValid mem buf
    → let (b, e, mem') = m buf mem in Writes mem buf mem' b

module _ {Obj : Type 0} (as_marshaler : Value Obj → Option Marshaler)
    (appends : Appends as_marshaler) where
  marshaled-Writes :
      (buf : Slice) (mem : Memory) (r : Slice × Option GoError × Memory)
      → IsValid mem buf
      → Writes mem buf r.2 r.0
      → Writes mem buf (marshaled buf r).2 (marshaled buf r).0
  marshaled-Writes buf mem (b, none, mem') v w = w
  marshaled-Writes buf mem (b, some e, mem') v w = record {
    grows = w.grows;
    sizes = w.sizes;
    frame = w.frame;
    valid = Writes-IsValid w buf v;
    origin = λ b o. inl o;
  }

  marshal-Writes :
      (buf : Slice) (v : Option (Value Obj)) (mem : Memory)
      → IsValid mem buf
      → let (b, e, mem') = marshal as_marshaler buf v mem in Writes mem buf mem' b
  unfolding marshal
  marshal-Writes buf none mem valid = Writes-refl mem buf valid
  marshal-Writes buf (some v) mem valid = go (as_marshaler v) refl
    where
      go :
          (m : Option Marshaler)
          → as_marshaler v ≡ m
          → let (b, e, mem') = marshal as_marshaler buf (some v) mem in Writes mem buf mem' b
      go none e = rw e (Writes-refl mem buf valid)
      go (some m) e = rw e (
          Writes-truncate buf (
            marshaled-Writes (truncate buf) mem (m (truncate buf) mem)
              (truncate-IsValid mem buf valid)
              (appends v m e (truncate buf) mem (truncate-IsValid mem buf valid))))

  module _ (mem₀ : Memory) (m₀ : Message) where
    abbrev Moved : Filling → Type 0
    Moved s = Moves mem₀ m₀ s.mem s.m

    returned-Moved :
        {A : Type 0} (wrap : GoError → GoError) (e : Option GoError) (a : A) (s : Filling)
        → Moved s
        → Moved (returned wrap e a s).1
    returned-Moved wrap none a s g = g
    returned-Moved wrap (some e) a s g = g

    modify-Preserves :
        (f : Filling → Filling)
        → ((s : Filling) → (f s).mem ≡ s.mem)
        → ((s : Filling) → (f s).m.args ≡ s.m.args)
        → ((s : Filling) → (f s).m.result ≡ s.m.result)
        → Preserves Moved (modify f)
    modify-Preserves f p q r = record {
      keeps = λ s g. Moves-fields {m = m₀} {m₁ = s.m} m₀ _ refl refl (q s) (r s) (rw (p s) g);
    }

    fill_args-Preserves : (v : Option (Value Obj)) → Preserves Moved (fill_args as_marshaler v)
    unfolding fill_args
    fill_args-Preserves v = record {
      keeps = λ s g. returned-Moved _ (marshal as_marshaler s.m.args v s.mem).1 tt _ (
          Moves-trans g
            (Writes-args-Moves g.wire (marshal-Writes s.m.args v s.mem g.wire.args_valid)));
    }

    fill_result-Preserves : (v : Option (Value Obj)) → Preserves Moved (fill_result as_marshaler v)
    unfolding fill_result
    fill_result-Preserves v = record {
      keeps = λ s g. returned-Moved _ (marshal as_marshaler s.m.result v s.mem).1 tt _ (
          Moves-trans g
            (Writes-result-Moves g.wire (marshal-Writes s.m.result v s.mem g.wire.result_valid)));
    }

    to_wire-Preserves : (msg : Request Obj) → Preserves Moved (to_wire as_marshaler msg)
    unfolding to_wire
    to_wire-Preserves msg =
        Preserves-bind Moved _ _
          (modify-Preserves
            (λ s. record s { m = record s.m { id = msg.id; func = msg.func; error = none } })
            (λ _. refl) (λ _. refl) (λ _. refl))
          λ _. Preserves-bind Moved _ _ (fill_args-Preserves msg.args) λ _.
            Preserves-bind Moved _ _ (fill_result-Preserves msg.result) λ _.
              modify-Preserves (λ s. record s { m = record s.m { error = msg.error } }) (λ _. refl)
                (λ _. refl) (λ _. refl)

  -- ToWire writes to the buffers of its message and to new arrays only, also where it fails.
  pub to_wire-Moves :
      (msg : Request Obj) (s : Filling)
      → IsWire s.mem s.m
      → let s' = (to_wire as_marshaler msg s).1 in Moves s.mem s.m s'.mem s'.m
  to_wire-Moves msg s w = (to_wire-Preserves s.mem s.m msg).keeps s (Moves-refl w)
