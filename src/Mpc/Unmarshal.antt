-- ===== src/Mpc/Unmarshal.antt =====
-- Unmarshal on the payloads that FromWire delivers.
use bimpc.Msgp.{received}
use bimpc.Common.{
  ℕ, ◌∷◌, false, ◌≡◌, refl, ap, ◌∙◌, Option, none, some, ◌==◌, if◌then◌else◌, length, arith,
}
use bimpc.Memory.{Bytes, Memory, bytes, IsValid}
use bimpc.Memory.Frame.{length-bytes}
use bimpc.Action.{GoError}
use bimpc.Mpc.{Message, Value, raw, obj, Unmarshaler, unmarshal_by, unmarshal, from_wire}
use bimpc.Mpc.HandOver.{payload, payload_slice, IsRaw}
use bimpc.Mpc.FromWire.{from_wire_lem, from_wire-IsRaw}
use bimpc.Mpc.Gen.Form.{IsWire, Content}

-- What UnmarshalMsg gets to see: nothing of an empty payload, and the bytes of any other.
abbrev pub decoded : {T : Type 0} → Unmarshaler T → Bytes → T → Option GoError × T
decoded u p ret = if length p == 0 then (none, ret) else u p ret

-- A payload of two bytes or more is no nil, and is passed on.
pub decoded-received :
    {T : Type 0} (u : Unmarshaler T) (c c' : ℕ) (p : Bytes) (ret : T)
    → decoded u (received (c ∷ c' ∷ p)) ret ≡ u (c ∷ c' ∷ p) ret
decoded-received u c c' p ret = rw no_zero
  where
    no_zero : (length (c ∷ c' ∷ p) == 0) ≡ false
    no_zero = ground arith

module _ {Obj T : Type 0} where
  pub unmarshal_by-payload :
      (u : Unmarshaler T) (mem : Memory) (v : Option (Value Obj)) (ret : T)
      → IsRaw v
      → IsValid mem (payload_slice v)
      → unmarshal_by u mem v ret ≡ decoded u (payload mem v) ret
  unmarshal_by-payload u mem none ret r h = refl
  unmarshal_by-payload u mem (some (raw s)) ret r h = rw (length-bytes mem s h)
  unmarshal_by-payload u mem (some (obj x)) ret r h = absurd r

module _ {T : Type 0} (Obj : Type 0) (mem : Memory) (m : Message) (w : IsWire mem m) where
  -- Unmarshal on the arguments and on the result that FromWire delivered runs UnmarshalMsg of the
  -- target's type on the bytes of the wire message; an empty payload leaves the target alone.
  pub from_wire-unmarshal :
      (u : Unmarshaler T) (ret : T)
      → let (msg, m', mem') = from_wire {Obj = Obj} m mem in
        (unmarshal (some u) mem' msg.args ret ≡ decoded u (bytes mem m.args) ret)
        × (unmarshal (some u) mem' msg.result ret ≡ decoded u (bytes mem m.result) ret)
  unfolding unmarshal
  from_wire-unmarshal u ret =
      let (same, _, _) = from_wire_lem Obj mem m w in
      let (ra, rr, va, vr) = from_wire-IsRaw Obj mem m w in
      (
        unmarshal_by-payload u _ _ ret ra va ∙ ap (λ (x : Content). decoded u x.args ret) same,
        unmarshal_by-payload u _ _ ret rr vr ∙ ap (λ (x : Content). decoded u x.result ret) same,
      )
