-- ===== src/Msgp/Reading.antt =====
-- The steps of a generated decoder: a read, the error that it may leave, and the field it sets.
use Prim.Native.String.{String}
use bimpc.Common.{Bool, Option, List}
use bimpc.Memory.{Memory, Slice}
use bimpc.Action.{GoError, Action, ok, returned}
use bimpc.Msgp.{Decoder}

-- What a decoder changes: the value `z` it decodes into, the store, and what is left to read.
pub record Decoding (Z R : Type 0) : Type 0 where
  pub z : Z
  pub mem : Memory
  pub rd : R

module _ {Z R : Type 0} (d : Decoder R) where
  -- `v, err = op(); if err != nil { err = msgp.WrapError(err, ctx...); return }`
  abbrev pub read_value :
      {A : Type 0} → (R → A × Option GoError × R) → List String → Action (Decoding Z R) A
  read_value op ctx s =
      let (a, e, rd') = op s.rd in returned (d.wrap_error ctx) e a (record s { rd = rd' })

  -- The same into a field of `z`, which is set also where the read fails.
  abbrev pub read_field :
      {A : Type 0}
      → (R → A × Option GoError × R)
      → (A → Z → Z)
      → List String
      → Action (Decoding Z R) (Unit {0})
  read_field op set_field ctx s =
      let (a, e, rd') = op s.rd in
      returned (d.wrap_error ctx) e tt (record s { z = set_field a s.z; rd = rd' })

  -- A msgp.Raw field decodes into the buffer that it has.
  abbrev pub read_raw_field :
      (Z → Slice) → (Slice → Z → Z) → List String → Action (Decoding Z R) (Unit {0})
  read_raw_field get_field set_field ctx s =
      let (r, e, mem', rd') = d.read_raw (get_field s.z) s.mem s.rd in
      returned (d.wrap_error ctx) e tt (record s { z = set_field r s.z; mem = mem'; rd = rd' })

  abbrev pub peek_nil : Action (Decoding Z R) Bool
  peek_nil s = let (b, rd') = d.is_nil s.rd in (ok b, record s { rd = rd' })

  abbrev pub skip_nil : (GoError → GoError) → Action (Decoding Z R) (Unit {0})
  skip_nil wrap s = let (e, rd') = d.read_nil s.rd in returned wrap e tt (record s { rd = rd' })

abbrev pub set_value : {Z R : Type 0} → (Z → Z) → Action (Decoding Z R) (Unit {0})
set_value f s = (ok tt, record s { z = f s.z })
