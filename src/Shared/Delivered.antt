-- ===== src/Shared/Delivered.antt =====
-- The payloads of a message that ReadMessage has delivered.
use bimpc.Common.{◌≡◌, Option, none, some}
use bimpc.Memory.{Memory, IsValid}
use bimpc.Action.{GoError}
use bimpc.Mpc.{Message, Request}
use bimpc.Mpc.Gen.Form.{IsWire}
use bimpc.Mpc.HandOver.{IsRaw, payload_slice}
use bimpc.Mpc.FromWire.{from_wire-IsRaw}
use bimpc.Shared.{received_by}

module _ {Obj : Type 0} where
  -- The payloads are absent or lie in the store.
  abbrev pub IsDelivered : Request Obj → Memory → Type 0
  IsDelivered msg mem =
      IsRaw msg.args
      × IsRaw msg.result
      × IsValid mem (payload_slice msg.args)
      × IsValid mem (payload_slice msg.result)

  pub received_by-IsDelivered :
      (msg : Request Obj) (e : Option GoError) (m : Message) (mem : Memory)
      → IsWire mem m
      → let (e', msg', m', mem') = received_by msg e m mem in e' ≡ none → IsDelivered msg' mem'
  received_by-IsDelivered msg none m mem w done = from_wire-IsRaw Obj mem m w
  received_by-IsDelivered msg (some e) m mem w done = absurd (cc)
