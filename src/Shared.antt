-- ===== src/Shared.antt =====
-- What the codecs share: the store, and the pool `messages` of mpc/mpc.go, a variable of its package.
pub mod Keep
pub mod Reach
pub mod Received
pub mod Start
pub mod Delivered
pub mod Sending
pub mod Flush
pub mod Flight
pub mod Beyond
pub mod Letter
use bimpc.Common.{All}
use bimpc.Common.{ℕ, Option, none, some}
use bimpc.Action.{GoError, Result, ok, err, Action, ◌>>=◌, ◌>>◌}
use bimpc.Msgp.{Encoder}
use bimpc.Mpc.Gen.{encode_message, write}
use bimpc.Memory.{Bytes, Memory, Slice}
use bimpc.Mpc.{
  Message, Pool, get_message, put_message, Value, Request, Marshaler, Filling, to_wire, from_wire,
}
use bimpc.Mpc.Gen.Form.{IsWire}
use bimpc.Mpc.Pool.{IsPool}
use bimpc.Mpc.Moves.{Disjoint, IsGuarded}

pub record Shared : Type 0 where
  pub mem : Memory
  pub pool : Pool

-- `m := mpc.GetMessage(); defer mpc.PutMessage(m)` around a body: whichever way the body returns, the
-- message goes back.
unfoldable pub pooled :
    {X : Type 0} → ℕ → (Message → Memory → X × Message × Memory) → Shared → X × Shared
pooled pick body s =
    let (m, rest) = get_message pick s.pool in
    let (x, m', mem') = body m s.mem in (x, record { mem = mem'; pool = put_message mem' m' rest })

-- The codec's message `wire` and those of the pool are in order, and no two hold the same array.
pub record IsShared (wire : Message) (s : Shared) : Type 0 where
  pub wire_ok : IsWire s.mem wire
  pub pool_ok : IsPool s.mem s.pool
  pub apart : All (Disjoint wire) s.pool

-- The slice `t` shows `shown`, and neither the codec nor the pool holds its array.
pub record IsOutOfReach (t : Slice) (shown : Bytes) (wire : Message) (s : Shared) : Type 0 where
  pub from_codec : IsGuarded t shown s.mem wire
  pub from_pool : All (IsGuarded t shown s.mem) s.pool

-- `if err := mpc.ToWire(m, msg); err != nil { return err }`, and then what the codec does with the
-- filled message and its writer, as the body of `pooled`.
abbrev pub sent_by :
    {W : Type 0}
    → (Memory → Message → W → Option GoError × W)
    → W
    → Result (Unit {0}) × Filling
    → (Option GoError × W) × Message × Memory
sent_by send w (err e, s) = ((some e, w), s.m, s.mem)
sent_by send w (ok _, s) = (send s.mem s.m w, s.m, s.mem)

-- `m.EncodeMsg(c.w)`, and `c.w.Flush()` unless that failed
unfoldable pub encode_flush : {W : Type 0} → Encoder W → Memory → Message → Action W (Unit {0})
encode_flush e mem m = do encode_message e mem m; write e e.flush (λ x. x)

module _ {Obj : Type 0} (as_marshaler : Value Obj → Option Marshaler) where
  abbrev pub sending :
      {W : Type 0}
      → Request Obj
      → (Memory → Message → W → Option GoError × W)
      → W
      → Message
      → Memory
      → (Option GoError × W) × Message × Memory
  sending msg send w m mem = sent_by send w (to_wire as_marshaler msg (record { m = m; mem = mem }))

module _ {Obj : Type 0} where
  -- What ReadMessage returns once the wire message is decoded or has failed to: the error, birpc's
  -- message, the codec's message, and the store. After an error birpc's message is as it was.
  abbrev pub received_by :
      Request Obj
      → Option GoError
      → Message
      → Memory
      → Option GoError × Request Obj × Message × Memory
  received_by msg none wire mem =
      let (msg', wire', mem') = from_wire wire mem in (none, msg', wire', mem')
  received_by msg (some e) wire mem = (some e, msg, wire, mem)
