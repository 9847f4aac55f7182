-- ===== src/Shared/Reach.antt =====
-- A codec that works on its own message, or on one of the pool, keeps all in order, and what was out of
-- reach stays so.
use bimpc.Common.{ℕ}
use bimpc.Memory.{Bytes, Memory, Slice}
use bimpc.Mpc.{Message, new_message, get_message}
use bimpc.Mpc.Gen.Form.{IsWire}
use bimpc.Mpc.Pool.{get_message-IsPool, get_message-All, new_message-Holds, put_message-IsPool}
use bimpc.Mpc.Moves.{
  Disjoint, Disjoint-sym, IsGuarded, Moves, Moves-IsWire, Moves-IsGuarded, Moves-Disjoint,
}
use bimpc.Shared.{Shared, pooled, IsShared, IsOutOfReach}
use bimpc.Shared.Keep.{
  Moves-IsPool, Moves-All, Moves-IsGuarded_other, Moves-All-IsGuarded, put_message-Disjoint,
  put_message-IsGuarded,
}

module _ {s : Shared} {wire wire' : Message} {mem' : Memory} (v : Moves s.mem wire mem' wire') where
  -- A read: the codec's own message moves.
  pub read-IsShared : IsShared wire s → IsShared wire' (record s { mem = mem' })
  read-IsShared h = record {
    wire_ok = v.wire;
    pool_ok = Moves-IsPool v s.pool h.apart h.pool_ok;
    apart = Moves-All v s.pool h.pool_ok h.apart;
  }

  pub read-IsOutOfReach :
      {t : Slice} {shown : Bytes}
      → IsOutOfReach t shown wire s
      → IsOutOfReach t shown wire' (record s { mem = mem' })
  read-IsOutOfReach g = record {
    from_codec = Moves-IsGuarded v g.from_codec;
    from_pool = Moves-All-IsGuarded v s.pool g.from_codec g.from_pool;
  }

module _ {X : Type 0} (pick : ℕ) (body : Message → Memory → X × Message × Memory)
    (moves : (m : Message) (mem : Memory)
      → IsWire mem m
      → let (x, m', mem') = body m mem in Moves mem m mem' m')
    (wire : Message) (s : Shared) (h : IsShared wire s) where
  -- A write: a message is taken out of the pool, moves, and goes back.
  pub pooled-IsShared : IsShared wire (pooled pick body s).1
  unfolding pooled
  pooled-IsShared =
      let (clean, others, rest_ok) = get_message-IsPool s.mem pick s.pool h.pool_ok in
      let (d, rest_apart) =
        get_message-All (Disjoint wire) pick s.pool (λ b o o'. new_message-Holds b o') h.apart in
      let (m, rest) = get_message pick s.pool in
      let v = moves m s.mem clean.wire in
      let (x, m', mem') = body m s.mem in
      let d' : Disjoint m' wire = Moves-Disjoint v wire h.wire_ok (Disjoint-sym wire m d) in
      record {
        wire_ok = Moves-IsWire v wire h.wire_ok;
        pool_ok =
            put_message-IsPool mem' m' rest v.wire (Moves-All v rest rest_ok others)
              (Moves-IsPool v rest others rest_ok);
        apart = put_message-Disjoint mem' m' wire rest (Disjoint-sym m' wire d') rest_apart;
      }

  pub pooled-IsOutOfReach :
      (t : Slice) (shown : Bytes)
      → IsOutOfReach t shown wire s
      → IsOutOfReach t shown wire (pooled pick body s).1
  unfolding pooled
  pooled-IsOutOfReach t shown g =
      let (clean, others, rest_ok) = get_message-IsPool s.mem pick s.pool h.pool_ok in
      let (gm, g_rest) =
        get_message-All (IsGuarded t shown s.mem) pick s.pool unreached g.from_pool in
      let (m, rest) = get_message pick s.pool in
      let v = moves m s.mem clean.wire in
      let (x, m', mem') = body m s.mem in
      record {
        from_codec = Moves-IsGuarded_other v wire gm g.from_codec;
        from_pool =
            put_message-IsGuarded mem' m' rest (Moves-IsGuarded v gm)
              (Moves-All-IsGuarded v rest gm g_rest);
      }
    where
      unreached : IsGuarded t shown s.mem new_message
      unreached = record {
        valid = g.from_codec.valid;
        same = g.from_codec.same;
        apart = λ b o. new_message-Holds b;
      }
