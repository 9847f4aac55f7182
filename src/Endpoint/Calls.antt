-- ===== src/Endpoint/Calls.antt =====
-- What any sequence of calls keeps, from the laws of the codec.
use bimpc.Common.{◌≡◌, ◌∙◌, none, List, [], ◌∷◌}
use bimpc.Memory.{Bytes, Slice}
use bimpc.Mpc.{Request}
use bimpc.Mpc.HandOver.{payload}
use bimpc.Mpc.FromWire.{payload-bytes}
use bimpc.Shared.{Shared, IsShared, IsOutOfReach}
use bimpc.Endpoint.{BirpcCodec, BirpcCodecLaws, Call, read, write, call, calls}

module _ {K Obj : Type 0} (b : BirpcCodec K Obj) (laws : BirpcCodecLaws b) where
  call-IsShared :
      (x : Call Obj) (c : K) (s : Shared)
      → IsShared (b.wire c) s
      → let (c', s') = call b x c s in IsShared (b.wire c') s'
  unfolding call
  call-IsShared (read into) c s h = laws.read_ok into c s h
  call-IsShared (write pick msg) c s h = laws.write_ok pick msg c s h

  call-IsOutOfReach :
      (x : Call Obj) (c : K) (s : Shared) (t : Slice) (shown : Bytes)
      → IsShared (b.wire c) s
      → IsOutOfReach t shown (b.wire c) s
      → let (c', s') = call b x c s in IsOutOfReach t shown (b.wire c') s'
  unfolding call
  call-IsOutOfReach (read into) c s t shown h g = laws.read_keeps into c s t shown h g
  call-IsOutOfReach (write pick msg) c s t shown h g = laws.write_keeps pick msg c s t shown h g

  pub calls_keep_order :
      (xs : List (Call Obj)) (c : K) (s : Shared)
      → IsShared (b.wire c) s
      → let (c', s') = calls b xs c s in IsShared (b.wire c') s'
  unfolding calls
  calls_keep_order [] c s h = h
  calls_keep_order (x ∷ xs) c s h =
      let (c', s') = call b x c s in calls_keep_order xs c' s' (call-IsShared x c s h)

  calls-IsOutOfReach :
      (xs : List (Call Obj)) (c : K) (s : Shared) (t : Slice) (shown : Bytes)
      → IsShared (b.wire c) s
      → IsOutOfReach t shown (b.wire c) s
      → let (c', s') = calls b xs c s in IsOutOfReach t shown (b.wire c') s'
  unfolding calls
  calls-IsOutOfReach [] c s t shown h g = g
  calls-IsOutOfReach (x ∷ xs) c s t shown h g =
      let (c', s') = call b x c s in
      calls-IsOutOfReach xs c' s' t shown (call-IsShared x c s h)
        (call-IsOutOfReach x c s t shown h g)

  pub delivered_for_good :
      (into : Request Obj) (xs : List (Call Obj)) (c : K) (s : Shared)
      → IsShared (b.wire c) s
      → (b.read_message into c s).0 ≡ none
      → let (e, msg, c', s') = b.read_message into c s in
        let (c'', s'') = calls b xs c' s' in
        (payload s''.mem msg.args ≡ payload s'.mem msg.args)
        × (payload s''.mem msg.result ≡ payload s'.mem msg.result)
  delivered_for_good into xs c s h done =
      let (ga, gr) = laws.read_delivers into c s h done in
      let (e, msg, c', s') = b.read_message into c s in
      let h' = laws.read_ok into c s h in
      let a = (calls-IsOutOfReach xs c' s' _ _ h' ga).from_codec.same in
      let r = (calls-IsOutOfReach xs c' s' _ _ h' gr).from_codec.same in
      (payload-bytes _ msg.args ∙ a, payload-bytes _ msg.result ∙ r)
