-- ===== src/Endpoint.antt =====
-- A codec as birpc uses it, through the interface birpc.Codec: reads and writes in any order, on any
-- input and of any messages. The codecs of generic, websocket and redis fill the laws in.
pub mod Calls
use bimpc.Common.{ℕ, ◌≡◌, Option, none, List, [], ◌∷◌}
use bimpc.Memory.{Bytes, Slice}
use bimpc.Action.{GoError}
use bimpc.Mpc.{Message, Request}
use bimpc.Mpc.HandOver.{payload, payload_slice}
use bimpc.Shared.{Shared, IsShared, IsOutOfReach}

-- ReadMessage and WriteMessage of a codec in state `K`, and the wire message that it decodes into.
pub record BirpcCodec (K Obj : Type 0) : Type 0 where
  pub wire : K → Message
  pub read_message : Request Obj → K → Shared → Option GoError × Request Obj × K × Shared
  pub write_message : ℕ → Request Obj → K → Shared → Option GoError × K × Shared

-- The codec's message and the pool stay in order, what was out of reach stays so, and what a read
-- without error delivers is out of reach.
pub record BirpcCodecLaws {K Obj : Type 0} (b : BirpcCodec K Obj) : Type 0 where
  pub read_ok :
      (msg : Request Obj) (c : K) (s : Shared)
      → IsShared (b.wire c) s
      → let (e, msg', c', s') = b.read_message msg c s in IsShared (b.wire c') s'
  pub read_keeps :
      (msg : Request Obj) (c : K) (s : Shared) (t : Slice) (shown : Bytes)
      → IsShared (b.wire c) s
      → IsOutOfReach t shown (b.wire c) s
      → let (e, msg', c', s') = b.read_message msg c s in IsOutOfReach t shown (b.wire c') s'
  pub read_delivers :
      (msg : Request Obj) (c : K) (s : Shared)
      → IsShared (b.wire c) s
      → (b.read_message msg c s).0 ≡ none
      → let (e, msg', c', s') = b.read_message msg c s in
        IsOutOfReach (payload_slice msg'.args) (payload s'.mem msg'.args) (b.wire c') s'
        × IsOutOfReach (payload_slice msg'.result) (payload s'.mem msg'.result) (b.wire c') s'
  pub write_ok :
      (pick : ℕ) (msg : Request Obj) (c : K) (s : Shared)
      → IsShared (b.wire c) s
      → let (e, c', s') = b.write_message pick msg c s in IsShared (b.wire c') s'
  pub write_keeps :
      (pick : ℕ) (msg : Request Obj) (c : K) (s : Shared) (t : Slice) (shown : Bytes)
      → IsShared (b.wire c) s
      → IsOutOfReach t shown (b.wire c) s
      → let (e, c', s') = b.write_message pick msg c s in IsOutOfReach t shown (b.wire c') s'

-- A call of a method by birpc: a read into a message, or a write of one, with the message that the
-- pool chooses.
pub data Call (Obj : Type 0) : Type 0 where
  read : Request Obj → Call Obj
  write : ℕ → Request Obj → Call Obj

module _ {K Obj : Type 0} (b : BirpcCodec K Obj) where
  unfoldable pub call : Call Obj → K → Shared → K × Shared
  call (read into) c s = let (_, _, c', s') = b.read_message into c s in (c', s')
  call (write pick msg) c s = let (_, c', s') = b.write_message pick msg c s in (c', s')

  -- Errors do not end the sequence.
  unfoldable pub calls : List (Call Obj) → K → Shared → K × Shared
  unfolding call
  calls [] c s = (c, s)
  calls (x ∷ xs) c s = let (c', s') = call x c s in calls xs c' s'
