-- ===== src/Redis/Protocol/Kept.antt =====
-- ReadMessage and Close make the calls that are due, whatever these return.
use bimpc.Common.{◌≡◌, Option, none, some, List, [], ◌∷◌}
use bimpc.Memory.{Bytes}
use bimpc.Action.{Result, ok, err}
use bimpc.Mpc.{Request}
use bimpc.Shared.{Shared}
use bimpc.Redis.{Client, Codec, Round, return_with, continue_with, read_round, close}
use bimpc.Redis.Protocol.{Event, Use, unused, listening, Used}

abbrev pub use_of : {Sub : Type 0} → Bytes → Option Sub → Use Sub
use_of channel none = unused
use_of channel (some sub) = listening channel sub

-- The calls so far were due, and the codec's subscription is what they have led to.
abbrev pub IsOrderly : {Db Sub : Type 0} → Codec (Db × List (Event Sub)) Sub → Type 0
IsOrderly c = Used c.db.1 (use_of c.in_channel c.sub)

module _ {Db Sub : Type 0} where
  -- After the head of the loop.
  abbrev IsReady : Result Sub × Codec (Db × List (Event Sub)) Sub → Type 0
  IsReady (ok sub, c) = (c.sub ≡ some sub) × Used c.db.1 (listening c.in_channel sub)
  IsReady (err e, c) = IsOrderly c

  module _ {Obj : Type 0} where
    abbrev IsOrderlyRound : Round (Db × List (Event Sub)) Sub Obj → Type 0
    IsOrderlyRound (return_with (e, msg, c, s)) = IsOrderly c
    IsOrderlyRound (continue_with c) = IsOrderly c

-- A round of ReadMessage, which may return or go on, or a Close.
pub data Call (Obj : Type 0) : Type 0 where
  rounds : Request Obj → Call Obj
  closes : Call Obj

abbrev pub after_round_of :
    {Db Sub Obj : Type 0} → Shared → Round Db Sub Obj → Codec Db Sub × Shared
after_round_of s (return_with (e, msg, c, s')) = (c, s')
after_round_of s (continue_with c) = (c, s)

module _ {Db Sub Conn Obj : Type 0} (n : Client Db Sub Conn) where
  abbrev pub after_call : Call Obj → Codec Db Sub → Shared → Codec Db Sub × Shared
  after_call (rounds msg) c s = after_round_of s (read_round n msg c s)
  after_call closes c s = ((close n c).1, s)

  abbrev pub after_calls : List (Call Obj) → Codec Db Sub → Shared → Codec Db Sub × Shared
  after_calls [] c s = (c, s)
  after_calls (x ∷ xs) c s = let (c', s') = after_call x c s in after_calls xs c' s'
