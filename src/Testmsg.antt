-- ===== src/Testmsg.antt =====
-- internal/testmsg/testmsg.go: the messages and the service that the tests of the codecs share. An
-- int64, and an int, is its bit pattern, below 2^64. The mutex of Counter makes `inc` and `get` steps.
pub mod Gen
pub mod Service
pub mod Rpc
use bimpc.Common.{ℕ, ◌+◌, ◌%◌, ◌^◌, Option, none, some}
use bimpc.Memory.{Bytes}
use bimpc.Action.{GoError, exploded}

pub record Args : Type 0 where
  pub a : ℕ
  pub b : ℕ
  pub s : Bytes

pub record Result : Type 0 where
  pub c : ℕ
  pub s : Bytes

pub record Counter : Type 0 where
  pub n : ℕ

unfoldable pub inc : Counter → Counter
inc c = record c { n = (c.n + 1) % 2 ^ 64 }

unfoldable pub get : Counter → ℕ
get c = c.n

-- The channel Block, on which nothing is sent: it is open until it is closed.
pub data Gate : Type 0 where
  waiting closed : Gate

-- Arith. A nil channel is `none`.
pub record Arith : Type 0 where
  pub calls : Counter
  pub block : Option Gate

-- The methods get the arguments and the reply, and return the error and the reply.
unfoldable pub add : Args → Result → Arith → Option GoError × Result × Arith
unfolding inc
add args reply service = (
  none,
  record reply { c = (args.a + args.b) % 2 ^ 64; s = args.s },
  record service { calls = inc service.calls },
)

unfoldable pub explode : Args → Result → Arith → Option GoError × Result × Arith
unfolding inc
explode args reply service = (some exploded, reply, record service { calls = inc service.calls })

-- Wait once it has counted the call: `none` as long as the channel is open.
unfoldable pub wait_on : Option Gate → Args → Result → Option (Option GoError × Result)
wait_on none args reply = some (none, record reply { c = args.a })
wait_on (some waiting) args reply = none
wait_on (some closed) args reply = some (none, record reply { c = args.a })

unfoldable pub wait : Args → Result → Arith → Option (Option GoError × Result) × Arith
unfolding inc wait_on
wait args reply service =
    (wait_on service.block args reply, record service { calls = inc service.calls })
