-- ===== src/Shared/Start.antt =====
-- The wire message of a codec that NewCodec has made.
use bimpc.Mpc.{new_message}
use bimpc.Mpc.Pool.{IsPool, new_message-IsClean, new_message-Disjoint}
use bimpc.Shared.{Shared, IsShared}

-- With any pool that is in order.
pub new_message-IsShared : (s : Shared) → IsPool s.mem s.pool → IsShared new_message s
new_message-IsShared s h = record {
  wire_ok = (new_message-IsClean s.mem).wire;
  pool_ok = h;
  apart = new_message-Disjoint s.pool;
}
