-- ===== src/Chat.antt =====
-- examples/chat/main.go: the messages of the chat.
pub mod Gen
pub mod Server
pub mod Delivery
pub mod Main
use bimpc.Common.{ℕ}
use bimpc.Memory.{Bytes}

pub record Incoming : Type 0 where
  pub from : Bytes
  pub message : Bytes

-- The time is a uint32.
pub record Outgoing : Type 0 where
  pub time : ℕ
  pub from : Bytes
  pub message : Bytes

pub data Nothing : Type 0 where
  nothing : Nothing
