-- ===== src/Redis/Order.antt =====
-- What any ReadMessage and WriteMessage keep in order.
use bimpc.Common.{ℕ, zero, suc, ◌≡◌, refl, sym, Option, none, some}
use mathlib.Core.Path.{subst}
use mathlib.Core.Option.{some-injective}
use bimpc.Memory.{Bytes}
use bimpc.Action.{GoError, Result, ok, err}
use bimpc.Msgp.{DecoderLaws, Format}
use bimpc.Mpc.{Request, Value, Marshaler}
use bimpc.Mpc.Gen.Frame.{unmarshal_message-Moves}
use bimpc.Mpc.Appending.{Appends}
use bimpc.Shared.{Shared, IsShared}
use bimpc.Shared.Start.{new_message-IsShared}
use bimpc.Mpc.Pool.{IsPool}
use bimpc.Shared.Received.{received_by-Moves}
use bimpc.Shared.Reach.{read-IsShared, pooled-IsShared}
use bimpc.Shared.Sending.{sending-Moves}
use bimpc.Redis.{
  Client, Codec, new_codec, Published, Returned, Round, return_with, continue_with, payload_of,
  subscribed, new_subscription, setup_by, setup_subscription, subscription_for, decode_value,
  popped, round_with, read_round, after_round, read_message, send, write_message,
}

module _ {Db Sub Conn : Type 0} (n : Client Db Sub Conn) where
  subscribed-wire :
      (sub : Sub) (x : Option GoError × Db) (c : Codec Db Sub)
      → (subscribed n sub x c).1.wire ≡ c.wire
  unfolding subscribed
  subscribed-wire sub (none, db') c = refl
  subscribed-wire sub (some e, db') c = refl

  setup_by-wire : (o : Option Sub) (c : Codec Db Sub) → (setup_by n o c).1.wire ≡ c.wire
  unfolding setup_by new_subscription
  setup_by-wire (some sub) c = subscribed-wire sub _ c
  setup_by-wire none c = go (n.subscription c.db)
    where
      go : (x : Sub × Option GoError × Db) → (new_subscription n x c).1.wire ≡ c.wire
      go (sub, some e, db') = refl
      go (sub, none, db') = subscribed-wire sub _ _

  subscription_for-wire :
      (o : Option Sub) (c : Codec Db Sub) → (subscription_for n o c).1.wire ≡ c.wire
  unfolding subscription_for setup_subscription
  subscription_for-wire none c = setup_by-wire c.sub c
  subscription_for-wire (some sub) c = refl

module _ {Db Sub Conn Obj : Type 0} (f : Format) (n : Client Db Sub Conn)
    (laws : DecoderLaws f n.decoder (λ b. b)) where
  abbrev KeepsOrder : Shared → Round Db Sub Obj → Type 0
  KeepsOrder s (return_with (e, msg, c, s')) = IsShared c.wire s'
  KeepsOrder s (continue_with c) = IsShared c.wire s

  decode_value-KeepsOrder :
      (msg : Request Obj) (c : Codec Db Sub) (s : Shared) (v : Option Bytes)
      → IsShared c.wire s
      → KeepsOrder s (decode_value n msg c s v)
  unfolding decode_value
  decode_value-KeepsOrder msg c s none h = h
  decode_value-KeepsOrder msg c s (some b) h =
      read-IsShared
        (received_by-Moves msg _
          (unmarshal_message-Moves f n.decoder laws b c.wire s.mem h.wire_ok))
        h

  round_with-KeepsOrder :
      (msg : Request Obj) (s : Shared) (x : Result Sub × Codec Db Sub)
      → IsShared x.1.wire s
      → KeepsOrder s (round_with n msg s x)
  unfolding round_with popped
  round_with-KeepsOrder msg s (err e, c) h = h
  round_with-KeepsOrder msg s (ok sub, c) h = go (n.pop sub c.db)
    where
      go : (x : Published × Option GoError × Db) → KeepsOrder s (popped n msg c s x)
      go (p, some e, db') = h
      go (p, none, db') = decode_value-KeepsOrder msg (record c { db = db' }) s (payload_of p) h

  -- After any ReadMessage of the redis codec that returns, whatever it popped and however often, and
  -- also where it failed, the codec's message and the pool are in order.
  pub redis_read-IsShared :
      (fuel : ℕ) (msg msg' : Request Obj) (e : Option GoError) (c c' : Codec Db Sub) (s s' : Shared)
      → IsShared c.wire s
      → read_message n fuel msg c s ≡ some (e, msg', c', s')
      → IsShared c'.wire s'
  unfolding read_message read_round
  redis_read-IsShared zero msg msg' e c c' s s' h returns = absurd (cc)
  redis_read-IsShared (suc fuel) msg msg' e c c' s s' h returns =
      go (read_round n msg c s)
        (round_with-KeepsOrder msg s (subscription_for n c.sub c)
          (subst (λ m. IsShared m s) (sym (subscription_for-wire n c.sub c)) h))
        returns λ c₁ k q. redis_read-IsShared fuel msg msg' e c₁ c' s s' k q
    where
      go :
          (r : Round Db Sub Obj)
          → KeepsOrder s r
          → after_round n r (λ c₁. read_message n fuel msg c₁ s) ≡ some (e, msg', c', s')
          → ((c₁ : Codec Db Sub)
              → IsShared c₁.wire s
              → read_message n fuel msg c₁ s ≡ some (e, msg', c', s')
              → IsShared c'.wire s')
          → IsShared c'.wire s'
      go (return_with x) k q later =
          subst (λ (y : Returned Db Sub Obj). IsShared y.2.wire y.3) (some-injective _ _ q) k
      go (continue_with c₁) k q later = later c₁ k q

module _ {Db Sub Conn Obj : Type 0} (n : Client Db Sub Conn)
    (as_marshaler : Value Obj → Option Marshaler) (appends : Appends as_marshaler) where
  -- After any WriteMessage of the redis codec, failed ones included, the codec's message and the pool
  -- are in order.
  pub redis_write-IsShared :
      (pick : ℕ) (msg : Request Obj) (c : Codec Db Sub) (s : Shared)
      → IsShared c.wire s
      → let (e, c', s') = write_message n as_marshaler pick msg c s in IsShared c'.wire s'
  unfolding write_message
  redis_write-IsShared pick msg c s h =
      pooled-IsShared pick _
        (sending-Moves as_marshaler appends (send n c.out_channel) msg (c.db, c.buf)) c.wire s h

module _ {Db Sub Conn : Type 0} (n : Client Db Sub Conn) where
  -- From NewCodec on the codec is in order, with any pool that is.
  pub new_codec-IsShared :
      (db : Db) (subscribe publish : Bytes) (s : Shared)
      → IsPool s.mem s.pool
      → IsShared (new_codec n db subscribe publish).wire s
  unfolding new_codec
  new_codec-IsShared db subscribe publish s h = new_message-IsShared s h
