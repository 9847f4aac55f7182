-- ===== src/Shared/Sending.antt =====
-- A write of a message of the pool: what reaches the writer, and what moves in the store.
use bimpc.Common.{ℕ, ◌≡◌, refl, sym, ap, ◌∙◌, Option, none, some, ◌++◌}
use mathlib.Core.Path.{subst}
use bimpc.Memory.{Bytes, Memory}
use bimpc.Action.{GoError, Result, ok, err, error_of, returned, continue}
use bimpc.Msgp.{Encoder, EncoderLaws, FlushLaws, Format}
use bimpc.Mpc.{Message, Request, Value, Marshaler, Filling, to_wire, get_message}
use bimpc.Mpc.Gen.{encode_message, write}
use bimpc.Mpc.Gen.Encode.{encode_message_lem}
use bimpc.Mpc.Gen.Form.{content, message_form, IsWire}
use bimpc.Mpc.ToWire.{sent, to_wire_lem}
use bimpc.Mpc.Marshal.{Encodes}
use bimpc.Mpc.Appending.{Appends, to_wire-Moves}
use bimpc.Mpc.Moves.{Moves}
use bimpc.Mpc.Pool.{get_message-IsPool}
use bimpc.Shared.{Shared, pooled, sending, sent_by, IsShared, encode_flush}

module _ {W : Type 0} (f : Format) (enc : Encoder W) (output sent_out : W → Bytes)
    (laws : EncoderLaws f enc output) (flushes : FlushLaws enc output sent_out) where
  -- Without an error, the form of the message has been handed over behind all earlier output.
  pub encode_flush_lem :
      (mem : Memory) (m : Message) (w : W)
      → error_of (encode_flush enc mem m w).0 ≡ none
      → sent_out (encode_flush enc mem m w).1 ≡ output w ++ message_form f (content mem m)
  unfolding encode_flush
  encode_flush_lem mem m w h = go (encode_message enc mem m w) refl h
    where
      flushed :
          (r : Option GoError × W) (w' : W)
          → enc.flush w' ≡ r
          → error_of (returned {S = W} (λ e. e) r.0 tt r.1).0 ≡ none
          → sent_out (returned {S = W} (λ e. e) r.0 tt r.1).1 ≡ output w'
      flushed (none, w'') w' q h' =
          rw (← ap (λ (t : Option GoError × W). t.1) q)
            (flushes.flush w' (ap (λ (t : Option GoError × W). t.0) q))
      flushed (some e, w'') w' q h' = absurd (cc)

      go :
          (r : Result (Unit {0}) × W)
          → encode_message enc mem m w ≡ r
          → error_of (continue r (λ _. write enc enc.flush (λ e. e))).0 ≡ none
          → sent_out (continue r (λ _. write enc enc.flush (λ e. e))).1
            ≡ output w ++ message_form f (content mem m)
      go (ok tt, w') q h' =
          flushed (enc.flush w') w' refl h'
          ∙ rw (← ap (λ (t : Result (Unit {0}) × W). t.1) q) (
              encode_message_lem f enc output laws mem m w
                (ap (λ (t : Result (Unit {0}) × W). t.0) q))
      go (err e, w') q h' = absurd (cc)

module _ {W Obj : Type 0} (as_marshaler : Value Obj → Option Marshaler)
    (send : Memory → Message → W → Option GoError × W) where
  -- Payloads that are absent or can be encoded: the writer gets a message with birpc's content.
  pub pooled_sending_lem :
      (pick : ℕ) (msg : Request Obj) (args result : Bytes) (w : W) (s : Shared) {wire : Message}
      → IsShared wire s
      → Encodes as_marshaler msg.args args
      → Encodes as_marshaler msg.result result
      → (P : Option GoError × W → Type 0)
      → ((mem : Memory) (m : Message) → content mem m ≡ sent msg args result → P (send mem m w))
      → P (pooled pick (sending as_marshaler msg send w) s).0
  unfolding pooled
  pooled_sending_lem pick msg args result w s h ha hr P done =
      let (clean, _, _) = get_message-IsPool s.mem pick s.pool h.pool_ok in
      let start : Filling = record { m = (get_message pick s.pool).0; mem = s.mem } in
      let (_, s', e, (same, _)) = to_wire_lem as_marshaler msg args result start clean.wire ha hr in
      subst (λ (r : Result (Unit {0}) × Filling). P (sent_by send w r).0) (sym e)
        (done s'.mem s'.m same)

  -- On every path: a message that is refused leaves the writer alone.
  pub pooled_sending-any :
      (pick : ℕ) (msg : Request Obj) (w : W) (s : Shared) (P : Option GoError × W → Type 0)
      → ((e : GoError) → P (some e, w))
      → ((mem : Memory) (m : Message) → P (send mem m w))
      → P (pooled pick (sending as_marshaler msg send w) s).0
  unfolding pooled
  pooled_sending-any pick msg w s P refused done =
      go (to_wire as_marshaler msg (record { m = (get_message pick s.pool).0; mem = s.mem }))
    where
      go : (r : Result (Unit {0}) × Filling) → P (sent_by send w r).0
      go (ok tt, s') = done s'.mem s'.m
      go (err e, s') = refused e

module _ {W Obj : Type 0} (as_marshaler : Value Obj → Option Marshaler)
    (appends : Appends as_marshaler) (send : Memory → Message → W → Option GoError × W) where
  pub sending-Moves :
      (msg : Request Obj) (w : W) (m : Message) (mem : Memory)
      → IsWire mem m
      → let (x, m', mem') = sending as_marshaler msg send w m mem in Moves mem m mem' m'
  sending-Moves msg w m mem wire =
      go _ (to_wire-Moves as_marshaler appends msg (record { m = m; mem = mem }) wire)
    where
      go :
          (r : Result (Unit {0}) × Filling)
          → Moves mem m r.1.mem r.1.m
          → let (x, m', mem') = sent_by send w r in Moves mem m mem' m'
      go (ok tt, s') v = v
      go (err x, s') v = v
