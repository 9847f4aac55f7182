-- ===== src/Generic/Read.antt =====
-- ReadMessage: what it delivers from a well-formed input, and what it keeps on any input.
use bimpc.Common.{ℕ, ◌≤◌, length, ◌≡◌, refl, sym, ◌∙◌, none, ◌++◌}
use mathlib.Core.Path.{subst}
use bimpc.Memory.{Bytes, Slice, Owns}
use bimpc.Action.{Result, error_of}
use bimpc.Msgp.{DecoderLaws, Format}
use bimpc.Msgp.Reading.{Decoding}
use bimpc.Mpc.{Message, Request}
use bimpc.Mpc.Gen.Decode.{decode_message_lem}
use bimpc.Mpc.Gen.Frame.{decode_message-Moves}
use bimpc.Mpc.Gen.Form.{Content, received_content, message_form, IsSendable, IsWire}
use bimpc.Mpc.HandOver.{payload, payload_slice}
use bimpc.Mpc.FromWire.{delivered, from_wire_lem}
use bimpc.Mpc.Moves.{Moves}
use bimpc.Shared.{Shared, IsShared, IsOutOfReach, received_by}
use bimpc.Shared.Received.{received_by-Moves, received_by-IsOutOfReach, received_by-new}
use bimpc.Shared.Reach.{read-IsShared, read-IsOutOfReach}
use bimpc.Generic.{Connection, Codec, read_message}

module _ {C R W Obj : Type 0} (f : Format) (n : Connection C R W) (input : R → Bytes)
    (laws : DecoderLaws f n.decoder input) where
  -- ReadMessage on an input that begins with the form of a message returns no error, delivers that
  -- message, and leaves what follows.
  pub read_message_lem :
      (c₀ : Content) (rest : Bytes) (msg : Request Obj) (c : Codec C R W) (s : Shared)
      → IsSendable f c₀
      → IsShared c.wire s
      → input c.r ≡ message_form f c₀ ++ rest
      → let (e, msg', c', s') = read_message n msg c s in
        (e ≡ none) × (delivered s'.mem msg' ≡ received_content c₀) × (input c'.r ≡ rest)
  unfolding read_message
  read_message_lem c₀ rest msg c s sendable h i =
      let (_, d, e, (c', i', w)) =
        decode_message_lem f n.decoder input laws c₀ rest
          (record { z = c.wire; mem = s.mem; rd = c.r }) sendable h.wire_ok i in
      let (same, _, _) = from_wire_lem Obj d.mem d.z w in
      subst Reached (sym e) (refl, same ∙ c', i')
    where
      Reached : Result (Unit {0}) × Decoding Message R → Type 0
      Reached (res, d) =
          let (e, msg', wire', mem') = received_by msg (error_of res) d.z d.mem in
          (e ≡ none) × (delivered mem' msg' ≡ received_content c₀) × (input d.rd ≡ rest)

  -- On any input, ReadMessage writes to the buffers of its own wire message and to new arrays only.
  pub read_message-Moves :
      (msg : Request Obj) (c : Codec C R W) (s : Shared)
      → IsWire s.mem c.wire
      → let (e, msg', c', s') = read_message n msg c s in Moves s.mem c.wire s'.mem c'.wire
  unfolding read_message
  read_message-Moves msg c s w =
      received_by-Moves msg _ (
        decode_message-Moves f n.decoder input laws (record { z = c.wire; mem = s.mem; rd = c.r })
          w)

  -- The payloads that a ReadMessage without error delivers are out of reach of the codec and of the
  -- pool.
  pub read_message-IsOutOfReach :
      (msg : Request Obj) (c : Codec C R W) (s : Shared)
      → IsShared c.wire s
      → (read_message n msg c s).0 ≡ none
      → let (e, msg', c', s') = read_message n msg c s in
        IsOutOfReach (payload_slice msg'.args) (payload s'.mem msg'.args) c'.wire s'
        × IsOutOfReach (payload_slice msg'.result) (payload s'.mem msg'.result) c'.wire s'
  unfolding read_message
  read_message-IsOutOfReach msg c s h e =
      received_by-IsOutOfReach msg _ h
        (decode_message-Moves f n.decoder input laws (record { z = c.wire; mem = s.mem; rd = c.r })
          h.wire_ok)
        e

  pub read_message-new :
      (msg : Request Obj) (c : Codec C R W) (s : Shared)
      → IsWire s.mem c.wire
      → (read_message n msg c s).0 ≡ none
      → let (e, msg', c', s') = read_message n msg c s in
        ((b : ℕ) → Owns (payload_slice msg'.args) b → length s.mem ≤ b)
        × ((b : ℕ) → Owns (payload_slice msg'.result) b → length s.mem ≤ b)
  unfolding read_message
  read_message-new msg c s w =
      received_by-new msg _ (
        decode_message-Moves f n.decoder input laws (record { z = c.wire; mem = s.mem; rd = c.r })
          w)

  -- On any input, ReadMessage keeps the codec's message and the pool in order, and what was out of
  -- reach stays so.
  pub read_message-IsShared :
      (msg : Request Obj) (c : Codec C R W) (s : Shared)
      → IsShared c.wire s
      → let (e, msg', c', s') = read_message n msg c s in IsShared c'.wire s'
  unfolding read_message
  read_message-IsShared msg c s h = read-IsShared (read_message-Moves msg c s h.wire_ok) h

  pub read_message-keeps :
      (msg : Request Obj) (c : Codec C R W) (s : Shared) (t : Slice) (shown : Bytes)
      → IsShared c.wire s
      → IsOutOfReach t shown c.wire s
      → let (e, msg', c', s') = read_message n msg c s in IsOutOfReach t shown c'.wire s'
  unfolding read_message
  read_message-keeps msg c s t shown h g =
      read-IsOutOfReach (read_message-Moves msg c s h.wire_ok) g
