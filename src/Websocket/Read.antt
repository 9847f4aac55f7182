-- ===== src/Websocket/Read.antt =====
-- ReadMessage: what it delivers from a frame, and what it keeps on any input.
use bimpc.Common.{
  ◌≡◌, ◌≢◌, refl, sym, ◌∙◌, inl, inr, ℕ, ◌==◌, Option, none, some, List, ◌∷◌, ◌++◌, true, false,
  Bool-cases, arith,
}
use mathlib.Core.Path.{subst}
use bimpc.Memory.{Bytes, Slice}
use bimpc.Action.{GoError, Result, error_of, invalid_msg}
use bimpc.Msgp.{DecoderLaws, Format}
use bimpc.Msgp.Reading.{Decoding}
use bimpc.Mpc.{Message, Request}
use bimpc.Mpc.Gen.Decode.{decode_message_lem}
use bimpc.Mpc.Gen.Frame.{decode_message-Moves}
use bimpc.Mpc.Gen.Form.{Content, received_content, message_form, IsSendable, IsWire}
use bimpc.Mpc.HandOver.{payload, payload_slice}
use bimpc.Mpc.FromWire.{delivered, from_wire_lem}
use bimpc.Mpc.Moves.{Moves}
use bimpc.Shared.{Shared, IsShared, IsOutOfReach, received_by}
use bimpc.Shared.Received.{received_by-Moves, received_by-IsOutOfReach}
use bimpc.Shared.Reach.{read-IsShared, read-IsOutOfReach}
use bimpc.Websocket.{Socket, Codec, read_frame, read_next, read_message}

module _ {Ws Src Dst R W : Type 0} (n : Socket Ws Src Dst R W) where
  -- NextReader returns the type of the next frame, and a reader that, once the msgp.Reader is reset to
  -- it, reads that frame from its first byte, whatever the msgp.Reader had left.
  pub record FrameReading (input : Ws × R → Bytes) (frames : Ws → List (ℕ × Bytes)) : Type 0 where
    pub next :
        (ws : Ws) (mt : ℕ) (b : Bytes) (rest : List (ℕ × Bytes))
        → frames ws ≡ (mt, b) ∷ rest
        → (src : Src) × (ws' : Ws) × (n.next_reader ws ≡ (mt, src, none, ws'))
          × ((r : R) → input (ws', n.reset_reader src r) ≡ b)

module _ {Ws Src Dst R W Obj : Type 0} (f : Format) (n : Socket Ws Src Dst R W)
    (input : Ws × R → Bytes) (laws : DecoderLaws f n.decoder input) where
  read_frame_lem :
      (c₀ : Content) (rest : Bytes) (src : Src) (msg : Request Obj) (c : Codec Ws R W) (s : Shared)
      → IsSendable f c₀
      → IsWire s.mem c.wire
      → input (c.ws, n.reset_reader src c.r) ≡ message_form f c₀ ++ rest
      → let (e, msg', c', s') = read_frame n msg c src s in
        (e ≡ none) × (delivered s'.mem msg' ≡ received_content c₀)
  unfolding read_frame
  read_frame_lem c₀ rest src msg c s sendable w i =
      let (_, d, e, (c', i', w')) =
        decode_message_lem f n.decoder input laws c₀ rest
          (record { z = c.wire; mem = s.mem; rd = (c.ws, n.reset_reader src c.r) }) sendable w i in
      let (same, _, _) = from_wire_lem Obj d.mem d.z w' in subst Reached (sym e) (refl, same ∙ c')
    where
      Reached : Result (Unit {0}) × Decoding Message (Ws × R) → Type 0
      Reached (res, d) =
          let (e, msg', wire', mem') = received_by msg (error_of res) d.z d.mem in
          (e ≡ none) × (delivered mem' msg' ≡ received_content c₀)

  -- ReadMessage on a binary frame that begins with the form of a message returns no error and delivers
  -- that message, whatever the reader has kept of earlier frames and whatever follows in the frame.
  pub binary_frame_lem :
      (frames : Ws → List (ℕ × Bytes))
      → FrameReading n input frames
      → (c₀ : Content) (behind : Bytes) (later : List (ℕ × Bytes)) (msg : Request Obj)
        (c : Codec Ws R W) (s : Shared)
      → IsSendable f c₀
      → IsShared c.wire s
      → frames c.ws ≡ (n.binary_message, message_form f c₀ ++ behind) ∷ later
      → let (e, msg', c', s') = read_message n msg c s in
        (e ≡ none) × (delivered s'.mem msg' ≡ received_content c₀)
  unfolding read_message read_next
  binary_frame_lem frames reading c₀ behind later msg c s sendable h next =
      let (src, ws', e, i) = reading.next c.ws n.binary_message _ later next in
      subst Read (sym e) (
        rw (same_type n.binary_message)
          (read_frame_lem c₀ behind src msg (record c { ws = ws' }) s sendable h.wire_ok (i c.r)))
    where
      same_type : (k : ℕ) → (k == k) ≡ true
      same_type k = ground arith

      Read : ℕ × Src × Option GoError × Ws → Type 0
      Read x =
          let (e, msg', c', s') = read_next n msg c s x in
          (e ≡ none) × (delivered s'.mem msg' ≡ received_content c₀)

  -- A frame of any other type: ReadMessage returns ErrInvalidMsg and has only moved on to that frame.
  -- Birpc's message, the codec's message and buffers, the store and the pool are as they were.
  pub other_frame_lem :
      (frames : Ws → List (ℕ × Bytes))
      → FrameReading n input frames
      → (mt : ℕ) (b : Bytes) (later : List (ℕ × Bytes)) (msg : Request Obj) (c : Codec Ws R W)
        (s : Shared)
      → mt ≢ n.binary_message
      → frames c.ws ≡ (mt, b) ∷ later
      → let (e, msg', c', s') = read_message n msg c s in
        (e ≡ some invalid_msg)
        × (msg' ≡ msg)
        × (c' ≡ record c { ws = (n.next_reader c.ws).3 })
        × (s' ≡ s)
  unfolding read_message read_next
  other_frame_lem frames reading mt b later msg c s other next =
      let (src, ws', e, i) = reading.next c.ws mt b later next in
      subst Left (sym e) (rw other_type (refl, refl, refl, refl))
    where
      other_type : (mt == n.binary_message) ≡ false
      other_type = ground arith

      Left : ℕ × Src × Option GoError × Ws → Type 0
      Left x =
          let (e, msg', c', s') = read_next n msg c s x in
          (e ≡ some invalid_msg) × (msg' ≡ msg) × (c' ≡ record c { ws = x.3 }) × (s' ≡ s)

  -- ReadMessage fails before it decodes, or decodes a frame.
  pub read_message-any :
      (msg : Request Obj) (c : Codec Ws R W) (s : Shared)
      → (P : Option GoError × Request Obj × Codec Ws R W × Shared → Type 0)
      → ((e : GoError) (ws' : Ws) → P (some e, msg, record c { ws = ws' }, s))
      → ((ws' : Ws) (src : Src) → P (read_frame n msg (record c { ws = ws' }) src s))
      → P (read_message n msg c s)
  unfolding read_message read_next
  read_message-any msg c s P failed read = go (n.next_reader c.ws)
    where
      go : (x : ℕ × Src × Option GoError × Ws) → P (read_next n msg c s x)
      go (mt, src, some e, ws') = failed e ws'
      go (mt, src, none, ws') = elim (Bool-cases (mt == n.binary_message)) [
        | inl binary ↦ rw binary (read ws' src)
        | inr not_binary ↦ rw not_binary (failed invalid_msg ws')
      ]

  -- On any input, decoding a frame writes to the buffers of the codec's message and to new arrays only.
  read_frame-Moves :
      (msg : Request Obj) (c : Codec Ws R W) (src : Src) (s : Shared)
      → IsWire s.mem c.wire
      → let (e, msg', c', s') = read_frame n msg c src s in Moves s.mem c.wire s'.mem c'.wire
  unfolding read_frame
  read_frame-Moves msg c src s w =
      received_by-Moves msg _ (decode_message-Moves f n.decoder input laws _ w)

  pub read_message-IsOutOfReach :
      (msg : Request Obj) (c : Codec Ws R W) (s : Shared)
      → IsShared c.wire s
      → (read_message n msg c s).0 ≡ none
      → let (e, msg', c', s') = read_message n msg c s in
        IsOutOfReach (payload_slice msg'.args) (payload s'.mem msg'.args) c'.wire s'
        × IsOutOfReach (payload_slice msg'.result) (payload s'.mem msg'.result) c'.wire s'
  unfolding read_frame
  read_message-IsOutOfReach msg c s h =
      read_message-any msg c s
        (λ x.
          let (e, msg', c', s') = x in
          e ≡ none
          → IsOutOfReach (payload_slice msg'.args) (payload s'.mem msg'.args) c'.wire s'
            × IsOutOfReach (payload_slice msg'.result) (payload s'.mem msg'.result) c'.wire s')
        (λ e ws' done. absurd (cc))
        λ ws' src.
          received_by-IsOutOfReach msg _ h (decode_message-Moves f n.decoder input laws _ h.wire_ok)

  -- On any input, ReadMessage keeps the codec's message and the pool in order, and what was out of
  -- reach stays so.
  pub read_message-IsShared :
      (msg : Request Obj) (c : Codec Ws R W) (s : Shared)
      → IsShared c.wire s
      → let (e, msg', c', s') = read_message n msg c s in IsShared c'.wire s'
  unfolding read_frame
  read_message-IsShared msg c s h =
      read_message-any msg c s (λ x. let (e, msg', c', s') = x in IsShared c'.wire s') (λ e ws'. h)
        λ ws' src. read-IsShared (read_frame-Moves msg (record c { ws = ws' }) src s h.wire_ok) h

  pub read_message-keeps :
      (msg : Request Obj) (c : Codec Ws R W) (s : Shared) (t : Slice) (shown : Bytes)
      → IsShared c.wire s
      → IsOutOfReach t shown c.wire s
      → let (e, msg', c', s') = read_message n msg c s in IsOutOfReach t shown c'.wire s'
  unfolding read_frame
  read_message-keeps msg c s t shown h g =
      read_message-any msg c s (λ x. let (e, msg', c', s') = x in IsOutOfReach t shown c'.wire s')
        (λ e ws'. g)
        λ ws' src.
          read-IsOutOfReach (read_frame-Moves msg (record c { ws = ws' }) src s h.wire_ok) g
