-- ===== src/Generic/Concurrent/Delivered.antt =====
-- What ReadMessage has delivered, while goroutines are in WriteMessage.
use mathlib.Core.Path.{subst}
use bimpc.Common.{
  ℕ, ◌≡◌, refl, sym, ap, ◌∙◌, Option, none, List, [], ◌∷◌, update, ◌≤◌, length, arith,
}
use bimpc.Memory.{Bytes, Slice, Owns}
use bimpc.Action.{Result, ok, err}
use bimpc.Msgp.{DecoderLaws, Format}
use bimpc.Mpc.{new_message, Request, Value, Marshaler, Filling, get_message, put_message, to_wire}
use bimpc.Mpc.Gen.Form.{IsWire}
use bimpc.Mpc.HandOver.{payload}
use bimpc.Mpc.FromWire.{payload-bytes}
use bimpc.Mpc.Appending.{Appends, to_wire-Moves}
use bimpc.Mpc.Moves.{Moves, held-lt}
use bimpc.Shared.{IsOutOfReach}
use bimpc.Shared.Beyond.{IsBeyond, IsBeyond-get, IsBeyond-move, IsBeyond-read, IsBeyond-put}
use bimpc.Generic.{Connection, read_message}
use bimpc.Generic.Read.{read_message-Moves, read_message-IsOutOfReach, read_message-new}
use bimpc.Generic.Concurrent.{
  Writer, outside, taken, filled, finished, message_of, System, Step, begins, fills, sends, returns,
  reads, begin, after_fill, put_back, locked_send, fill, take_step, take_steps,
}
use bimpc.Generic.Concurrent.Held.{held_updated, held_same}
use bimpc.Generic.Concurrent.Invariant.{IsSystem, take_step-IsSystem}

message_of-after_fill :
    {Obj : Type 0} (msg : Request Obj) (r : Result (Unit {0}) × Filling)
    → message_of (after_fill msg r) ≡ r.1.m
message_of-after_fill msg (ok _, x) = refl
message_of-after_fill msg (err e, x) = refl

module _ {C R W Obj : Type 0} (t : Slice) (shown : Bytes) where
  abbrev IsApart : System C R W Obj → Type 0
  IsApart s = IsBeyond t shown s.codec.wire s.shared (λ i. message_of (s.writers i))

  begin-IsApart :
      (i pick : ℕ) (msg : Request Obj) (x : Writer Obj) (s : System C R W Obj)
      → IsApart s
      → IsApart (begin i pick msg x s)
  unfolding begin
  begin-IsApart i pick msg (outside e) s h =
      held_updated (IsBeyond t shown s.codec.wire _) s.writers i
        (taken msg (get_message pick s.shared.pool).0) (IsBeyond-get h i pick)
  begin-IsApart i pick msg (taken msg' m) s h = h
  begin-IsApart i pick msg (filled msg' m) s h = h
  begin-IsApart i pick msg (finished e m) s h = h

  put_back-IsApart :
      (i : ℕ) (x : Writer Obj) (s : System C R W Obj)
      → s.writers i ≡ x
      → IsApart s
      → IsApart (put_back i x s)
  unfolding put_back
  put_back-IsApart i (outside e) s at h = h
  put_back-IsApart i (taken msg m) s at h = h
  put_back-IsApart i (filled msg m) s at h = h
  put_back-IsApart i (finished e m) s at h =
      held_updated (IsBeyond t shown s.codec.wire _) s.writers i (outside e) (
        subst
          (λ y.
            IsBeyond t shown s.codec.wire
              (record s.shared { pool = put_message s.shared.mem y s.shared.pool })
              (update (λ j. message_of (s.writers j)) i new_message))
          (ap message_of at) (IsBeyond-put h i))

  send-IsApart :
      (n : Connection C R W) (i : ℕ) (x : Writer Obj) (s : System C R W Obj)
      → s.writers i ≡ x
      → IsApart s
      → IsApart (locked_send n i x s)
  unfolding locked_send
  send-IsApart n i (outside e) s at h = h
  send-IsApart n i (taken msg m) s at h = h
  send-IsApart n i (filled msg m) s at h =
      held_same (IsBeyond t shown s.codec.wire s.shared) s.writers i _ (ap message_of at) h
  send-IsApart n i (finished e m) s at h = h

  fill-IsApart :
      (as_marshaler : Value Obj → Option Marshaler)
      → Appends as_marshaler
      → (n : Connection C R W) (i : ℕ) (x : Writer Obj) (s : System C R W Obj) → s.writers i ≡ x
      → ((j : ℕ) → IsWire s.shared.mem (message_of (s.writers j)))
      → IsApart s
      → IsApart (fill n as_marshaler i x s)
  unfolding fill
  fill-IsApart as_marshaler appends n i (outside e) s at valid h = h
  fill-IsApart as_marshaler appends n i (taken msg m) s at valid h =
      let r = to_wire as_marshaler msg (record { m = m; mem = s.shared.mem }) in
      held_updated (IsBeyond t shown s.codec.wire _) s.writers i (after_fill msg r) (
        subst
          (λ y.
            IsBeyond t shown s.codec.wire (record s.shared { mem = r.1.mem })
              (update (λ j. message_of (s.writers j)) i y))
          (sym (message_of-after_fill msg r))
          (IsBeyond-move h i (
            subst (λ y. Moves s.shared.mem y r.1.mem r.1.m) (sym (ap message_of at))
              (to_wire-Moves as_marshaler appends msg (record { m = m; mem = s.shared.mem })
                (subst (IsWire s.shared.mem) (ap message_of at) (valid i))))))
  fill-IsApart as_marshaler appends n i (filled msg m) s at valid h = h
  fill-IsApart as_marshaler appends n i (finished e m) s at valid h = h

module _ {C R W Obj : Type 0} (f : Format) (n : Connection C R W) (input : R → Bytes)
    (laws : DecoderLaws f n.decoder input) (as_marshaler : Value Obj → Option Marshaler)
    (appends : Appends as_marshaler) where
  take_step-IsApart :
      (t : Slice) (shown : Bytes) (x : Step Obj) (s : System C R W Obj)
      → IsSystem as_marshaler s
      → IsApart t shown s
      → IsApart t shown (take_step n as_marshaler x s)
  unfolding take_step
  take_step-IsApart t shown (begins i pick msg) s h a =
      begin-IsApart t shown i pick msg (s.writers i) s a
  take_step-IsApart t shown (fills i) s h a =
      fill-IsApart t shown as_marshaler appends n i (s.writers i) s refl h.flight.valid a
  take_step-IsApart t shown (sends i) s h a = send-IsApart t shown n i (s.writers i) s refl a
  take_step-IsApart t shown (returns i) s h a = put_back-IsApart t shown i (s.writers i) s refl a
  take_step-IsApart t shown (reads into) s h a =
      IsBeyond-read a
        (read_message-Moves f n input laws into s.codec s.shared h.flight.shared.wire_ok)

  take_steps-IsApart :
      (t : Slice) (shown : Bytes) (xs : List (Step Obj)) (s : System C R W Obj)
      → IsSystem as_marshaler s
      → IsApart t shown s
      → IsApart t shown (take_steps n as_marshaler xs s)
  unfolding take_steps
  take_steps-IsApart t shown [] s h a = a
  take_steps-IsApart t shown (x ∷ xs) s h a =
      take_steps-IsApart t shown xs (take_step n as_marshaler x s)
        (take_step-IsSystem f n input laws as_marshaler appends x s h)
        (take_step-IsApart t shown x s h a)

  -- A slice of new arrays is out of the writers' reach.
  new-IsApart :
      (t : Slice) (shown : Bytes) (into : Request Obj) (s : System C R W Obj)
      → IsSystem as_marshaler s
      → let (e, msg, c', s') = read_message n into s.codec s.shared in
        IsOutOfReach t shown c'.wire s'
        → ((b : ℕ) → Owns t b → length s.shared.mem ≤ b)
        → IsApart t shown (take_step n as_marshaler (reads into) s)
  unfolding take_step
  new-IsApart t shown into s h out new = record {
    out = out;
    from_writers = λ j. record {
      valid = out.from_codec.valid;
      same = out.from_codec.same;
      apart = λ b o held. absurd (
          omega (
            arith,
            new b o,
            held-lt s.shared.mem (message_of (s.writers j)) (h.flight.valid j) b held,
          ));
    };
  }

  -- While goroutines are anywhere in WriteMessage, a ReadMessage returns without an error. The payloads
  -- that it has delivered never change: after any further steps of theirs, of other goroutines in
  -- WriteMessage and of ReadMessage, they show the same bytes.
  pub take_steps-delivered :
      (into : Request Obj) (xs : List (Step Obj)) (s : System C R W Obj)
      → IsSystem as_marshaler s
      → (read_message n into s.codec s.shared).0 ≡ none
      → let (e, msg, c', s') = read_message n into s.codec s.shared in
        let t = take_steps n as_marshaler (reads into ∷ xs) s in
        (payload t.shared.mem msg.args ≡ payload s'.mem msg.args)
        × (payload t.shared.mem msg.result ≡ payload s'.mem msg.result)
  unfolding take_steps take_step
  take_steps-delivered into xs s h done =
      let (ga, gr) =
        read_message-IsOutOfReach f n input laws into s.codec s.shared h.flight.shared done in
      let (na, nr) =
        read_message-new f n input laws into s.codec s.shared h.flight.shared.wire_ok done in
      let (e, msg, c', s') = read_message n into s.codec s.shared in
      let s₁ = take_step n as_marshaler (reads into) s in
      let h₁ = take_step-IsSystem f n input laws as_marshaler appends (reads into) s h in
      let a = take_steps-IsApart _ _ xs s₁ h₁ (new-IsApart _ _ into s h ga na) in
      let r = take_steps-IsApart _ _ xs s₁ h₁ (new-IsApart _ _ into s h gr nr) in
      (
        payload-bytes _ msg.args ∙ a.out.from_codec.same,
        payload-bytes _ msg.result ∙ r.out.from_codec.same,
      )
