-- ===== src/Generic/Concurrent/Invariant.antt =====
-- What every step of every goroutine keeps: nobody writes to the arrays of another's message, and a
-- filled message says what its goroutine is to send.
use mathlib.Core.Path.{subst}
use bimpc.Common.{ℕ, ◌≡◌, ◌≢◌, refl, sym, ap, ◌∙◌, Option, none, some, update, update_cases}
use bimpc.Memory.{Bytes, Memory}
use bimpc.Action.{Result, ok, err}
use bimpc.Msgp.{DecoderLaws, Format}
use bimpc.Mpc.{Message, new_message, Request, Value, Marshaler, Filling, put_message, to_wire}
use bimpc.Mpc.Gen.Form.{content, IsWire}
use bimpc.Mpc.ToWire.{sent, to_wire_lem}
use bimpc.Mpc.Marshal.{Encodes}
use bimpc.Mpc.Appending.{Appends, to_wire-Moves}
use bimpc.Mpc.Moves.{Moves, Disjoint, Disjoint-sym}
use bimpc.Shared.{Shared, IsShared}
use bimpc.Shared.Flight.{
  IsFlight, IsFlight-start, IsFlight-get, IsFlight-move, IsFlight-read, IsFlight-put, Moves-content,
}
use bimpc.Generic.{Connection, Codec}
use bimpc.Generic.Read.{read_message-Moves}
use bimpc.Generic.Concurrent.Held.{held_updated, held_same}
use bimpc.Generic.Concurrent.{
  Writer, outside, taken, filled, finished, message_of, System, Step, begins, fills, sends, returns,
  reads, set_writer, begin, after_fill, put_back, locked_send, fill, take_step,
}

module _ {Obj : Type 0} (as_marshaler : Value Obj → Option Marshaler) where
  -- A filled message has the content of birpc's message, if that can be encoded.
  abbrev pub IsSaying : Memory → Writer Obj → Type 0
  IsSaying mem (outside e) = Unit
  IsSaying mem (taken msg m) = Unit
  IsSaying mem (filled msg m) =
      (args result : Bytes)
      → Encodes as_marshaler msg.args args
      → Encodes as_marshaler msg.result result
      → content mem m ≡ sent msg args result
  IsSaying mem (finished e m) = Unit

  -- Another message moves.
  IsSaying-other :
      {mem mem' : Memory} {m m' : Message} (v : Moves mem m mem' m') (x : Writer Obj)
      → IsWire mem (message_of x)
      → Disjoint m (message_of x)
      → IsSaying mem x
      → IsSaying mem' x
  IsSaying-other v (outside e) w d h = tt
  IsSaying-other v (taken msg m) w d h = tt
  IsSaying-other v (filled msg m) w d h =
      λ args result ha hr. Moves-content v m w d ∙ h args result ha hr
  IsSaying-other v (finished e m) w d h = tt

  say_updated :
      (mem : Memory) (writers : ℕ → Writer Obj) (i : ℕ) (x : Writer Obj)
      → IsSaying mem x
      → ((j : ℕ) → i ≢ j → IsSaying mem (writers j))
      → (j : ℕ) → IsSaying mem (update writers i x j)
  say_updated mem writers i x here there j =
      update_cases writers i x (IsSaying mem) j (λ e. here) (there j)

module _ {C R W Obj : Type 0} (as_marshaler : Value Obj → Option Marshaler) where
  pub record IsSystem (s : System C R W Obj) : Type 0 where
    pub flight : IsFlight s.codec.wire s.shared (λ i. message_of (s.writers i))
    pub saying : (i : ℕ) → IsSaying as_marshaler s.shared.mem (s.writers i)

  -- Nobody is in WriteMessage.
  pub start-IsSystem :
      (c : Codec C R W) (t : Shared)
      → IsShared c.wire t
      → IsSystem (record { codec = c; shared = t; writers = λ i. outside none })
  start-IsSystem c t h = record { flight = IsFlight-start c.wire t h; saying = λ i. tt }

  begin-IsSystem :
      (i pick : ℕ) (msg : Request Obj) (x : Writer Obj) (s : System C R W Obj)
      → IsSystem s
      → IsSystem (begin i pick msg x s)
  unfolding begin
  begin-IsSystem i pick msg (outside e) s h = record {
    flight = held_updated (IsFlight _ _) s.writers i _ (IsFlight-get h.flight i pick);
    saying = say_updated as_marshaler s.shared.mem s.writers i _ tt (λ j n. h.saying j);
  }
  begin-IsSystem i pick msg (taken msg' m) s h = h
  begin-IsSystem i pick msg (filled msg' m) s h = h
  begin-IsSystem i pick msg (finished e m) s h = h

  put_back-IsSystem :
      (i : ℕ) (x : Writer Obj) (s : System C R W Obj)
      → s.writers i ≡ x
      → IsSystem s
      → IsSystem (put_back i x s)
  unfolding put_back
  put_back-IsSystem i (outside e) s at h = h
  put_back-IsSystem i (taken msg m) s at h = h
  put_back-IsSystem i (filled msg m) s at h = h
  put_back-IsSystem i (finished e m) s at h = record {
    flight = held_updated (IsFlight _ _) s.writers i (outside e) (
        subst
          (λ y.
            IsFlight s.codec.wire
              (record s.shared { pool = put_message s.shared.mem y s.shared.pool })
              (update (λ j. message_of (s.writers j)) i new_message))
          (ap message_of at) (IsFlight-put h.flight i));
    saying = say_updated as_marshaler s.shared.mem s.writers i (outside e) tt (λ j n. h.saying j);
  }

  send-IsSystem :
      (n : Connection C R W) (i : ℕ) (x : Writer Obj) (s : System C R W Obj)
      → s.writers i ≡ x
      → IsSystem s
      → IsSystem (locked_send n i x s)
  unfolding locked_send
  send-IsSystem n i (outside e) s at h = h
  send-IsSystem n i (taken msg m) s at h = h
  send-IsSystem n i (filled msg m) s at h = record {
    flight = held_same (IsFlight s.codec.wire s.shared) s.writers i _ (ap message_of at) h.flight;
    saying = say_updated as_marshaler s.shared.mem s.writers i _ tt (λ j k. h.saying j);
  }
  send-IsSystem n i (finished e m) s at h = h

  -- The goroutine `i` does something to its message.
  moved :
      (i : ℕ) (m : Message) (y : Writer Obj) (s : System C R W Obj) {mem' : Memory}
      → message_of (s.writers i) ≡ m
      → IsSystem s
      → Moves s.shared.mem m mem' (message_of y)
      → IsSaying as_marshaler mem' y
      → IsSystem (set_writer i y (record s { shared = record s.shared { mem = mem' } }))
  moved i m y s {mem'} e h v says =
      let v' = subst (λ x. Moves s.shared.mem x mem' (message_of y)) (sym e) v in
      record {
        flight = held_updated (IsFlight _ _) s.writers i y (IsFlight-move h.flight i v');
        saying = say_updated as_marshaler mem' s.writers i y says (λ j n.
            IsSaying-other as_marshaler v' (s.writers j) (h.flight.valid j) (h.flight.apart i j n)
              (h.saying j));
      }

  filled_by :
      (i : ℕ) (msg : Request Obj) (m : Message) (s : System C R W Obj)
      → s.writers i ≡ taken msg m
      → IsSystem s
      → (r : Result (Unit {0}) × Filling)
      → to_wire as_marshaler msg (record { m = m; mem = s.shared.mem }) ≡ r
      → Moves s.shared.mem m r.1.mem r.1.m
      → IsSystem (
          set_writer i (after_fill msg r) (record s { shared = record s.shared { mem = r.1.mem } }))
  filled_by i msg m s at h (ok _, x) q v =
      moved i m (filled msg x.m) s (ap message_of at) h v λ args result ha hr.
        let wire = subst (IsWire s.shared.mem) (ap message_of at) (h.flight.valid i) in
        let (_, s', e, (same, _)) =
          to_wire_lem as_marshaler msg args result (record { m = m; mem = s.shared.mem }) wire ha
            hr in
        ap (λ (r : Result (Unit {0}) × Filling). content r.1.mem r.1.m) (sym q ∙ e) ∙ same
  filled_by i msg m s at h (err e, x) q v =
      moved i m (finished (some e) x.m) s (ap message_of at) h v tt

  fill-IsSystem :
      Appends as_marshaler
      → (n : Connection C R W) (i : ℕ) (x : Writer Obj) (s : System C R W Obj) → s.writers i ≡ x
      → IsSystem s
      → IsSystem (fill n as_marshaler i x s)
  unfolding fill
  fill-IsSystem appends n i (outside e) s at h = h
  fill-IsSystem appends n i (taken msg m) s at h = filled_by i msg m s at h _ refl (
      to_wire-Moves as_marshaler appends msg (record { m = m; mem = s.shared.mem })
        (subst (IsWire s.shared.mem) (ap message_of at) (h.flight.valid i)))
  fill-IsSystem appends n i (filled msg m) s at h = h
  fill-IsSystem appends n i (finished e m) s at h = h

module _ {C R W Obj : Type 0} (f : Format) (n : Connection C R W) (input : R → Bytes)
    (laws : DecoderLaws f n.decoder input) (as_marshaler : Value Obj → Option Marshaler)
    (appends : Appends as_marshaler) where
  read-IsSystem :
      (into : Request Obj) (s : System C R W Obj)
      → IsSystem as_marshaler s
      → IsSystem as_marshaler (take_step n as_marshaler (reads into) s)
  unfolding take_step
  read-IsSystem into s h =
      let v = read_message-Moves f n input laws into s.codec s.shared h.flight.shared.wire_ok in
      record {
        flight = IsFlight-read h.flight v;
        saying = λ j.
            IsSaying-other as_marshaler v (s.writers j) (h.flight.valid j)
              (Disjoint-sym (message_of (s.writers j)) s.codec.wire (h.flight.from_codec j))
              (h.saying j);
      }

  pub take_step-IsSystem :
      (x : Step Obj) (s : System C R W Obj)
      → IsSystem as_marshaler s
      → IsSystem as_marshaler (take_step n as_marshaler x s)
  unfolding take_step
  take_step-IsSystem (begins i pick msg) s h =
      begin-IsSystem as_marshaler i pick msg (s.writers i) s h
  take_step-IsSystem (fills i) s h = fill-IsSystem as_marshaler appends n i (s.writers i) s refl h
  take_step-IsSystem (sends i) s h = send-IsSystem as_marshaler n i (s.writers i) s refl h
  take_step-IsSystem (returns i) s h = put_back-IsSystem as_marshaler i (s.writers i) s refl h
  take_step-IsSystem (reads into) s h = read-IsSystem into s h
