-- ===== src/Mpc/FromWire.antt =====
-- FromWire as a whole: the caller gets the message, and the codec's buffers cannot reach it.
use bimpc.Common.{ℕ, ◌≡◌, ◌≤◌, refl, ap, ◌∙◌, ◌⊎◌, inl, inr, Option, none, some, arith, length}
use bimpc.Memory.{Bytes, Memory, len, bytes, IsValid, Owns}
use bimpc.Mpc.{Message, Value, raw, obj, Request, keep, hand_over, from_wire}
use bimpc.Mpc.HandOver.{
  payload, payload_slice, IsRaw, Extends, Extends-bytes, Extends-IsValid, Extends-trans, IsCopy,
  hand_over-IsCopy, keep-Owns, keep-IsValid,
}
use bimpc.Mpc.Gen.Form.{IsWire, Content, content}
use bimpc.Mpc.Moves.{Holds, Moves, IsGuarded, held-lt}

-- What a birpc message says, its payloads as the bytes that they show.
abbrev pub delivered : {Obj : Type 0} → Memory → Request Obj → Content
delivered mem msg = record {
  id = msg.id;
  func = msg.func;
  args = payload mem msg.args;
  result = payload mem msg.result;
  error = msg.error;
}

pub payload-bytes :
    {Obj : Type 0} (mem : Memory) (v : Option (Value Obj))
    → payload mem v ≡ bytes mem (payload_slice v)
payload-bytes mem none = refl
payload-bytes mem (some (raw s)) = refl
payload-bytes mem (some (obj x)) = refl

-- The buffers that the codec keeps hold no array that they did not hold before.
pub kept-Holds :
    (mem : Memory) (m : Message) (b : ℕ)
    → Owns (keep mem m.args) b ⊎ Owns (keep mem m.result) b
    → Holds m b
kept-Holds mem m b (inl o) = inl (keep-Owns mem m.args b o)
kept-Holds mem m b (inr o) = inr (keep-Owns mem m.result b o)

abbrev kept : Memory → Message → Message
kept mem m = record m { args = keep mem m.args; result = keep mem m.result }

module _ {mem mem' : Memory} {m : Message} (x : Extends mem mem') (w : IsWire mem m) where
  kept-IsWire : IsWire mem' (kept mem' m)
  kept-IsWire = record {
    args_valid = keep-IsValid mem' m.args (Extends-IsValid x m.args w.args_valid);
    result_valid = keep-IsValid mem' m.result (Extends-IsValid x m.result w.result_valid);
    apart = λ b o o'. w.apart b (keep-Owns mem' m.args b o) (keep-Owns mem' m.result b o');
  }

  kept-Moves : Moves mem m mem' (kept mem' m)
  kept-Moves = record {
    grows = x.grows;
    sizes = λ b h. ap length (x.old b h);
    frame = λ b h n. x.old b h;
    wire = kept-IsWire;
    origin = λ b h. inl (kept-Holds mem' m b h);
  }

  -- A slice of arrays that were made since the message was decoded is out of reach.
  fresh-IsGuarded :
      {Obj : Type 0} {shown : Bytes} (v : Option (Value Obj))
      → IsValid mem' (payload_slice v)
      → payload mem' v ≡ shown
      → ((b : ℕ) → Owns (payload_slice v) b → length mem ≤ b)
      → IsGuarded (payload_slice v) shown mem' (kept mem' m)
  fresh-IsGuarded v valid same fresh = record {
    valid = valid;
    same = rw (← payload-bytes mem' v) same;
    apart = λ b o h. absurd (omega (arith, fresh b o, held-lt mem m w b (kept-Holds mem' m b h)));
  }

module _ (Obj : Type 0) (mem : Memory) (m : Message) (w : IsWire mem m) where
  abbrev args_copy : Option (Value Obj) × Memory
  args_copy = hand_over m.args mem

  abbrev result_copy : Option (Value Obj) × Memory
  result_copy = hand_over m.result args_copy.1

  args_IsCopy : IsCopy mem m.args args_copy.0 args_copy.1
  args_IsCopy = hand_over-IsCopy mem m.args w.args_valid

  result_IsCopy : IsCopy args_copy.1 m.result result_copy.0 result_copy.1
  result_IsCopy =
      hand_over-IsCopy args_copy.1 m.result
        (Extends-IsValid args_IsCopy.extends m.result w.result_valid)

  both-Extends : Extends mem result_copy.1
  both-Extends = Extends-trans args_IsCopy.extends result_IsCopy.extends

  args_kept : payload result_copy.1 args_copy.0 ≡ bytes mem m.args
  args_kept =
      payload-bytes result_copy.1 args_copy.0
      ∙ Extends-bytes result_IsCopy.extends (payload_slice args_copy.0) args_IsCopy.valid
      ∙ rw (← payload-bytes args_copy.1 args_copy.0) args_IsCopy.shows

  result_kept : payload result_copy.1 result_copy.0 ≡ bytes mem m.result
  result_kept = result_IsCopy.shows ∙ Extends-bytes args_IsCopy.extends m.result w.result_valid

  -- FromWire delivers what the wire message says. The payloads that it delivers lie in arrays of
  -- their own, which no later decoding into the codec's message can reach.
  pub from_wire_lem :
      let (msg, m', mem') = from_wire {Obj = Obj} m mem in
      (delivered mem' msg ≡ content mem m)
      × IsGuarded (payload_slice msg.args) (bytes mem m.args) mem' m'
      × IsGuarded (payload_slice msg.result) (bytes mem m.result) mem' m'
  unfolding from_wire
  from_wire_lem = (
    (λ i. record (content mem m) { args = args_kept i; result = result_kept i }),
    fresh-IsGuarded both-Extends w args_copy.0
        (Extends-IsValid result_IsCopy.extends _ args_IsCopy.valid) args_kept args_IsCopy.fresh,
    fresh-IsGuarded both-Extends w result_copy.0 result_IsCopy.valid result_kept
        (λ b o. omega (arith, args_IsCopy.extends.grows, result_IsCopy.fresh b o)),
  )

  -- The delivered payloads are absent or lie in the store.
  pub from_wire-IsRaw :
      let (msg, m', mem') = from_wire {Obj = Obj} m mem in
      IsRaw msg.args
      × IsRaw msg.result
      × IsValid mem' (payload_slice msg.args)
      × IsValid mem' (payload_slice msg.result)
  unfolding from_wire
  from_wire-IsRaw = (
    args_IsCopy.is_raw,
    result_IsCopy.is_raw,
    Extends-IsValid result_IsCopy.extends _ args_IsCopy.valid,
    result_IsCopy.valid,
  )

  -- The arrays of the delivered payloads are new ones.
  pub from_wire-fresh :
      let (msg, m', mem') = from_wire {Obj = Obj} m mem in
      ((b : ℕ) → Owns (payload_slice msg.args) b → length mem ≤ b)
      × ((b : ℕ) → Owns (payload_slice msg.result) b → length mem ≤ b)
  unfolding from_wire
  from_wire-fresh = (
    args_IsCopy.fresh,
    (λ b o. omega (arith, args_IsCopy.extends.grows, result_IsCopy.fresh b o)),
  )

  -- An empty payload arrives as a nil interface.
  pub from_wire-absent :
      let (msg, m', mem') = from_wire {Obj = Obj} m mem in
      (len m.args ≡ 0 → msg.args ≡ none) × (len m.result ≡ 0 → msg.result ≡ none)
  unfolding from_wire
  from_wire-absent = (args_IsCopy.absent, result_IsCopy.absent)

  -- FromWire writes to new arrays only, and the codec's buffers are old ones.
  pub from_wire-Moves : let (msg, m', mem') = from_wire {Obj = Obj} m mem in Moves mem m mem' m'
  unfolding from_wire
  from_wire-Moves = kept-Moves both-Extends w
