-- ===== src/Mpc/ToWire.antt =====
-- ToWire: what it fills in, and what it refuses.
use bimpc.Common.{◌≡◌, ◌∙◌, inl, inr, Option, none, some, Option-cases}
use bimpc.Memory.{Bytes, Memory, Slice, bytes, Apart}
use bimpc.Memory.Writes.{Writes-bytes, Writes-IsValid, Writes-Apart, Apart-sym}
use bimpc.Action.{GoError, errorf, ok, err}
use bimpc.Action.Rules.{Runs}
use bimpc.Mpc.{Value, Request, Marshaler, marshal, Filling, fill_args, fill_result, to_wire}
use bimpc.Mpc.Marshal.{
  Encodes, IsRejected, IsMarshaled, marshal_lem, marshal-rejected, marshal-accepts,
}
use bimpc.Mpc.Gen.Form.{IsWire, Content, content}

-- What a birpc message says, with the encodings of its payloads.
abbrev pub sent : {Obj : Type 0} → Request Obj → Bytes → Bytes → Content
sent msg args result = record {
  id = msg.id;
  func = msg.func;
  args = args;
  result = result;
  error = msg.error;
}

module _ {Obj : Type 0} (as_marshaler : Value Obj → Option Marshaler) where
  -- ToWire on payloads that are absent or can be encoded returns no error, and fills in the message
  -- that birpc handed over: whatever the message said before is gone. The buffers stay in the
  -- store and apart.
  pub to_wire_lem :
      (msg : Request Obj) (args result : Bytes) (s : Filling)
      → IsWire s.mem s.m
      → Encodes as_marshaler msg.args args
      → Encodes as_marshaler msg.result result
      → Runs
          (to_wire as_marshaler msg)
          s
          λ _ s'. (content s'.mem s'.m ≡ sent msg args result) × IsWire s'.mem s'.m
  unfolding to_wire fill_args fill_result
  to_wire_lem msg args result s wire ha hr =
      let (e₁, w₁, b₁) = marshal_lem as_marshaler s.m.args msg.args s.mem args wire.args_valid ha in
      let (a, _, mem₁) = marshal as_marshaler s.m.args msg.args s.mem in
      let v = Writes-IsValid w₁ s.m.result wire.result_valid in
      let (e₂, w₂, b₂) = marshal_lem as_marshaler s.m.result msg.result mem₁ result v hr in
      let (r, _, mem₂) = marshal as_marshaler s.m.result msg.result mem₁ in
      let apart : Apart a s.m.result =
        Apart-sym s.m.result a (
          Writes-Apart w₁ s.m.result wire.result_valid
            (Apart-sym s.m.args s.m.result wire.apart)) in
      let kept : bytes mem₂ a ≡ args = Writes-bytes w₂ a w₁.valid apart ∙ b₁ in
      (
        tt,
        record {
          m = record { id = msg.id; func = msg.func; args = a; result = r; error = msg.error };
          mem = mem₂;
        },
        rw (e₁, e₂),
        (
          (λ i. sent msg (kept i) (b₂ i)),
          record {
            args_valid = Writes-IsValid w₂ a w₁.valid;
            result_valid = w₂.valid;
            apart = Writes-Apart w₂ a w₁.valid apart;
          },
        ),
      )

  failed_args :
      (msg : Request Obj) (s : Filling) (e : GoError)
      → (marshal as_marshaler s.m.args msg.args s.mem).1 ≡ some e
      → (to_wire as_marshaler msg s).0 ≡ err (errorf "marshaling args" e)
  unfolding to_wire fill_args
  failed_args msg s e h = rw h

  failed_result :
      (msg : Request Obj) (s : Filling) (e : GoError)
      → (marshal as_marshaler s.m.args msg.args s.mem).1 ≡ none
      → (marshal as_marshaler s.m.result msg.result
          (marshal as_marshaler s.m.args msg.args s.mem).2).1
        ≡ some e
      → (to_wire as_marshaler msg s).0 ≡ err (errorf "marshaling result" e)
  unfolding to_wire fill_args fill_result
  failed_result msg s e done h = rw (done, h)

  -- Arguments that cannot be marshaled are an error that says so.
  pub to_wire-rejected_args :
      (msg : Request Obj) (s : Filling) (e : GoError)
      → IsRejected as_marshaler msg.args e
      → (to_wire as_marshaler msg s).0 ≡ err (errorf "marshaling args" e)
  to_wire-rejected_args msg s e h =
      failed_args msg s e (marshal-rejected as_marshaler s.m.args msg.args s.mem e h)

  -- A ToWire that returns no error drops no payload in silence. Each of the two is nil, and its buffer is
  -- emptied, or its type has a MarshalMsg, which was called on the emptied buffer, the arguments' first,
  -- and returned no error. The message then has the buffers that these calls returned, the arguments' as
  -- Args and the result's as Result, and birpc's id, function and error.
  pub to_wire-accepts :
      (msg : Request Obj) (s : Filling)
      → (to_wire as_marshaler msg s).0 ≡ ok tt
      → (a : Slice) × (mem₁ : Memory) × (r : Slice) × (mem₂ : Memory) × IsMarshaled as_marshaler
          msg.args s.m.args s.mem a mem₁
        × IsMarshaled as_marshaler msg.result s.m.result mem₁ r mem₂
        × ((to_wire as_marshaler msg s).1 ≡ record {
          m = record { id = msg.id; func = msg.func; args = a; result = r; error = msg.error };
          mem = mem₂;
        })
  unfolding to_wire fill_args fill_result
  to_wire-accepts msg s done =
      let (a, e₁, mem₁) = marshal as_marshaler s.m.args msg.args s.mem in
      let (r, e₂, mem₂) = marshal as_marshaler s.m.result msg.result mem₁ in
      elim (Option-cases e₁) [
        | inr (x, bad) ↦ absurd (cc (failed_args msg s x bad))
        | inl ok₁ ↦ elim (Option-cases e₂) [
          | inr (x, bad) ↦ absurd (cc (failed_result msg s x ok₁ bad))
          | inl ok₂ ↦ (
            a,
            mem₁,
            r,
            mem₂,
            marshal-accepts as_marshaler s.m.args msg.args s.mem ok₁,
            marshal-accepts as_marshaler s.m.result msg.result mem₁ ok₂,
            rw (ok₁, ok₂),
          )
        ]
      ]
