-- ===== src/Mpc/Gen/Decode.antt =====
-- DecodeMsg and UnmarshalMsg read the form of a message, whatever they decode into.
use bimpc.Common.{ℕ, ◌<◌, ◌≡◌, refl, sym, ap, ◌∙◌, Option, none, some, [], ◌∷◌, ◌++◌, arith, ◌^◌}
use mathlib.Core.List.{append_assoc}
use mathlib.Core.Path.{subst}
use bimpc.Memory.{Bytes, Memory, bytes, Apart}
use bimpc.Memory.Writes.{Writes-bytes, Writes-IsValid, Writes-Apart, Apart-sym}
use bimpc.Action.{GoError, Result, ◌>>◌}
use bimpc.Action.Rules.{Runs}
use bimpc.Msgp.{Decoder, DecoderLaws, Format, array_form, payload_form, IsPayload}
use bimpc.Msgp.{received}
use bimpc.Msgp.Reading.{Decoding}
use bimpc.Mpc.{Error, Message}
use bimpc.Mpc.Gen.{
  decode_message, decode_head, decode_payloads, decode_last, decode_error_field, decode_nil_error,
  unmarshal_message, unmarshaled, set_args, set_result, clear_error,
}
use bimpc.Mpc.Gen.Form.{
  Content, content, received_content, message_form, error_form, IsSendable, HasText, IsWire,
}
use bimpc.Common.{length}

module _ (f : Format) {R : Type 0} (d : Decoder R) (input : R → Bytes)
    (laws : DecoderLaws f d input) where
  -- The decoder stands at `s`: it holds the content `c`, and `rest` is left.
  abbrev Decoded : Content → Bytes → Decoding Message R → Type 0
  Decoded c rest s = (content s.mem s.z ≡ c) × (input s.rd ≡ rest) × IsWire s.mem s.z

  decode_last_lem :
      (wrap : GoError → GoError) (x : Option Error) (rest : Bytes) (s : Decoding Message R)
      → HasText x
      → IsWire s.mem s.z
      → input s.rd ≡ error_form f x ++ rest
      → Runs
          (decode_last d wrap)
          s
          λ _ s'. Decoded (record (content s.mem s.z) { error = x }) rest s'
  unfolding decode_last decode_nil_error decode_error_field
  decode_last_lem wrap none rest s h wire i =
      let (rd₁, e₁, i₁) = laws.is_nil s.rd 0xc0 rest i in
      let (rd₂, e₂, i₂) = laws.nil rd₁ rest i₁ in
      (
        tt,
        record s { rd = rd₂; z = clear_error s.z },
        rw (e₁, e₂),
        (
          refl,
          i₂,
          record {
            args_valid = wire.args_valid;
            result_valid = wire.result_valid;
            apart = wire.apart;
          },
        ),
      )
  decode_last_lem wrap (some x) rest s h wire i =
      let (rd₁, e₁, i₁) = laws.is_nil s.rd 0x91 (f.string x.msg ++ rest) i in
      let (rd₂, e₂, i₂) = laws.array_header 1 (omega arith) rd₁ (f.string x.msg ++ rest) i₁ in
      let (rd₃, e₃, i₃) = laws.string x.msg h rd₂ rest i₂ in
      (
        tt,
        record s { rd = rd₃; z = record s.z { error = some x } },
        rw (e₁, e₂, e₃),
        (
          refl,
          i₃,
          record {
            args_valid = wire.args_valid;
            result_valid = wire.result_valid;
            apart = wire.apart;
          },
        ),
      )

  decode_head_lem :
      (id : ℕ) (func rest : Bytes) (s : Decoding Message R)
      → id < 2 ^ 64
      → length func < 2 ^ 32
      → IsWire s.mem s.z
      → input s.rd ≡ array_form 5 ++ (f.uint64 id ++ (f.string func ++ rest))
      → Runs
          (decode_head d)
          s
          λ _ s'. Decoded (record (content s.mem s.z) { id = id; func = func }) rest s'
  unfolding decode_head
  decode_head_lem id func rest s h h' wire i =
      let (rd₁, e₁, i₁) = laws.array_header 5 (omega arith) s.rd _ i in
      let (rd₂, e₂, i₂) = laws.uint64 id h rd₁ _ i₁ in
      let (rd₃, e₃, i₃) = laws.string func h' rd₂ rest i₂ in
      (
        tt,
        record s { rd = rd₃; z = record s.z { id = id; func = func } },
        rw (e₁, e₂, e₃),
        (
          refl,
          i₃,
          record {
            args_valid = wire.args_valid;
            result_valid = wire.result_valid;
            apart = wire.apart;
          },
        ),
      )

  decode_payloads_lem :
      (p q rest : Bytes) (s : Decoding Message R)
      → IsPayload f p
      → IsPayload f q
      → IsWire s.mem s.z
      → input s.rd ≡ payload_form p ++ (payload_form q ++ rest)
      → Runs (decode_payloads d) s λ _ s'.
        Decoded (record (content s.mem s.z) { args = received p; result = received q }) rest s'
  unfolding decode_payloads
  decode_payloads_lem p q rest s hp hq wire i =
      let w₁ = laws.raw_writes s.z.args s.mem s.rd wire.args_valid in
      let (e₁, b₁, i₁) = laws.raw s.z.args s.mem s.rd p _ wire.args_valid hp i in
      let (r₁, _, mem₁, rd₁) = d.read_raw s.z.args s.mem s.rd in
      let v = Writes-IsValid w₁ s.z.result wire.result_valid in
      let w₂ = laws.raw_writes s.z.result mem₁ rd₁ v in
      let (e₂, b₂, i₂) = laws.raw s.z.result mem₁ rd₁ q rest v hq i₁ in
      let (r₂, _, mem₂, rd₂) = d.read_raw s.z.result mem₁ rd₁ in
      let apart : Apart r₁ s.z.result =
        Apart-sym s.z.result r₁ (
          Writes-Apart w₁ s.z.result wire.result_valid
            (Apart-sym s.z.args s.z.result wire.apart)) in
      let kept : bytes mem₂ r₁ ≡ received p = Writes-bytes w₂ r₁ w₁.valid apart ∙ b₁ in
      (
        tt,
        record { z = set_result r₂ (set_args r₁ s.z); mem = mem₂; rd = rd₂ },
        rw (e₁, e₂),
        (
          (λ k. record (content s.mem s.z) { args = kept k; result = b₂ k }),
          i₂,
          record {
            args_valid = Writes-IsValid w₂ r₁ w₁.valid;
            result_valid = w₂.valid;
            apart = Writes-Apart w₂ r₁ w₁.valid apart;
          },
        ),
      )

  decode_any_lem :
      (wrap : GoError → GoError) (c : Content) (rest : Bytes) (s : Decoding Message R)
      → IsSendable f c
      → IsWire s.mem s.z
      → input s.rd ≡ message_form f c ++ rest
      → Runs
          (do decode_head d; decode_payloads d; decode_last d wrap)
          s
          λ _ s'. Decoded (received_content c) rest s'
  decode_any_lem wrap c rest s sendable wire i =
      let (_, s₁, e₁, (c₁, i₁, wire₁)) =
        decode_head_lem c.id c.func (after_func ++ rest) s sendable.id_bound sendable.func_bound
          wire (i ∙ simp append_assoc) in
      let (_, s₂, e₂, (c₂, i₂, wire₂)) =
        decode_payloads_lem c.args c.result (error_form f c.error ++ rest) s₁ sendable.args_object
          sendable.result_object wire₁ (i₁ ∙ simp append_assoc) in
      let (_, s₃, e₃, (c₃, i₃, wire₃)) =
        decode_last_lem wrap c.error rest s₂ sendable.error_bound wire₂ i₂ in
      (tt, s₃, rw (e₁, e₂, e₃), (c₃ ∙ ap with_error (c₂ ∙ ap with_payloads c₁), i₃, wire₃))
    where
      after_func : Bytes
      after_func = payload_form c.args ++ (payload_form c.result ++ error_form f c.error)

      with_payloads : Content → Content
      with_payloads x = record x { args = received c.args; result = received c.result }

      with_error : Content → Content
      with_error x = record x { error = c.error }

  -- DecodeMsg reads the form of a message off the front of the input: it returns no error, leaves
  -- what follows, and what it has decoded is the message, whatever it decoded into. The payload
  -- buffers are again in the store and apart.
  pub decode_message_lem :
      (c : Content) (rest : Bytes) (s : Decoding Message R)
      → IsSendable f c
      → IsWire s.mem s.z
      → input s.rd ≡ message_form f c ++ rest
      → Runs (decode_message d) s λ _ s'.
        (content s'.mem s'.z ≡ received_content c) × (input s'.rd ≡ rest) × IsWire s'.mem s'.z
  unfolding decode_message
  decode_message_lem = decode_any_lem (d.wrap_error ("Error" ∷ []))

module _ (f : Format) (d : Decoder Bytes) (laws : DecoderLaws f d (λ b. b)) where
  -- UnmarshalMsg on the form of a message with bytes behind it returns those bytes and no error, and
  -- has decoded the message, whatever it decoded into.
  pub unmarshal_message_lem :
      (c : Content) (rest : Bytes) (z : Message) (mem : Memory)
      → IsSendable f c
      → IsWire mem z
      → let (o, e, z', mem') = unmarshal_message d (message_form f c ++ rest) z mem in
        (o ≡ rest) × (e ≡ none) × (content mem' z' ≡ received_content c) × IsWire mem' z'
  unfolding unmarshal_message
  unmarshal_message_lem c rest z mem sendable wire =
      let (_, s, e, (c', i, w)) =
        decode_any_lem f d (λ b. b) laws (λ e. e) c rest
          (record { z = z; mem = mem; rd = message_form f c ++ rest }) sendable wire refl in
      subst Reached (sym e) (i, refl, c', w)
    where
      Reached : Result (Unit {0}) × Decoding Message Bytes → Type 0
      Reached r =
          let (o, e, z', mem') = unmarshaled r in
          (o ≡ rest) × (e ≡ none) × (content mem' z' ≡ received_content c) × IsWire mem' z'
