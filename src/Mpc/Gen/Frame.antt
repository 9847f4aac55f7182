-- ===== src/Mpc/Gen/Frame.antt =====
-- What a decoder leaves alone, on every input and also where it fails.
use bimpc.Common.{
  ◌≡◌, refl, ◌==◌, Option, none, some, Bool, true, false, List, [], ◌∷◌, if◌then◌else◌,
}
use Prim.Native.String.{String}
use bimpc.Memory.{Bytes, Memory}
use bimpc.Action.{GoError, Result, ok, err, ◌>>◌, returned, array_error, check}
use bimpc.Action.Rules.{Preserves, Preserves-bind}
use bimpc.Msgp.{Decoder, DecoderLaws, Format}
use bimpc.Msgp.Reading.{Decoding, read_value, read_field, read_raw_field, peek_nil, skip_nil}
use bimpc.Msgp.Reading.{set_value}
use bimpc.Mpc.{Message}
use bimpc.Mpc.Gen.{
  decode_message, decode_head, decode_payloads, decode_last, decode_error_field, decode_nil_error,
  unmarshal_message, unmarshaled, set_args, set_result, set_id, set_func, set_error_msg,
  clear_error, ensure_error,
}
use bimpc.Mpc.Gen.Form.{IsWire}
use bimpc.Mpc.Moves.{
  Moves, Moves-refl, Moves-trans, Moves-fields, Writes-args-Moves, Writes-result-Moves,
}

module _ {R : Type 0} (d : Decoder R) (mem₀ : Memory) (m₀ : Message) where
  -- All that has happened since the store was `mem₀` and the message `m₀` is such a move.
  abbrev Moved : Decoding Message R → Type 0
  Moved s = Moves mem₀ m₀ s.mem s.z

  other_fields :
      {mem : Memory} {z : Message} (z' : Message)
      → z'.args ≡ z.args
      → z'.result ≡ z.result
      → Moves mem₀ m₀ mem z
      → Moves mem₀ m₀ mem z'
  other_fields z' p q v = Moves-fields m₀ z' refl refl p q v

  returned-Moved :
      {A : Type 0} (wrap : GoError → GoError) (e : Option GoError) (a : A) (s : Decoding Message R)
      → Moved s
      → Moved (returned wrap e a s).1
  returned-Moved wrap none a s g = g
  returned-Moved wrap (some e) a s g = g

  read_value-Preserves :
      {A : Type 0} (op : R → A × Option GoError × R) (ctx : List String)
      → Preserves Moved (read_value d op ctx)
  read_value-Preserves op ctx = record {
    keeps = λ s g. returned-Moved _ (op s.rd).1 _ _ (other_fields s.z refl refl g);
  }

  read_field-Preserves :
      {A : Type 0} (op : R → A × Option GoError × R) (set_field : A → Message → Message)
      (ctx : List String)
      → ((a : A) (z : Message) → (set_field a z).args ≡ z.args)
      → ((a : A) (z : Message) → (set_field a z).result ≡ z.result)
      → Preserves Moved (read_field d op set_field ctx)
  read_field-Preserves op set_field ctx p q = record {
    keeps = λ s g. returned-Moved _ (op s.rd).1 _ _ (other_fields _ (p _ s.z) (q _ s.z) g);
  }

  check-Preserves : (b : Bool) (e : GoError) → Preserves Moved (check b e)
  check-Preserves b e = record { keeps = λ s g. g }

  peek_nil-Preserves : Preserves Moved (peek_nil d)
  peek_nil-Preserves = record { keeps = λ s g. other_fields s.z refl refl g }

  skip_nil-Preserves : (wrap : GoError → GoError) → Preserves Moved (skip_nil d wrap)
  skip_nil-Preserves wrap = record {
    keeps = λ s g. returned-Moved wrap (d.read_nil s.rd).0 tt _ (other_fields s.z refl refl g);
  }

  set_value-Preserves :
      (f : Message → Message)
      → ((z : Message) → (f z).args ≡ z.args)
      → ((z : Message) → (f z).result ≡ z.result)
      → Preserves Moved (set_value f)
  set_value-Preserves f p q = record { keeps = λ s g. other_fields _ (p s.z) (q s.z) g }

  decode_head-Preserves : Preserves Moved (decode_head d)
  unfolding decode_head
  decode_head-Preserves =
      Preserves-bind Moved _ _ (read_value-Preserves d.read_array_header []) λ n.
        Preserves-bind Moved _ _ (check-Preserves (n == 5) (array_error 5 n)) λ _.
          Preserves-bind Moved _ _
            (read_field-Preserves d.read_uint64 set_id ("ID" ∷ []) (λ _ _. refl) (λ _ _. refl))
            λ _.
              read_field-Preserves d.read_string set_func ("Func" ∷ []) (λ _ _. refl) (λ _ _. refl)

  decode_nil_error-Preserves :
      (wrap : GoError → GoError) → Preserves Moved (decode_nil_error d wrap)
  unfolding decode_nil_error
  decode_nil_error-Preserves wrap =
      Preserves-bind Moved _ _ (skip_nil-Preserves wrap)
        λ _. set_value-Preserves clear_error (λ _. refl) (λ _. refl)

  decode_error_field-Preserves : Preserves Moved (decode_error_field d)
  unfolding decode_error_field
  decode_error_field-Preserves =
      Preserves-bind Moved _ _ (set_value-Preserves ensure_error (λ _. refl) (λ _. refl)) λ _.
        Preserves-bind Moved _ _ (read_value-Preserves d.read_array_header ("Error" ∷ [])) λ n.
          Preserves-bind Moved _ _ (check-Preserves (n == 1) (array_error 1 n)) λ _.
            read_field-Preserves d.read_string set_error_msg ("Error" ∷ "Msg" ∷ []) (λ _ _. refl)
              (λ _ _. refl)

  decode_last-Preserves : (wrap : GoError → GoError) → Preserves Moved (decode_last d wrap)
  unfolding decode_last
  decode_last-Preserves wrap = Preserves-bind Moved _ _ peek_nil-Preserves go
    where
      go :
          (absent : Bool)
          → Preserves Moved (if absent then decode_nil_error d wrap else decode_error_field d)
      go true = decode_nil_error-Preserves wrap
      go false = decode_error_field-Preserves

module _ (f : Format) {R : Type 0} (d : Decoder R) (input : R → Bytes)
    (laws : DecoderLaws f d input) (mem₀ : Memory) (m₀ : Message) where
  decode_payloads-Preserves : Preserves (Moved d mem₀ m₀) (decode_payloads d)
  unfolding decode_payloads
  decode_payloads-Preserves = Preserves-bind (Moved d mem₀ m₀) _ _ args_step λ _. result_step
    where
      args_step :
          Preserves (Moved d mem₀ m₀) (read_raw_field d (λ z. z.args) set_args ("Args" ∷ []))
      args_step = record {
        keeps = λ s g. returned-Moved d mem₀ m₀ _ (d.read_raw s.z.args s.mem s.rd).1 tt _ (
            Moves-trans g
              (Writes-args-Moves g.wire (laws.raw_writes s.z.args s.mem s.rd g.wire.args_valid)));
      }

      result_step :
          Preserves (Moved d mem₀ m₀) (read_raw_field d (λ z. z.result) set_result ("Result" ∷ []))
      result_step = record {
        keeps = λ s g. returned-Moved d mem₀ m₀ _ (d.read_raw s.z.result s.mem s.rd).1 tt _ (
            Moves-trans g (
              Writes-result-Moves g.wire
                (laws.raw_writes s.z.result s.mem s.rd g.wire.result_valid)));
      }

  decode_any-Preserves :
      (wrap : GoError → GoError)
      → Preserves (Moved d mem₀ m₀) (do decode_head d; decode_payloads d; decode_last d wrap)
  decode_any-Preserves wrap =
      Preserves-bind (Moved d mem₀ m₀) _ _ (decode_head-Preserves d mem₀ m₀) λ _.
        Preserves-bind (Moved d mem₀ m₀) _ _ decode_payloads-Preserves
          λ _. decode_last-Preserves d mem₀ m₀ wrap

module _ (f : Format) {R : Type 0} (d : Decoder R) (input : R → Bytes)
    (laws : DecoderLaws f d input) where
  -- On every input, well formed or not, DecodeMsg writes to its own buffers and to new arrays only.
  pub decode_message-Moves :
      (s : Decoding Message R)
      → IsWire s.mem s.z
      → let s' = (decode_message d s).1 in Moves s.mem s.z s'.mem s'.z
  unfolding decode_message
  decode_message-Moves s w =
      (decode_any-Preserves f d input laws s.mem s.z (d.wrap_error ("Error" ∷ []))).keeps s
        (Moves-refl w)

module _ (f : Format) (d : Decoder Bytes) (laws : DecoderLaws f d (λ b. b)) where
  -- The same for UnmarshalMsg.
  pub unmarshal_message-Moves :
      (b : Bytes) (z : Message) (mem : Memory)
      → IsWire mem z
      → let (o, e, z', mem') = unmarshal_message d b z mem in Moves mem z mem' z'
  unfolding unmarshal_message
  unmarshal_message-Moves b z mem w = go _ (
      (decode_any-Preserves f d (λ b. b) laws mem z (λ e. e)).keeps
        (record { z = z; mem = mem; rd = b }) (Moves-refl w))
    where
      go :
          (r : Result (Unit {0}) × Decoding Message Bytes)
          → Moves mem z r.1.mem r.1.z
          → let (o, e, z', mem') = unmarshaled r in Moves mem z mem' z'
      go (ok _, s) h = h
      go (err e, s) h = h
