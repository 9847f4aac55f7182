-- ===== src/Shared/Flush.antt =====
-- What encoding and flushing a message leaves alone, also where it fails.
use bimpc.Common.{Option, none, some, [], ◌∷◌, ℕ}
use bimpc.Memory.{Bytes, Memory, bytes}
use bimpc.Action.{GoError, returned}
use bimpc.Action.Rules.{Preserves, Preserves-bind}
use bimpc.Msgp.{Encoder}
use bimpc.Mpc.{Error, Message}
use bimpc.Mpc.Gen.{encode_message, encode_error_field, write}
use bimpc.Shared.{encode_flush}

-- A state of the writer that no write through it changes, failed ones included.
pub record EncoderKeeps {W : Type 0} (e : Encoder W) (I : W → Type 0) : Type 0 where
  pub append : (b : Bytes) (w : W) → I w → I (e.append b w).1
  pub uint64 : (v : ℕ) (w : W) → I w → I (e.write_uint64 v w).1
  pub string : (s : Bytes) (w : W) → I w → I (e.write_string s w).1
  pub nil : (w : W) → I w → I (e.write_nil w).1
  pub raw : (p : Bytes) (w : W) → I w → I (e.write_raw p w).1
  pub flush : (w : W) → I w → I (e.flush w).1

module _ {W : Type 0} (e : Encoder W) (I : W → Type 0) (keeps : EncoderKeeps e I) where
  write-Preserves :
      (op : W → Option GoError × W) (wrap : GoError → GoError)
      → ((w : W) → I w → I (op w).1)
      → Preserves I (write e op wrap)
  write-Preserves op wrap h = record { keeps = λ w i. go (op w) (h w i) }
    where
      go : (r : Option GoError × W) → I r.1 → I (returned {S = W} wrap r.0 tt r.1).1
      go (none, w') j = j
      go (some x, w') j = j

  encode_error_field-Preserves : (x : Option Error) → Preserves I (encode_error_field e x)
  unfolding encode_error_field
  encode_error_field-Preserves none = write-Preserves e.write_nil _ keeps.nil
  encode_error_field-Preserves (some x) =
      Preserves-bind I (write e (e.append (0x91 ∷ [])) (λ x. x)) _
        (write-Preserves _ _ (keeps.append _))
        λ _. write-Preserves (e.write_string x.msg) _ (keeps.string _)

  encode_message-Preserves : (mem : Memory) (m : Message) → Preserves I (encode_message e mem m)
  unfolding encode_message
  encode_message-Preserves mem m =
      Preserves-bind I _ _ (write-Preserves (e.append (0x95 ∷ [])) (λ x. x) (keeps.append _)) λ _.
        Preserves-bind I _ _
          (write-Preserves (e.write_uint64 m.id) (e.wrap_error ("ID" ∷ [])) (keeps.uint64 _))
          λ _.
            Preserves-bind I _ _
              (write-Preserves (e.write_string m.func) (e.wrap_error ("Func" ∷ []))
                (keeps.string _))
              λ _.
                Preserves-bind I _ _
                  (write-Preserves (e.write_raw (bytes mem m.args)) (e.wrap_error ("Args" ∷ []))
                    (keeps.raw _))
                  λ _.
                    Preserves-bind I _ _
                      (write-Preserves (e.write_raw (bytes mem m.result))
                        (e.wrap_error ("Result" ∷ [])) (keeps.raw _))
                      λ _. encode_error_field-Preserves m.error

  pub encode_flush-Preserves : (mem : Memory) (m : Message) → Preserves I (encode_flush e mem m)
  unfolding encode_flush
  encode_flush-Preserves mem m =
      Preserves-bind I _ _ (encode_message-Preserves mem m)
        λ _. write-Preserves e.flush (λ x. x) keeps.flush
