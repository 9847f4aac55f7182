-- ===== src/Mpc/Gen/Encode.antt =====
-- EncodeMsg and MarshalMsg write the form of the message, and Msgsize bounds its length.
use bimpc.Common.{
  ◌+◌, ◌≤◌, ◌≡◌, refl, ap, ◌∙◌, Option, none, some, [], ◌∷◌, ◌++◌, length, arith, length-append,
}
use mathlib.Core.List.{append_assoc}
use bimpc.Memory.{Bytes, Memory, bytes}
use bimpc.Action.{GoError, Action, ok, err, ◌>>◌, returned, continue, Result}
use bimpc.Msgp.{Format, Encoder, EncoderLaws, Appender, AppenderLaws, Puts}
use bimpc.Mpc.{Error, Message}
use bimpc.Mpc.Gen.{write, encode_message, encode_error_field, marshal_message, marshal_error_field}
use bimpc.Mpc.Gen.{message_size, error_field_size}
use bimpc.Mpc.Gen.Form.{content, message_form, error_form}

-- An action on a writer that, unless it fails, adds `enc` to the output.
abbrev pub Adds : {W : Type 0} → (W → Bytes) → Action W (Unit {0}) → Bytes → Type 0
Adds {W} output m enc = (w : W) → (m w).0 ≡ ok tt → output (m w).1 ≡ output w ++ enc

module _ {W : Type 0} (e : Encoder W) (output : W → Bytes) where
  pub write-Adds :
      (op : W → Option GoError × W) (wrap : GoError → GoError) (enc : Bytes)
      → Puts output op enc
      → Adds output (write e op wrap) enc
  write-Adds op wrap enc puts w h = go (op w) refl h
    where
      go :
          (r : Option GoError × W)
          → op w ≡ r
          → (returned {S = W} wrap r.0 tt r.1).0 ≡ ok tt
          → output (returned {S = W} wrap r.0 tt r.1).1 ≡ output w ++ enc
      go (none, w') q h' =
          rw (← ap (λ (t : Option GoError × W). t.1) q)
            (puts w (ap (λ (t : Option GoError × W). t.0) q))
      go (some x, w') q h' = absurd (cc)

  pub then-Adds :
      (m k : Action W (Unit {0})) (a b : Bytes)
      → Adds output m a
      → Adds output k b
      → Adds output (m >> k) (a ++ b)
  then-Adds m k a b hm hk w h = go (m w) refl h
    where
      go :
          (r : Result (Unit {0}) × W)
          → m w ≡ r
          → (continue r (λ _. k)).0 ≡ ok tt
          → output (continue r (λ _. k)).1 ≡ output w ++ (a ++ b)
      go (ok tt, w') q h' =
          hk w' h'
          ∙ rw (← append_assoc (output w) a b) (
              ap (λ t. t ++ b)
                (rw (← ap (λ (t : Result (Unit {0}) × W). t.1) q)
                  (hm w (ap (λ (t : Result (Unit {0}) × W). t.0) q))))
      go (err x, w') q h' = absurd (cc)

module _ {W : Type 0} (f : Format) (e : Encoder W) (output : W → Bytes)
    (laws : EncoderLaws f e output) where
  encode_error_field-Adds :
      (x : Option Error) → Adds output (encode_error_field e x) (error_form f x)
  unfolding encode_error_field
  encode_error_field-Adds none = write-Adds e output _ _ _ laws.nil
  encode_error_field-Adds (some x) =
      then-Adds e output _ _ _ _ (write-Adds e output _ _ _ (laws.append (0x91 ∷ [])))
        (write-Adds e output _ _ _ (laws.string x.msg))

  -- An EncodeMsg that returns no error has written the form of the message, and nothing else, behind
  -- what was there.
  pub encode_message_lem :
      (mem : Memory) (z : Message) (w : W)
      → (encode_message e mem z w).0 ≡ ok tt
      → output (encode_message e mem z w).1 ≡ output w ++ message_form f (content mem z)
  unfolding encode_message
  encode_message_lem mem z =
      then-Adds e output _ _ _ _ (write-Adds e output _ _ _ (laws.append (0x95 ∷ []))) (
        then-Adds e output _ _ _ _ (write-Adds e output _ _ _ (laws.uint64 z.id)) (
          then-Adds e output _ _ _ _ (write-Adds e output _ _ _ (laws.string z.func)) (
            then-Adds e output _ _ _ _ (write-Adds e output _ _ _ (laws.raw (bytes mem z.args))) (
              then-Adds e output _ _ _ _ (write-Adds e output _ _ _ (laws.raw (bytes mem z.result)))
                (encode_error_field-Adds z.error)))))

module _ (f : Format) (a : Appender) (laws : AppenderLaws f a) where
  marshal_error_field_lem :
      (x : Option Error) (o : Bytes) → marshal_error_field a x o ≡ o ++ error_form f x
  unfolding marshal_error_field
  marshal_error_field_lem none o = laws.nil o
  marshal_error_field_lem (some x) o =
      laws.string (o ++ (0x91 ∷ [])) x.msg ∙ append_assoc o (0x91 ∷ []) (f.string x.msg)

  -- MarshalMsg returns no error, and appends the form of the message to `b`.
  pub marshal_message_lem :
      (mem : Memory) (z : Message) (b : Bytes)
      → marshal_message a mem z b ≡ (ok tt, b ++ message_form f (content mem z))
  unfolding marshal_message
  marshal_message_lem mem z b =
      simp (laws.require, laws.uint64, laws.string, laws.raw, marshal_error_field_lem, append_assoc)

  error_field-length : (x : Option Error) → length (error_form f x) ≤ error_field_size a x
  unfolding error_field_size
  error_field-length none = laws.nil_size
  error_field-length (some x) = omega (arith, laws.string_size x.msg)

  -- MarshalMsg appends at most Msgsize bytes.
  pub marshal_message-length :
      (mem : Memory) (z : Message) (b : Bytes)
      → length (marshal_message a mem z b).1 ≤ length b + message_size a mem z
  unfolding message_size
  marshal_message-length mem z b = rw (marshal_message_lem mem z b) (
      simp length-append (
        omega (
          arith,
          laws.uint64_size z.id,
          laws.string_size z.func,
          laws.raw_size (bytes mem z.args),
          laws.raw_size (bytes mem z.result),
          error_field-length z.error,
        )))
