-- ===== src/Mpc/Gen.antt =====
-- mpc/mpc_gen.go: what msgp generated for Message and Error. One definition for each method.
pub mod Form
pub mod Encode
pub mod Decode
pub mod Frame
pub mod Keep
pub mod Same
use Prim.Native.String.{String}
use bimpc.Common.{ℕ, ◌+◌, ◌≡◌, Option, none, some, List, [], ◌∷◌, ◌++◌, ◌==◌, if◌then◌else◌, length}
use bimpc.Memory.{Bytes, Memory, Slice, bytes}
use bimpc.Action.{GoError, array_error, Result, ok, err, Action, ◌>>=◌, ◌>>◌, check, returned}
use bimpc.Action.{error_of, pure}
use bimpc.Msgp.{Decoder, Encoder, Appender}
use bimpc.Msgp.Reading.{Decoding, read_value, read_field, read_raw_field, peek_nil, skip_nil}
use bimpc.Msgp.Reading.{set_value}
use bimpc.Mpc.{Error, Message}

abbrev pub set_id : ℕ → Message → Message
set_id v z = record z { id = v }

abbrev pub set_func : Bytes → Message → Message
set_func v z = record z { func = v }

abbrev pub set_args : Slice → Message → Message
set_args v z = record z { args = v }

abbrev pub set_result : Slice → Message → Message
set_result v z = record z { result = v }

abbrev pub clear_error : Message → Message
clear_error z = record z { error = none }

-- `if z.Error == nil { z.Error = new(Error) }`: an old Error is decoded into again.
abbrev pub ensured : Option Error → Error
ensured none = record { msg = [] }
ensured (some e) = e

abbrev pub ensure_error : Message → Message
ensure_error z = record z { error = some (ensured z.error) }

abbrev pub set_msg : Bytes → Error → Error
set_msg v e = record e { msg = v }

abbrev pub set_error_msg : Bytes → Message → Message
set_error_msg v z = record z { error = some (set_msg v (ensured z.error)) }

module _ {R : Type 0} (d : Decoder R) where
  -- (*Error).DecodeMsg
  unfoldable pub decode_error : Action (Decoding Error R) (Unit {0})
  decode_error = do
    n ← read_value d d.read_array_header []
    check (n == 1) (array_error 1 n)
    read_field d d.read_string set_msg ("Msg" ∷ [])

  -- The part of Message's decoders for a field Error that is not nil.
  unfoldable pub decode_error_field : Action (Decoding Message R) (Unit {0})
  decode_error_field = do
    set_value ensure_error
    n ← read_value d d.read_array_header ("Error" ∷ [])
    check (n == 1) (array_error 1 n)
    read_field d d.read_string set_error_msg ("Error" ∷ "Msg" ∷ [])

  unfoldable pub decode_nil_error : (GoError → GoError) → Action (Decoding Message R) (Unit {0})
  decode_nil_error wrap = do skip_nil d wrap; set_value clear_error

  -- The fields in front of Error, which both decoders read in the same way.
  unfoldable pub decode_head : Action (Decoding Message R) (Unit {0})
  decode_head = do
    n ← read_value d d.read_array_header []
    check (n == 5) (array_error 5 n)
    read_field d d.read_uint64 set_id ("ID" ∷ [])
    read_field d d.read_string set_func ("Func" ∷ [])

  unfoldable pub decode_payloads : Action (Decoding Message R) (Unit {0})
  decode_payloads = do
    read_raw_field d (λ z. z.args) set_args ("Args" ∷ [])
    read_raw_field d (λ z. z.result) set_result ("Result" ∷ [])

  unfoldable pub decode_last : (GoError → GoError) → Action (Decoding Message R) (Unit {0})
  unfolding decode_error_field decode_nil_error
  decode_last wrap = do
    absent ← peek_nil d
    if absent then decode_nil_error wrap else decode_error_field

  -- (*Message).DecodeMsg
  unfoldable pub decode_message : Action (Decoding Message R) (Unit {0})
  unfolding decode_head decode_payloads decode_last
  decode_message = do decode_head; decode_payloads; decode_last (d.wrap_error ("Error" ∷ []))

-- What UnmarshalMsg returns, with its receiver and the store: `o` is the bytes that are left, and
-- nil after an error.
abbrev pub unmarshaled :
    {Z : Type 0} → Result (Unit {0}) × Decoding Z Bytes → Bytes × Option GoError × Z × Memory
unmarshaled (ok _, s) = (s.rd, none, s.z, s.mem)
unmarshaled (err e, s) = ([], some e, s.z, s.mem)

module _ (d : Decoder Bytes) where
  -- (*Message).UnmarshalMsg, on byte slices; its error from ReadNilBytes is not wrapped
  unfoldable pub unmarshal_message :
      Bytes → Message → Memory → Bytes × Option GoError × Message × Memory
  unfolding decode_head decode_payloads decode_last
  unmarshal_message b z mem = unmarshaled (
      (do decode_head d; decode_payloads d; decode_last d (λ e. e))
        (record { z = z; mem = mem; rd = b }))

  -- (*Error).UnmarshalMsg
  unfoldable pub unmarshal_error : Bytes → Error → Memory → Bytes × Option GoError × Error × Memory
  unfolding decode_error
  unmarshal_error b z mem = unmarshaled (decode_error d (record { z = z; mem = mem; rd = b }))

module _ {W : Type 0} (e : Encoder W) where
  -- `err = op(); if err != nil { return wrap(err) }`
  abbrev pub write : (W → Option GoError × W) → (GoError → GoError) → Action W (Unit {0})
  write op wrap w = let (x, w') = op w in returned wrap x tt w'

  -- Error.EncodeMsg
  unfoldable pub encode_error : Error → Action W (Unit {0})
  encode_error z = do
    write (e.append (0x91 ∷ [])) (λ x. x)
    write (e.write_string z.msg) (e.wrap_error ("Msg" ∷ []))

  unfoldable pub encode_error_field : Option Error → Action W (Unit {0})
  encode_error_field none = write e.write_nil (λ x. x)
  encode_error_field (some z) = do
    write (e.append (0x91 ∷ [])) (λ x. x)
    write (e.write_string z.msg) (e.wrap_error ("Error" ∷ "Msg" ∷ []))

  -- (*Message).EncodeMsg
  unfoldable pub encode_message : Memory → Message → Action W (Unit {0})
  unfolding encode_error_field
  encode_message mem z = do
    write (e.append (0x95 ∷ [])) (λ x. x)
    write (e.write_uint64 z.id) (e.wrap_error ("ID" ∷ []))
    write (e.write_string z.func) (e.wrap_error ("Func" ∷ []))
    write (e.write_raw (bytes mem z.args)) (e.wrap_error ("Args" ∷ []))
    write (e.write_raw (bytes mem z.result)) (e.wrap_error ("Result" ∷ []))
    encode_error_field z.error

module _ (a : Appender) where
  -- Error.Msgsize, (*Message).Msgsize
  unfoldable pub error_size : Error → ℕ
  error_size z = 1 + a.string_prefix_size + length z.msg

  unfoldable pub error_field_size : Option Error → ℕ
  error_field_size none = a.nil_size
  error_field_size (some z) = 1 + a.string_prefix_size + length z.msg

  unfoldable pub message_size : Memory → Message → ℕ
  unfolding error_field_size
  message_size mem z =
      1
      + a.uint64_size
      + a.string_prefix_size
      + length z.func
      + a.raw_size (bytes mem z.args)
      + a.raw_size (bytes mem z.result)
      + error_field_size z.error

  -- Error.MarshalMsg
  unfoldable pub marshal_error : Error → Bytes → Bytes
  unfolding error_size
  marshal_error z b = let o = a.require b (error_size z) in a.append_string (o ++ (0x91 ∷ [])) z.msg

  unfoldable pub marshal_error_field : Option Error → Bytes → Bytes
  marshal_error_field none o = a.append_nil o
  marshal_error_field (some z) o = a.append_string (o ++ (0x91 ∷ [])) z.msg

  -- `o, err = z.Args.MarshalMsg(o); if err != nil { err = msgp.WrapError(err, ctx); return }`
  abbrev pub marshal_raw : Bytes → List String → Action Bytes (Unit {0})
  marshal_raw p ctx o = let (o', x) = a.append_raw p o in returned (a.wrap_error ctx) x tt o'

  -- (*Message).MarshalMsg: the bytes written so far are the state, and are returned as `o`.
  unfoldable pub marshal_message : Memory → Message → Action Bytes (Unit {0})
  unfolding marshal_error_field message_size
  marshal_message mem z b =
      let o = a.require b (message_size mem z) ++ (0x95 ∷ []) in
      let o = a.append_string (a.append_uint64 o z.id) z.func in
      (marshal_raw (bytes mem z.args) ("Args" ∷ [])
          >> marshal_raw (bytes mem z.result) ("Result" ∷ [])
          >> (λ o. (ok tt, marshal_error_field z.error o)))
        o
