-- ===== src/Testmsg/Gen.antt =====
-- internal/testmsg/testmsg_gen.go: what msgp generated for Args and Result.
pub mod OfArgs
pub mod OfResult
use bimpc.Common.{ℕ, ◌+◌, Option, none, some, [], ◌∷◌, ◌++◌, if◌then◌else◌, length}
use bimpc.Memory.{Bytes}
use bimpc.Action.{GoError, Action, ◌>>=◌, ◌>>◌}
use bimpc.Mpc.Gen.{write}
use bimpc.Maps.{
  MapDecoder, MapEncoder, MapAppender, same_text, take_field, skip_field, decode_map, left_over,
}
use bimpc.Testmsg.{Args, Result}

abbrev pub a_key : Bytes
a_key = b'a' ∷ []

abbrev pub b_key : Bytes
b_key = b'b' ∷ []

abbrev pub c_key : Bytes
c_key = b'c' ∷ []

abbrev pub s_key : Bytes
s_key = b's' ∷ []

module _ {R : Type 0} (d : MapDecoder R) where
  unfoldable pub args_field : Bytes → Action (Args × R) (Unit {0})
  unfolding same_text
  args_field field =
      if same_text field a_key
      then take_field d d.read_int64 (λ v z. record z { a = v }) ("A" ∷ [])
      else if same_text field b_key
      then take_field d d.read_int64 (λ v z. record z { b = v }) ("B" ∷ [])
      else if same_text field s_key
      then take_field d d.base.read_string (λ v z. record z { s = v }) ("S" ∷ [])
      else skip_field d

  -- (*Args).DecodeMsg
  unfoldable pub decode_args : Action (Args × R) (Unit {0})
  unfolding args_field
  decode_args = decode_map d args_field

  unfoldable pub result_field : Bytes → Action (Result × R) (Unit {0})
  unfolding same_text
  result_field field =
      if same_text field c_key
      then take_field d d.read_int64 (λ v z. record z { c = v }) ("C" ∷ [])
      else if same_text field s_key
      then take_field d d.base.read_string (λ v z. record z { s = v }) ("S" ∷ [])
      else skip_field d

  -- (*Result).DecodeMsg
  unfoldable pub decode_result : Action (Result × R) (Unit {0})
  unfolding result_field
  decode_result = decode_map d result_field

-- The methods UnmarshalMsg
module _ (d : MapDecoder Bytes) where
  unfoldable pub unmarshal_args : Bytes → Args → Bytes × Option GoError × Args
  unfolding args_field
  unmarshal_args b z = left_over (decode_map d (args_field d) (z, b))

  unfoldable pub unmarshal_result : Bytes → Result → Bytes × Option GoError × Result
  unfolding result_field
  unmarshal_result b z = left_over (decode_map d (result_field d) (z, b))

-- The methods EncodeMsg
module _ {W : Type 0} (e : MapEncoder W) where
  unfoldable pub encode_args : Args → Action W (Unit {0})
  encode_args z = do
    write e.base (e.base.append (0x83 ∷ 0xa1 ∷ 0x61 ∷ [])) (λ x. x)
    write e.base (e.write_int64 z.a) (e.base.wrap_error ("A" ∷ []))
    write e.base (e.base.append (0xa1 ∷ 0x62 ∷ [])) (λ x. x)
    write e.base (e.write_int64 z.b) (e.base.wrap_error ("B" ∷ []))
    write e.base (e.base.append (0xa1 ∷ 0x73 ∷ [])) (λ x. x)
    write e.base (e.base.write_string z.s) (e.base.wrap_error ("S" ∷ []))

  unfoldable pub encode_result : Result → Action W (Unit {0})
  encode_result z = do
    write e.base (e.base.append (0x82 ∷ 0xa1 ∷ 0x63 ∷ [])) (λ x. x)
    write e.base (e.write_int64 z.c) (e.base.wrap_error ("C" ∷ []))
    write e.base (e.base.append (0xa1 ∷ 0x73 ∷ [])) (λ x. x)
    write e.base (e.base.write_string z.s) (e.base.wrap_error ("S" ∷ []))

-- The methods Msgsize and MarshalMsg
module _ (a : MapAppender) where
  unfoldable pub args_size : Args → ℕ
  args_size z = 1 + 2 + a.int64_size + 2 + a.int64_size + 2 + a.base.string_prefix_size + length z.s

  unfoldable pub marshal_args : Args → Bytes → Bytes
  unfolding args_size
  marshal_args z b =
      let o = a.base.require b (args_size z) in
      let o = o ++ (0x83 ∷ 0xa1 ∷ 0x61 ∷ []) in
      let o = a.append_int64 o z.a in
      let o = o ++ (0xa1 ∷ 0x62 ∷ []) in
      let o = a.append_int64 o z.b in let o = o ++ (0xa1 ∷ 0x73 ∷ []) in a.base.append_string o z.s

  unfoldable pub result_size : Result → ℕ
  result_size z = 1 + 2 + a.int64_size + 2 + a.base.string_prefix_size + length z.s

  unfoldable pub marshal_result : Result → Bytes → Bytes
  unfolding result_size
  marshal_result z b =
      let o = a.base.require b (result_size z) in
      let o = o ++ (0x82 ∷ 0xa1 ∷ 0x63 ∷ []) in
      let o = a.append_int64 o z.c in let o = o ++ (0xa1 ∷ 0x73 ∷ []) in a.base.append_string o z.s
