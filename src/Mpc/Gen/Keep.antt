-- ===== src/Mpc/Gen/Keep.antt =====
-- What DecodeMsg keeps of the reader's state, where no read through it changes that.
use bimpc.Common.{◌==◌, Option, none, some, Bool, true, false, List, [], ◌∷◌, if◌then◌else◌}
use Prim.Native.String.{String}
use bimpc.Memory.{Memory, Slice}
use bimpc.Action.{GoError, returned, array_error, check}
use bimpc.Action.Rules.{Preserves, Preserves-bind}
use bimpc.Msgp.{Decoder}
use bimpc.Msgp.Reading.{
  Decoding, read_value, read_field, read_raw_field, peek_nil, skip_nil, set_value,
}
use bimpc.Mpc.{Message}
use bimpc.Mpc.Gen.{
  decode_message, decode_head, decode_payloads, decode_last, decode_error_field, decode_nil_error,
  set_args, set_result, set_id, set_func, set_error_msg, clear_error, ensure_error,
}

-- A state of the reader that no read through it changes, failed ones included.
pub record DecoderKeeps {R : Type 0} (d : Decoder R) (I : R → Type 0) : Type 0 where
  pub array_header : (rd : R) → I rd → I (d.read_array_header rd).2
  pub uint64 : (rd : R) → I rd → I (d.read_uint64 rd).2
  pub string : (rd : R) → I rd → I (d.read_string rd).2
  pub is_nil : (rd : R) → I rd → I (d.is_nil rd).1
  pub nil : (rd : R) → I rd → I (d.read_nil rd).1
  pub raw : (s : Slice) (mem : Memory) (rd : R) → I rd → I (d.read_raw s mem rd).3

module _ {R : Type 0} (d : Decoder R) (I : R → Type 0) where
  abbrev Kept : Decoding Message R → Type 0
  Kept s = I s.rd

  returned-Kept :
      {A : Type 0} (wrap : GoError → GoError) (e : Option GoError) (a : A) (s : Decoding Message R)
      → Kept s
      → Kept (returned wrap e a s).1
  returned-Kept wrap none a s i = i
  returned-Kept wrap (some e) a s i = i

  read_value-Kept :
      {A : Type 0} (op : R → A × Option GoError × R) (ctx : List String)
      → ((rd : R) → I rd → I (op rd).2)
      → Preserves Kept (read_value d op ctx)
  read_value-Kept op ctx h = record { keeps = λ s i. returned-Kept _ (op s.rd).1 _ _ (h s.rd i) }

  read_field-Kept :
      {A : Type 0} (op : R → A × Option GoError × R) (set_field : A → Message → Message)
      (ctx : List String)
      → ((rd : R) → I rd → I (op rd).2)
      → Preserves Kept (read_field d op set_field ctx)
  read_field-Kept op set_field ctx h = record {
    keeps = λ s i. returned-Kept _ (op s.rd).1 _ _ (h s.rd i);
  }

  set_value-Kept : (f : Message → Message) → Preserves Kept (set_value f)
  set_value-Kept f = record { keeps = λ s i. i }

  check-Kept : (b : Bool) (e : GoError) → Preserves Kept (check b e)
  check-Kept b e = record { keeps = λ s i. i }

  module _ (keeps : DecoderKeeps d I) where
    read_raw_field-Kept :
        (get_field : Message → Slice) (set_field : Slice → Message → Message) (ctx : List String)
        → Preserves Kept (read_raw_field d get_field set_field ctx)
    read_raw_field-Kept get_field set_field ctx = record {
      keeps = λ s i.
          returned-Kept _ (d.read_raw (get_field s.z) s.mem s.rd).1 tt _
            (keeps.raw (get_field s.z) s.mem s.rd i);
    }

    decode_head-Kept : Preserves Kept (decode_head d)
    unfolding decode_head
    decode_head-Kept =
        Preserves-bind Kept _ _ (read_value-Kept d.read_array_header [] keeps.array_header) λ n.
          Preserves-bind Kept _ _ (check-Kept (n == 5) (array_error 5 n)) λ _.
            Preserves-bind Kept _ _ (read_field-Kept d.read_uint64 set_id _ keeps.uint64)
              λ _. read_field-Kept d.read_string set_func _ keeps.string

    decode_nil_error-Kept : (wrap : GoError → GoError) → Preserves Kept (decode_nil_error d wrap)
    unfolding decode_nil_error
    decode_nil_error-Kept wrap =
        Preserves-bind Kept (skip_nil d wrap) _
          (record { keeps = λ s i. returned-Kept wrap (d.read_nil s.rd).0 tt _ (keeps.nil s.rd i) })
          λ _. set_value-Kept clear_error

    decode_error_field-Kept : Preserves Kept (decode_error_field d)
    unfolding decode_error_field
    decode_error_field-Kept = Preserves-bind Kept _ _ (set_value-Kept ensure_error) λ _.
        Preserves-bind Kept _ _
          (read_value-Kept d.read_array_header ("Error" ∷ []) keeps.array_header)
          λ n.
            Preserves-bind Kept _ _ (check-Kept (n == 1) (array_error 1 n))
              λ _. read_field-Kept d.read_string set_error_msg ("Error" ∷ "Msg" ∷ []) keeps.string

    decode_last-Kept : (wrap : GoError → GoError) → Preserves Kept (decode_last d wrap)
    unfolding decode_last
    decode_last-Kept wrap =
        Preserves-bind Kept (peek_nil d) _ (record { keeps = λ s i. keeps.is_nil s.rd i }) go
      where
        go :
            (absent : Bool)
            → Preserves Kept (if absent then decode_nil_error d wrap else decode_error_field d)
        go true = decode_nil_error-Kept wrap
        go false = decode_error_field-Kept

    -- Whatever DecodeMsg finds, and wherever it fails.
    pub decode_message-Kept : Preserves (λ (s : Decoding Message R). I s.rd) (decode_message d)
    unfolding decode_message decode_payloads
    decode_message-Kept = Preserves-bind Kept _ _ decode_head-Kept λ _.
        Preserves-bind Kept (decode_payloads d) _
          (Preserves-bind Kept _ _ (read_raw_field-Kept (λ z. z.args) set_args _)
            λ _. read_raw_field-Kept (λ z. z.result) set_result _)
          λ _. decode_last-Kept _
