-- ===== src/Mpc.antt =====
-- mpc/mpc.go: the wire message, the pool of wire messages, and the conversion to and from
-- birpc.Message. A string is the list of its bytes.
pub mod Gen
pub mod Moves
pub mod HandOver
pub mod FromWire
pub mod Pool
pub mod Marshal
pub mod Unmarshal
pub mod ToWire
pub mod Appending
use bimpc.Common.{
  ℕ, ◌*◌, ◌^◌, Option, none, some, ◌==◌, ltb, if◌then◌else◌, List, [], ◌∷◌, zero, suc,
}
use bimpc.Memory.{Bytes, Memory, Slice, nil_slice, len, cap_of, bytes, truncate, make_slice, copy}
use bimpc.Action.{
  GoError, errorf, not_marshaler, not_unmarshaler, not_raw, Action, ◌>>=◌, ◌>>◌, modify, returned,
}

-- mpc.Error, and birpc.Error, which has the same field
pub record Error : Type 0 where
  pub msg : Bytes

-- mpc.Message. A nil pointer to an Error is `none`.
pub record Message : Type 0 where
  pub id : ℕ
  pub func : Bytes
  pub args : Slice
  pub result : Slice
  pub error : Option Error

-- `&Message{}`
abbrev pub new_message : Message
new_message = record { id = 0; func = []; args = nil_slice; result = nil_slice; error = none }

-- A value behind an interface{}: a msgp.Raw, or a value of any other type.
pub data Value (Obj : Type 0) : Type 0 where
  raw : Slice → Value Obj
  obj : Obj → Value Obj

-- birpc.Message. A nil interface is `none`.
pub record Request (Obj : Type 0) : Type 0 where
  pub id : ℕ
  pub func : Bytes
  pub args : Option (Value Obj)
  pub result : Option (Value Obj)
  pub error : Option Error

abbrev pub max_kept_buffer : ℕ
max_kept_buffer = 64 * 2 ^ 10

unfoldable pub keep : Memory → Slice → Slice
keep mem s = if ltb max_kept_buffer (cap_of mem s) then nil_slice else truncate s

-- The pool of wire messages. Which message `Get` takes out is up to sync.Pool: `pick` says which,
-- and past the end it is a new one.
abbrev pub Pool : Type 0
Pool = List Message

unfoldable pub get_message : ℕ → Pool → Message × Pool
get_message pick [] = (new_message, [])
get_message zero (m ∷ pool) = (m, pool)
get_message (suc pick) (m ∷ pool) = let (x, rest) = get_message pick pool in (x, m ∷ rest)

unfoldable pub put_message : Memory → Message → Pool → Pool
unfolding keep
put_message mem m pool =
    record m { args = keep mem m.args; result = keep mem m.result; error = none } ∷ pool

-- MarshalMsg of a type that implements msgp.Marshaler: it appends to a buffer.
abbrev pub Marshaler : Type 0
Marshaler = Slice → Memory → Slice × Option GoError × Memory

-- What `t.MarshalMsg(buf)` leaves: after an error the buffer is returned as it was passed.
abbrev pub marshaled : Slice → Slice × Option GoError × Memory → Slice × Option GoError × Memory
marshaled buf (b, none, mem) = (b, none, mem)
marshaled buf (b, some e, mem) = (buf, some e, mem)

abbrev pub marshal_by : Option Marshaler → Slice → Memory → Slice × Option GoError × Memory
marshal_by none buf mem = (buf, some not_marshaler, mem)
marshal_by (some m) buf mem = marshaled buf (m buf mem)

-- The message that ToWire fills in, and the store.
pub record Filling : Type 0 where
  pub m : Message
  pub mem : Memory

-- `as_marshaler v` is the type assertion `v.(msgp.Marshaler)`.
module _ {Obj : Type 0} (as_marshaler : Value Obj → Option Marshaler) where
  unfoldable pub marshal : Slice → Option (Value Obj) → Memory → Slice × Option GoError × Memory
  marshal buf none mem = (truncate buf, none, mem)
  marshal buf (some v) mem = marshal_by (as_marshaler v) (truncate buf) mem

  unfoldable pub fill_args : Option (Value Obj) → Action Filling (Unit {0})
  unfolding marshal
  fill_args v s =
      let (b, e, mem') = marshal s.m.args v s.mem in
      returned (errorf "marshaling args") e tt (record { m = record s.m { args = b }; mem = mem' })

  unfoldable pub fill_result : Option (Value Obj) → Action Filling (Unit {0})
  unfolding marshal
  fill_result v s =
      let (b, e, mem') = marshal s.m.result v s.mem in
      returned (errorf "marshaling result") e tt
        (record { m = record s.m { result = b }; mem = mem' })

  unfoldable pub to_wire : Request Obj → Action Filling (Unit {0})
  unfolding fill_args fill_result
  to_wire msg = do
    modify (λ s. record s { m = record s.m { id = msg.id; func = msg.func; error = none } })
    fill_args msg.args
    fill_result msg.result
    modify (λ s. record s { m = record s.m { error = msg.error } })

module _ {Obj : Type 0} where
  -- The payload for the caller: nil if it is absent, or a copy in a new array.
  unfoldable pub hand_over : Slice → Memory → Option (Value Obj) × Memory
  hand_over s mem =
      let (out, mem') = make_slice (len s) mem in
      if len s == 0 then (none, mem) else (some (raw out), copy out s mem')

  unfoldable pub from_wire : Message → Memory → Request Obj × Message × Memory
  unfolding hand_over keep
  from_wire m mem =
      let (args, mem₁) = hand_over m.args mem in
      let (result, mem₂) = hand_over m.result mem₁ in
      (
        record { id = m.id; func = m.func; args = args; result = result; error = m.error },
        record m { args = keep mem₂ m.args; result = keep mem₂ m.result },
        mem₂,
      )

-- UnmarshalMsg of a type that implements msgp.Unmarshaler, on what its receiver points to.
abbrev pub Unmarshaler : Type 0 → Type 0
Unmarshaler T = Bytes → T → Option GoError × T

module _ {Obj T : Type 0} where
  abbrev pub unmarshal_by : Unmarshaler T → Memory → Option (Value Obj) → T → Option GoError × T
  unmarshal_by u mem none ret = (none, ret)
  unmarshal_by u mem (some (obj x)) ret = (some not_raw, ret)
  unmarshal_by u mem (some (raw s)) ret = if len s == 0 then (none, ret) else u (bytes mem s) ret

  -- `as_unmarshaler` is the type assertion `ret.(msgp.Unmarshaler)`.
  unfoldable pub unmarshal :
      Option (Unmarshaler T) → Memory → Option (Value Obj) → T → Option GoError × T
  unmarshal none mem i ret = (some not_unmarshaler, ret)
  unmarshal (some u) mem i ret = unmarshal_by u mem i ret
