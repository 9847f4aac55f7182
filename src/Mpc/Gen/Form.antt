-- ===== src/Mpc/Gen/Form.antt =====
-- What a Message says, apart from the buffers that hold it, and its form on the wire: the array
-- [id, fn, args, result, error] of README.md, where an error is the array [msg].
use bimpc.Common.{ℕ, ◌<◌, ◌^◌, Option, none, some, ◌∷◌, ◌++◌, length}
use bimpc.Memory.{Bytes, Memory, bytes, IsValid, Apart}
use bimpc.Msgp.{Format, nil_form, payload_form, received, IsPayload}
use bimpc.Mpc.{Error, Message}

pub record Content : Type 0 where
  pub id : ℕ
  pub func : Bytes
  pub args : Bytes
  pub result : Bytes
  pub error : Option Error

abbrev pub content : Memory → Message → Content
content mem z = record {
  id = z.id;
  func = z.func;
  args = bytes mem z.args;
  result = bytes mem z.result;
  error = z.error;
}

-- What a reader has after the payloads went over the wire: a payload that is nil is absent.
abbrev pub received_content : Content → Content
received_content c = record c { args = received c.args; result = received c.result }

-- The text of the error, if there is one, is short enough for MessagePack.
abbrev pub HasText : Option Error → Type 0
HasText none = Unit {0}
HasText (some e) = length e.msg < 2 ^ 32

module _ (f : Format) where
  abbrev pub error_form : Option Error → Bytes
  error_form none = nil_form
  error_form (some e) = 0x91 ∷ f.string e.msg

  abbrev pub message_form : Content → Bytes
  message_form c =
      0x95
      ∷ (f.uint64 c.id
          ++ (f.string c.func
              ++ (payload_form c.args ++ (payload_form c.result ++ error_form c.error))))

  -- An id of 64 bits, texts that MessagePack can hold, and payloads that are empty or one object.
  pub record IsSendable (c : Content) : Type 0 where
    pub id_bound : c.id < 2 ^ 64
    pub func_bound : length c.func < 2 ^ 32
    pub args_object : IsPayload f c.args
    pub result_object : IsPayload f c.result
    pub error_bound : HasText c.error

-- The message's buffers lie in the store and share no array.
pub record IsWire (mem : Memory) (z : Message) : Type 0 where
  pub args_valid : IsValid mem z.args
  pub result_valid : IsValid mem z.result
  pub apart : Apart z.args z.result
