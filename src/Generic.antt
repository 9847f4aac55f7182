-- ===== src/Generic.antt =====
-- generic/generic.go: the codec over any connection.
pub mod Read
pub mod Write
pub mod Trace
pub mod Values
pub mod Stream
pub mod Concurrent
use bimpc.Common.{ℕ, Option, none, some, List, [], ◌∷◌}
use bimpc.Memory.{Memory}
use bimpc.Action.{GoError, Action, ◌>>=◌, ◌>>◌, error_of, Result, ok, err}
use bimpc.Msgp.{Decoder, Encoder}
use bimpc.Msgp.Reading.{Decoding}
use bimpc.Mpc.{Message, new_message, Value, Request, Marshaler, Unmarshaler, unmarshal}
use bimpc.Mpc.Gen.{decode_message, encode_message, write}
use bimpc.Shared.{Shared, pooled, sending, received_by, encode_flush}

-- The connection, and the reader and the writer that msgp makes over it.
pub record Connection (C R W : Type 0) : Type 0 where
  pub decoder : Decoder R
  pub encoder : Encoder W
  pub new_reader : C → R
  pub new_writer : C → W
  pub close : C → Option GoError × C

-- Codec. The two mutexes make ReadMessage and WriteMessage steps that do not overlap themselves.
pub record Codec (C R W : Type 0) : Type 0 where
  pub conn : C
  pub r : R
  pub wire : Message
  pub w : W

module _ {C R W : Type 0} (n : Connection C R W) where
  unfoldable pub new_codec : C → Codec C R W
  new_codec conn = record {
    conn = conn;
    r = n.new_reader conn;
    wire = new_message;
    w = n.new_writer conn;
  }

  -- NewEndpoint, over birpc.NewEndpoint
  unfoldable pub new_endpoint :
      {Registry Birpc : Type 0} → (Codec C R W → Registry → Birpc) → Registry → C → Birpc
  unfolding new_codec
  new_endpoint make registry conn = make (new_codec conn) registry

  unfoldable pub close : Codec C R W → Option GoError × Codec C R W
  close c = let (e, conn') = n.close c.conn in (e, record c { conn = conn' })

  unfoldable pub read_message :
      {Obj : Type 0}
      → Request Obj
      → Codec C R W
      → Shared
      → Option GoError × Request Obj × Codec C R W × Shared
  read_message msg c s =
      let (res, d) = decode_message n.decoder (record { z = c.wire; mem = s.mem; rd = c.r }) in
      let (e, msg', wire', mem') = received_by msg (error_of res) d.z d.mem in
      (e, msg', record c { r = d.rd; wire = wire' }, record s { mem = mem' })

  unfoldable pub send : Memory → Message → W → Option GoError × W
  unfolding encode_flush
  send mem m w = let (res, w') = encode_flush n.encoder mem m w in (error_of res, w')

  module _ {Obj : Type 0} (as_marshaler : Value Obj → Option Marshaler) where
    unfoldable pub write_message :
        ℕ → Request Obj → Codec C R W → Shared → Option GoError × Codec C R W × Shared
    unfolding send
    write_message pick msg c s =
        let ((e, w'), s') = pooled pick (sending as_marshaler msg send c.w) s in
        (e, record c { w = w' }, s')

-- UnmarshalArgs, UnmarshalResult
module _ {Obj T : Type 0} where
  unfoldable pub unmarshal_args :
      Option (Unmarshaler T) → Memory → Request Obj → T → Option GoError × T
  unmarshal_args u mem msg args = unmarshal u mem msg.args args

  unfoldable pub unmarshal_result :
      Option (Unmarshaler T) → Memory → Request Obj → T → Option GoError × T
  unmarshal_result u mem msg result = unmarshal u mem msg.result result
