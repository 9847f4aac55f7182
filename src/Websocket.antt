-- ===== src/Websocket.antt =====
-- websocket/websocket.go: the codec over a websocket, one binary frame for each message.
pub mod Read
pub mod Write
pub mod Values
pub mod Trace
pub mod Stream
use bimpc.Common.{ℕ, Bool, Option, none, some, List, [], ◌∷◌, ◌==◌, if◌then◌else◌}
use bimpc.Memory.{Memory}
use bimpc.Action.{GoError, Result, ok, err, error_of, invalid_msg}
use bimpc.Msgp.{Decoder, Encoder}
use bimpc.Mpc.{Message, new_message, Value, Request, Marshaler, Unmarshaler, unmarshal}
use bimpc.Mpc.Gen.{decode_message}
use bimpc.Shared.{Shared, pooled, sending, received_by, encode_flush}

-- websocket.Conn, and the msgp.Reader and Writer over its frames. Reading through a reader takes from
-- the connection, and writing through a writer puts into it, so both are states of a pair. `Src` and
-- `Dst` are the io.Reader and the io.WriteCloser of one frame.
pub record Socket (Ws Src Dst R W : Type 0) : Type 0 where
  pub decoder : Decoder (Ws × R)
  pub encoder : Encoder (Ws × W)
  pub binary_message : ℕ
  pub next_reader : Ws → ℕ × Src × Option GoError × Ws
  pub reset_reader : Src → R → R
  pub next_writer : ℕ → Ws → Dst × Option GoError × Ws
  pub reset_writer : Dst → W → W
  -- Close of the frame's writer
  pub close_frame : Dst → Ws → Option GoError × Ws
  pub close : Ws → Option GoError × Ws
  -- msgp.NewReader(nil) and msgp.NewWriter(nil)
  pub new_reader : R
  pub new_writer : W

-- Codec. The two mutexes make ReadMessage and WriteMessage steps that do not overlap themselves.
pub record Codec (Ws R W : Type 0) : Type 0 where
  pub ws : Ws
  pub r : R
  pub wire : Message
  pub w : W

module _ {Ws Src Dst R W : Type 0} (n : Socket Ws Src Dst R W) where
  unfoldable pub new_codec : Ws → Codec Ws R W
  new_codec ws = record { ws = ws; r = n.new_reader; wire = new_message; w = n.new_writer }

  -- NewEndpoint, over birpc.NewEndpoint
  unfoldable pub new_endpoint :
      {Registry Birpc : Type 0} → (Codec Ws R W → Registry → Birpc) → Registry → Ws → Birpc
  unfolding new_codec
  new_endpoint make registry ws = make (new_codec ws) registry

  unfoldable pub close : Codec Ws R W → Option GoError × Codec Ws R W
  close c = let (e, ws') = n.close c.ws in (e, record c { ws = ws' })

  module _ {Obj : Type 0} where
    -- ReadMessage from `c.r.Reset(r)` on
    unfoldable pub read_frame :
        Request Obj
        → Codec Ws R W
        → Src
        → Shared
        → Option GoError × Request Obj × Codec Ws R W × Shared
    read_frame msg c src s =
        let (res, d) =
          decode_message n.decoder
            (record { z = c.wire; mem = s.mem; rd = (c.ws, n.reset_reader src c.r) }) in
        let (e, msg', wire', mem') = received_by msg (error_of res) d.z d.mem in
        (e, msg', record c { ws = d.rd.0; r = d.rd.1; wire = wire' }, record s { mem = mem' })

    -- ReadMessage with what NextReader returned
    unfoldable pub read_next :
        Request Obj
        → Codec Ws R W
        → Shared
        → ℕ × Src × Option GoError × Ws
        → Option GoError × Request Obj × Codec Ws R W × Shared
    unfolding read_frame
    read_next msg c s (mt, src, some e, ws') = (some e, msg, record c { ws = ws' }, s)
    read_next msg c s (mt, src, none, ws') =
        if mt == n.binary_message
        then read_frame msg (record c { ws = ws' }) src s
        else (some invalid_msg, msg, record c { ws = ws' }, s)

    unfoldable pub read_message :
        Request Obj → Codec Ws R W → Shared → Option GoError × Request Obj × Codec Ws R W × Shared
    unfolding read_next
    read_message msg c s = read_next msg c s (n.next_reader c.ws)

  -- `w.Close()`: its error counts only if encoding and flushing went well.
  unfoldable pub finish : Dst → Result (Unit {0}) × (Ws × W) → Option GoError × (Ws × W)
  finish dst (err e, (ws, w)) = let (_, ws') = n.close_frame dst ws in (some e, (ws', w))
  finish dst (ok _, (ws, w)) = let (e, ws') = n.close_frame dst ws in (e, (ws', w))

  -- WriteMessage with what NextWriter returned
  unfoldable pub send_frame :
      Memory → Message → W → Dst × Option GoError × Ws → Option GoError × (Ws × W)
  unfolding finish encode_flush
  send_frame mem m w (dst, some e, ws') = (some e, (ws', w))
  send_frame mem m w (dst, none, ws') =
      finish dst (encode_flush n.encoder mem m (ws', n.reset_writer dst w))

  unfoldable pub send : Memory → Message → Ws × W → Option GoError × (Ws × W)
  unfolding send_frame
  send mem m (ws, w) = send_frame mem m w (n.next_writer n.binary_message ws)

  module _ {Obj : Type 0} (as_marshaler : Value Obj → Option Marshaler) where
    unfoldable pub write_message :
        ℕ → Request Obj → Codec Ws R W → Shared → Option GoError × Codec Ws R W × Shared
    unfolding send
    write_message pick msg c s =
        let ((e, (ws', w')), s') = pooled pick (sending as_marshaler msg send (c.ws, c.w)) s in
        (e, record c { ws = ws'; w = w' }, s')

module _ {Obj T : Type 0} where
  unfoldable pub unmarshal_args :
      Option (Unmarshaler T) → Memory → Request Obj → T → Option GoError × T
  unmarshal_args u mem msg args = unmarshal u mem msg.args args

  unfoldable pub unmarshal_result :
      Option (Unmarshaler T) → Memory → Request Obj → T → Option GoError × T
  unmarshal_result u mem msg result = unmarshal u mem msg.result result

-- FillArgs: `is_conn` is the case *websocket.Conn of the type switch, `conn` is the codec's connection
-- as a reflect.Value. The loop writes each element once, so it is one pass over the list.
unfoldable pub fill_args :
    {Arg : Type 0} → (Arg → Bool) → Arg → List Arg → Option GoError × List Arg
fill_args is_conn conn [] = (none, [])
fill_args is_conn conn (a ∷ arglist) =
    let (e, rest) = fill_args is_conn conn arglist in (e, (if is_conn a then conn else a) ∷ rest)
