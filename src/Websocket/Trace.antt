-- ===== src/Websocket/Trace.antt =====
-- The websocket codec in use by birpc.
use bimpc.Common.{◌≡◌, Option, none, List}
use bimpc.Msgp.{DecoderLaws, Format}
use bimpc.Mpc.{Request, Value, Marshaler}
use bimpc.Mpc.HandOver.{payload}
use bimpc.Mpc.Appending.{Appends}
use bimpc.Memory.{Bytes}
use bimpc.Shared.{Shared, IsShared}
use bimpc.Shared.Start.{new_message-IsShared}
use bimpc.Mpc.Pool.{IsPool}
use bimpc.Endpoint.{BirpcCodec, BirpcCodecLaws, Call, calls}
use bimpc.Endpoint.Calls.{calls_keep_order, delivered_for_good}
use bimpc.Websocket.{Socket, Codec, new_codec, read_message, write_message}
use bimpc.Websocket.Read.{read_message-IsShared, read_message-keeps, read_message-IsOutOfReach}
use bimpc.Websocket.Write.{write_message-IsShared, write_message-IsOutOfReach}

module _ {Ws Src Dst R W Obj : Type 0} (n : Socket Ws Src Dst R W)
    (as_marshaler : Value Obj → Option Marshaler) where
  abbrev pub websocket_codec : BirpcCodec (Codec Ws R W) Obj
  websocket_codec = record {
    wire = λ c. c.wire;
    read_message = read_message n;
    write_message = write_message n as_marshaler;
  }

module _ {Ws Src Dst R W Obj : Type 0} (f : Format) (n : Socket Ws Src Dst R W)
    (input : Ws × R → Bytes) (laws : DecoderLaws f n.decoder input)
    (as_marshaler : Value Obj → Option Marshaler) (appends : Appends as_marshaler) where
  websocket_codec-BirpcCodecLaws : BirpcCodecLaws (websocket_codec n as_marshaler)
  websocket_codec-BirpcCodecLaws = record {
    read_ok = read_message-IsShared f n input laws;
    read_keeps = read_message-keeps f n input laws;
    read_delivers = read_message-IsOutOfReach f n input laws;
    write_ok = write_message-IsShared n as_marshaler appends;
    write_keeps = λ pick msg c s t shown h g.
        write_message-IsOutOfReach n as_marshaler appends pick msg c s h t shown g;
  }

  -- After any sequence of calls on the websocket codec, failed ones included, the codec's message and the pool are in order:
  -- every pooled message is clean, has no large buffer, and shares no array with another or with the
  -- codec.
  pub websocket_calls-IsShared :
      (xs : List (Call Obj)) (c : Codec Ws R W) (s : Shared)
      → IsShared c.wire s
      → let (c', s') = calls (websocket_codec n as_marshaler) xs c s in IsShared c'.wire s'
  websocket_calls-IsShared =
      calls_keep_order (websocket_codec n as_marshaler) websocket_codec-BirpcCodecLaws

  -- The payloads that a ReadMessage of the websocket codec has delivered without error never change:
  -- after any sequence of further reads and writes on it, failed ones included, they show the same
  -- bytes.
  pub websocket_read-calls :
      (into : Request Obj) (xs : List (Call Obj)) (c : Codec Ws R W) (s : Shared)
      → IsShared c.wire s
      → (read_message n into c s).0 ≡ none
      → let (e, msg, c', s') = read_message n into c s in
        let (c'', s'') = calls (websocket_codec n as_marshaler) xs c' s' in
        (payload s''.mem msg.args ≡ payload s'.mem msg.args)
        × (payload s''.mem msg.result ≡ payload s'.mem msg.result)
  websocket_read-calls =
      delivered_for_good (websocket_codec n as_marshaler) websocket_codec-BirpcCodecLaws

module _ {Ws Src Dst R W : Type 0} (n : Socket Ws Src Dst R W) where
  -- From NewCodec on the codec is in order, with any pool that is.
  pub new_codec-IsShared :
      (ws : Ws) (s : Shared) → IsPool s.mem s.pool → IsShared (new_codec n ws).wire s
  unfolding new_codec
  new_codec-IsShared ws s h = new_message-IsShared s h
