-- ===== src/Generic/Trace.antt =====
-- The generic codec in use by birpc.
use bimpc.Common.{◌≡◌, Option, none, List}
use bimpc.Msgp.{DecoderLaws, Format}
use bimpc.Mpc.{Request, Value, Marshaler}
use bimpc.Mpc.HandOver.{payload}
use bimpc.Mpc.Appending.{Appends}
use bimpc.Memory.{Bytes}
use bimpc.Shared.{Shared, IsShared}
use bimpc.Shared.Start.{new_message-IsShared}
use bimpc.Mpc.Pool.{IsPool}
use bimpc.Endpoint.{BirpcCodec, BirpcCodecLaws, Call, calls}
use bimpc.Endpoint.Calls.{calls_keep_order, delivered_for_good}
use bimpc.Generic.{Connection, Codec, new_codec, read_message, write_message}
use bimpc.Generic.Read.{read_message-IsShared, read_message-keeps, read_message-IsOutOfReach}
use bimpc.Generic.Write.{write_message-IsShared, write_message-IsOutOfReach}

module _ {C R W Obj : Type 0} (n : Connection C R W)
    (as_marshaler : Value Obj → Option Marshaler) where
  abbrev pub generic_codec : BirpcCodec (Codec C R W) Obj
  generic_codec = record {
    wire = λ c. c.wire;
    read_message = read_message n;
    write_message = write_message n as_marshaler;
  }

module _ {C R W Obj : Type 0} (f : Format) (n : Connection C R W) (input : R → Bytes)
    (laws : DecoderLaws f n.decoder input) (as_marshaler : Value Obj → Option Marshaler)
    (appends : Appends as_marshaler) where
  generic_codec-BirpcCodecLaws : BirpcCodecLaws (generic_codec n as_marshaler)
  generic_codec-BirpcCodecLaws = record {
    read_ok = read_message-IsShared f n input laws;
    read_keeps = read_message-keeps f n input laws;
    read_delivers = read_message-IsOutOfReach f n input laws;
    write_ok = write_message-IsShared n as_marshaler appends;
    write_keeps = λ pick msg c s t shown h g.
        write_message-IsOutOfReach n as_marshaler appends pick msg c s h t shown g;
  }

  -- After any sequence of calls, failed ones included, the codec's message and the pool are in order:
  -- every pooled message is clean, has no large buffer, and shares no array with another or with the
  -- codec.
  pub calls-IsShared :
      (xs : List (Call Obj)) (c : Codec C R W) (s : Shared)
      → IsShared c.wire s
      → let (c', s') = calls (generic_codec n as_marshaler) xs c s in IsShared c'.wire s'
  calls-IsShared = calls_keep_order (generic_codec n as_marshaler) generic_codec-BirpcCodecLaws

  -- The payloads that a ReadMessage without error has delivered never change: after any sequence of
  -- further reads and writes on the codec, failed ones included, they show the same bytes.
  pub read_message-calls :
      (into : Request Obj) (xs : List (Call Obj)) (c : Codec C R W) (s : Shared)
      → IsShared c.wire s
      → (read_message n into c s).0 ≡ none
      → let (e, msg, c', s') = read_message n into c s in
        let (c'', s'') = calls (generic_codec n as_marshaler) xs c' s' in
        (payload s''.mem msg.args ≡ payload s'.mem msg.args)
        × (payload s''.mem msg.result ≡ payload s'.mem msg.result)
  read_message-calls =
      delivered_for_good (generic_codec n as_marshaler) generic_codec-BirpcCodecLaws

module _ {C R W : Type 0} (n : Connection C R W) where
  -- From NewCodec on the codec is in order, with any pool that is.
  pub new_codec-IsShared :
      (conn : C) (s : Shared) → IsPool s.mem s.pool → IsShared (new_codec n conn).wire s
  unfolding new_codec
  new_codec-IsShared conn s h = new_message-IsShared s h
