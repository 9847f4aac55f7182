-- ===== src/Chat/Delivery.antt =====
-- A broadcast on its way from the server to a client: endpoint.Go with an Outgoing, over the websocket
-- codec, and what the client hands to its method Message.
use mathlib.Core.List.{append-nil}
use bimpc.Common.{ℕ, ◌≡◌, refl, sym, ap, ◌∙◌, drop, Option, none, some, List, [], ◌∷◌, ◌++◌}
use bimpc.Memory.{Bytes}
use bimpc.Action.{GoError}
use bimpc.Msgp.{EncoderLaws, FlushLaws, DecoderLaws, received}
use bimpc.Mpc.{Request, Value, Marshaler, Unmarshaler}
use bimpc.Mpc.Gen.Form.{IsSendable}
use bimpc.Mpc.ToWire.{sent}
use bimpc.Mpc.Marshal.{Encodes}
use bimpc.Mpc.Unmarshal.{decoded, decoded-received}
use bimpc.Shared.{Shared, IsShared}
use bimpc.Websocket.{Socket, Codec, write_message, read_message, unmarshal_args}
use bimpc.Websocket.Read.{FrameReading}
use bimpc.Websocket.Write.{Sending, FrameWriting}
use bimpc.Websocket.Values.{args_arrived}
use bimpc.Maps.{MapFormat, MapFormatLaws, MapDecoder, MapDecoderLaws, MapAppender, MapAppenderLaws}
use bimpc.Maps.Schema.{value_form}
use bimpc.Chat.{Incoming, Outgoing}
use bimpc.Chat.Gen.{unmarshal_incoming, marshal_outgoing}
use bimpc.Chat.Gen.OfOutgoing.{IsOutgoing, outgoing_schema, marshal_outgoing_lem}
use bimpc.Chat.Gen.Crossing.{unmarshal_incoming-marshal_outgoing}

abbrev pub incoming_unmarshaler : MapDecoder Bytes → Unmarshaler Incoming
incoming_unmarshaler d b z = let (o, e, z') = unmarshal_incoming d b z in (e, z')

module _ (f : MapFormat) (format : MapFormatLaws f) (d : MapDecoder Bytes)
    (laws : MapDecoderLaws f d (λ b. b)) (a : MapAppender) (appends : MapAppenderLaws f a) where
  decoded-outgoing :
      (z : Outgoing) (old : Incoming)
      → IsOutgoing z
      → decoded (incoming_unmarshaler d) (received (marshal_outgoing a z [])) old
        ≡ (none, record { from = z.from; message = z.message })
  decoded-outgoing z old fits =
      let u = incoming_unmarshaler d in
      let form = marshal_outgoing a z [] in
      let passed_on : decoded u (received form) old ≡ u form old =
        rw (marshal_outgoing_lem f a appends z [])
          (decoded-received u 0x83 0xa4 (drop 2 (value_form (outgoing_schema f) z)) old) in
      passed_on
      ∙ ap (λ b. u b old) (sym (append-nil form))
      ∙ ap (λ (t : Bytes × Option GoError × Incoming). (t.1, t.2))
          (unmarshal_incoming-marshal_outgoing f format d laws a appends z old [] fits)

module _ {Ws Src Dst R W Obj : Type 0} (f : MapFormat) (format : MapFormatLaws f)
    (n : Socket Ws Src Dst R W) (input : Ws × R → Bytes)
    (reads : DecoderLaws f.base n.decoder input) (frames : Ws → List (ℕ × Bytes))
    (reading : FrameReading n input frames) (v : Sending Ws Dst) (output : Ws × W → Bytes)
    (writing : FrameWriting n v output) (encodes : EncoderLaws f.base n.encoder output)
    (flushes : FlushLaws n.encoder output (λ x. v.frame x.0))
    (as_marshaler : Value Obj → Option Marshaler) (d : MapDecoder Bytes)
    (decodes : MapDecoderLaws f d (λ b. b)) (a : MapAppender) (appends : MapAppenderLaws f a) where
  -- The server writes a call with an Outgoing as arguments without an error, and the frame that it has
  -- sent is the next one at the client, where both are codecs over websockets. Then the client reads
  -- the call without an error, and UnmarshalArgs makes an Incoming of the arguments that has the sender
  -- and the message of the Outgoing, whatever it held before.
  pub broadcast_arrived :
      (pick : ℕ) (m : Outgoing) (old : Incoming) (msg into : Request Obj) (frame : Bytes)
      (later : List (ℕ × Bytes)) (server client : Codec Ws R W) (s t : Shared)
      → IsOutgoing m
      → IsShared server.wire s
      → IsShared client.wire t
      → Encodes as_marshaler msg.args (marshal_outgoing a m [])
      → msg.result ≡ none
      → IsSendable f.base (sent msg (marshal_outgoing a m []) [])
      → (write_message n as_marshaler pick msg server s).0 ≡ none
      → v.frames (write_message n as_marshaler pick msg server s).1.ws
        ≡ v.frames server.ws ++ (frame ∷ [])
      → frames client.ws ≡ (n.binary_message, frame) ∷ later
      → let (e, got, client', t') = read_message n into client t in
        (e ≡ none)
        × (unmarshal_args (some (incoming_unmarshaler d)) t'.mem got old
            ≡ (none, record { from = m.from; message = m.message }))
  broadcast_arrived pick m old msg into frame later server client s t fits hs hc ea er sendable done
        link next =
      let (ok_read, got) =
        args_arrived f.base n input reads frames reading v output writing encodes flushes
          as_marshaler (incoming_unmarshaler d) old pick msg into (marshal_outgoing a m []) [] frame
          later server client s t hs hc ea (no_result er) sendable done link next in
      (ok_read, got ∙ decoded-outgoing f format d decodes a appends m old fits)
    where
      no_result : msg.result ≡ none → Encodes as_marshaler msg.result []
      no_result e = rw e refl
