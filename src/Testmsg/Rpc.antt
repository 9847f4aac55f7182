-- ===== src/Testmsg/Rpc.antt =====
-- Arith.Add over the generic codec: the arguments on their way to the server, and the result on its
-- way back.
use bimpc.Common.{ℕ, ◌+◌, ◌%◌, ◌^◌, ◌≡◌, refl, sym, ap, ◌∙◌, drop, Option, none, some, [], ◌++◌}
use mathlib.Core.List.{append-nil}
use bimpc.Memory.{Bytes}
use bimpc.Action.{GoError}
use bimpc.Msgp.{EncoderLaws, FlushLaws, DecoderLaws, received}
use bimpc.Mpc.{Request, Value, Marshaler, Unmarshaler}
use bimpc.Mpc.Gen.Form.{IsSendable}
use bimpc.Mpc.ToWire.{sent}
use bimpc.Mpc.Marshal.{Encodes}
use bimpc.Mpc.Unmarshal.{decoded, decoded-received}
use bimpc.Shared.{Shared, IsShared}
use bimpc.Generic.{Connection, Codec, write_message, read_message, unmarshal_args, unmarshal_result}
use bimpc.Generic.Values.{write-read-unmarshal}
use bimpc.Maps.{MapFormat, MapDecoder, MapDecoderLaws, MapAppender, MapAppenderLaws}
use bimpc.Maps.Schema.{value_form}
use bimpc.Testmsg.{Args, Result, Arith, get, add, inc}
use bimpc.Testmsg.Gen
use bimpc.Testmsg.Gen.{marshal_args, marshal_result}
use bimpc.Testmsg.Gen.OfArgs.{IsArgs, args_schema, marshal_args_lem, unmarshal_args-value_form}
use bimpc.Testmsg.Gen.OfResult.{
  IsResult, result_schema, marshal_result_lem, unmarshal_result-value_form,
}

abbrev pub args_unmarshaler : MapDecoder Bytes → Unmarshaler Args
args_unmarshaler d b z = let (o, e, z') = Gen.unmarshal_args d b z in (e, z')

abbrev pub result_unmarshaler : MapDecoder Bytes → Unmarshaler Result
result_unmarshaler d b z = let (o, e, z') = Gen.unmarshal_result d b z in (e, z')

module _ (f : MapFormat) (d : MapDecoder Bytes) (laws : MapDecoderLaws f d (λ b. b))
    (a : MapAppender) (appends : MapAppenderLaws f a) where
  decoded-args :
      (z old : Args)
      → IsArgs z
      → decoded (args_unmarshaler d) (received (marshal_args a z [])) old ≡ (none, z)
  decoded-args z old fits = rw (marshal_args_lem f a appends z []) (
      decoded-received (args_unmarshaler d) 0x83 0xa1 (drop 2 (value_form (args_schema f) z)) old
      ∙ ap (λ b. args_unmarshaler d b old) (sym (append-nil (value_form (args_schema f) z)))
      ∙ ap (λ (t : Bytes × Option GoError × Args). (t.1, t.2))
          (unmarshal_args-value_form f d laws old z [] fits))

  decoded-result :
      (z old : Result)
      → IsResult z
      → decoded (result_unmarshaler d) (received (marshal_result a z [])) old ≡ (none, z)
  decoded-result z old fits = rw (marshal_result_lem f a appends z []) (
      decoded-received (result_unmarshaler d) 0x82 0xa1 (drop 2 (value_form (result_schema f) z))
        old
      ∙ ap (λ b. result_unmarshaler d b old) (sym (append-nil (value_form (result_schema f) z)))
      ∙ ap (λ (t : Bytes × Option GoError × Result). (t.1, t.2))
          (unmarshal_result-value_form f d laws old z [] fits))

module _ {C R W Obj : Type 0} (f : MapFormat) (n : Connection C R W) (output sent_out : W → Bytes)
    (laws : EncoderLaws f.base n.encoder output) (flushes : FlushLaws n.encoder output sent_out)
    (as_marshaler : Value Obj → Option Marshaler) (input : R → Bytes)
    (reads : DecoderLaws f.base n.decoder input) (d : MapDecoder Bytes)
    (decodes : MapDecoderLaws f d (λ b. b)) (a : MapAppender) (appends : MapAppenderLaws f a) where
  -- A request with Args that is written at one end of a connection without error and read at the other
  -- end: UnmarshalArgs returns no error and the arguments as they were sent, whatever its target held,
  -- and Add then returns no error, their sum modulo 2^64 and their text, and counts the call.
  pub add_arrived :
      (pick : ℕ) (args old : Args) (reply : Result) (service : Arith) (msg into : Request Obj)
      (client server : Codec C R W) (s t : Shared)
      → IsArgs args
      → IsShared client.wire s
      → IsShared server.wire t
      → Encodes as_marshaler msg.args (marshal_args a args [])
      → msg.result ≡ none
      → IsSendable f.base (sent msg (marshal_args a args []) [])
      → (write_message n as_marshaler pick msg client s).0 ≡ none
      → sent_out (write_message n as_marshaler pick msg client s).1.w
        ≡ output client.w ++ input server.r
      → let (e, got, server', t') = read_message n into server t in
        let (e', args') = unmarshal_args (some (args_unmarshaler d)) t'.mem got old in
        let (e'', reply', service') = add args' reply service in
        (e ≡ none)
        × (e' ≡ none)
        × (args' ≡ args)
        × (e'' ≡ none)
        × (reply' ≡ record { c = (args.a + args.b) % 2 ^ 64; s = args.s })
        × (get service'.calls ≡ (get service.calls + 1) % 2 ^ 64)
  unfolding add inc get
  add_arrived pick args old reply service msg into client server s t fits hc hs ea er sendable done
        link =
      let (ok_read, got_args, _) =
        write-read-unmarshal f.base n output sent_out laws flushes as_marshaler input reads
          (args_unmarshaler d) (args_unmarshaler d) old old pick msg into (marshal_args a args [])
          [] client server s t hc hs ea (no_result er) sendable done link in
      let fields = got_args ∙ decoded-args f d decodes a appends args old fits in
      let same_args = ap (λ (x : Option GoError × Args). x.1) fields in
      (
        ok_read,
        ap (λ (x : Option GoError × Args). x.0) fields,
        same_args,
        refl,
        ap (λ (x : Args). record { c = (x.a + x.b) % 2 ^ 64; s = x.s }) same_args,
        refl,
      )
    where
      no_result : msg.result ≡ none → Encodes as_marshaler msg.result []
      no_result e = rw e refl

  -- An answer with a Result that is written by the server without error and read by the client:
  -- UnmarshalResult returns no error and the result as it was sent, whatever its target held.
  pub result_arrived :
      (pick : ℕ) (result old : Result) (msg into : Request Obj) (server client : Codec C R W)
      (s t : Shared)
      → IsResult result
      → IsShared server.wire s
      → IsShared client.wire t
      → msg.args ≡ none
      → Encodes as_marshaler msg.result (marshal_result a result [])
      → IsSendable f.base (sent msg [] (marshal_result a result []))
      → (write_message n as_marshaler pick msg server s).0 ≡ none
      → sent_out (write_message n as_marshaler pick msg server s).1.w
        ≡ output server.w ++ input client.r
      → let (e, got, client', t') = read_message n into client t in
        (e ≡ none)
        × (unmarshal_result (some (result_unmarshaler d)) t'.mem got old ≡ (none, result))
  result_arrived pick result old msg into server client s t fits hs hc ea er sendable done link =
      let (ok_read, _, got_result) =
        write-read-unmarshal f.base n output sent_out laws flushes as_marshaler input reads
          (result_unmarshaler d) (result_unmarshaler d) old old pick msg into []
          (marshal_result a result []) server client s t hs hc (no_args ea) er sendable done link in
      (ok_read, got_result ∙ decoded-result f d decodes a appends result old fits)
    where
      no_args : msg.args ≡ none → Encodes as_marshaler msg.args []
      no_args e = rw e refl
