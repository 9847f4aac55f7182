-- ===== src/Tests/Generic.antt =====
-- The theorems about generic at concrete inputs, over the reader and writer of Sample.antt.
use bimpc.Common.{◌≡◌, refl, inr, Option, some, List, [], ◌∷◌, ◌++◌}
use bimpc.Action.{errorf, foreign}
use bimpc.Mpc.{obj, Request, Marshaler, Value}
use bimpc.Mpc.HandOver.{payload}
use bimpc.Mpc.ToWire.{sent}
use bimpc.Shared.{IsShared}
use bimpc.Generic.{read_message, write_message}
use bimpc.Generic.Read.{read_message_lem}
use bimpc.Generic.Write.{write_message-refused}
use bimpc.Endpoint.{Call, read, write, calls}
use bimpc.Generic.Trace.{generic_codec, calls-IsShared, read_message-calls}
use bimpc.Sample.{sample_format, sample_connection, Item, plain, item_marshaler}
use bimpc.Sample.Laws.{sample_decoder-DecoderLaws, item_marshaler-Appends}
use bimpc.Tests.{
  question, no_request, hi_form, answer_form, start, start-IsShared, question-IsSendable, codec,
  asked,
}

abbrev plain_question : Request Item
plain_question = record question { args = some (obj plain) }

-- A type whose MarshalMsg always fails.
abbrev failing : Marshaler
failing buf mem = (buf, some (foreign 9), mem)

abbrev failing_marshaler : Value Item → Option Marshaler
failing_marshaler v = some failing

write_message-refused_example :
    let (e, c', s') =
      write_message sample_connection failing_marshaler 0 plain_question (codec []) start in
    (e ≡ some (errorf "marshaling args" (foreign 9))) × (c' ≡ codec [])
write_message-refused_example =
    write_message-refused sample_connection failing_marshaler 0 plain_question (foreign 9)
      (codec []) start (inr (failing, refl, λ buf mem. refl))

-- A read of the rest of the input, a write, a refused write, and a read at the end of the input.
abbrev more_calls : List (Call Item)
more_calls = read no_request ∷ write 0 question ∷ write 5 plain_question ∷ read no_request ∷ []

read_message-calls_example :
    let (e, msg, c', s') =
      read_message sample_connection no_request (codec (asked ++ answer_form)) start in
    let (c'', s'') = calls (generic_codec sample_connection item_marshaler) more_calls c' s' in
    (payload s''.mem msg.args ≡ payload s'.mem msg.args)
    × (payload s''.mem msg.result ≡ payload s'.mem msg.result)
read_message-calls_example =
    read_message-calls sample_format sample_connection (λ b. b) sample_decoder-DecoderLaws
      item_marshaler item_marshaler-Appends no_request more_calls (codec (asked ++ answer_form))
      start start-IsShared
      (read_message_lem sample_format sample_connection (λ b. b) sample_decoder-DecoderLaws
        (sent question hi_form []) answer_form no_request (codec (asked ++ answer_form)) start
        question-IsSendable start-IsShared refl).0

calls-IsShared_example :
    let (c', s') =
      calls
        (generic_codec sample_connection item_marshaler)
        more_calls
        (codec (asked ++ answer_form))
        start in
    IsShared c'.wire s'
calls-IsShared_example =
    calls-IsShared sample_format sample_connection (λ b. b) sample_decoder-DecoderLaws
      item_marshaler item_marshaler-Appends more_calls (codec (asked ++ answer_form)) start
      start-IsShared
