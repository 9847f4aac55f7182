-- ===== src/Tests/Stream.antt =====
-- Two messages over the connection of Sample.antt, one after the other.
use bimpc.Common.{◌≡◌, refl, inl, inr, none, some, List, [], ◌∷◌, ◌++◌, arith}
use bimpc.Memory.{Bytes}
use bimpc.Mpc.{Request, obj, to_wire, get_message, put_message}
use bimpc.Mpc.Gen.{encode_message}
use bimpc.Mpc.Gen.Form.{IsSendable, message_form, received_content}
use bimpc.Shared.{pooled}
use bimpc.Generic.{write_message}
use bimpc.Shared.Letter.{IsWritten, write_all, Letter, content_of}
use bimpc.Generic.Stream.{read_all, write_all-read_all}
use bimpc.Sample.{
  sample_format, sample_connection, Item, text, text_form, item_marshaler, big_endian, append_form,
}
use bimpc.Sample.Objects.{skip_object}
use bimpc.Sample.Laws.{
  sample_decoder-DecoderLaws, sample_encoder-EncoderLaws, sample_encoder-FlushLaws,
  sample_encoder-kept, sink_output, text-Encodes, item_marshaler-Appends,
}
use bimpc.Tests.{
  question, no_request, hi_form, sink, start, start-IsShared, question-IsSendable, codec,
}

abbrev pub farewell : Request Item
farewell = record {
  id = 8;
  func = b's' ∷ [];
  args = some (obj (text (b'o' ∷ [])));
  result = none;
  error = none;
}

abbrev pub first_letter : Letter Item
first_letter = record { msg = question; args = hi_form; result = []; pick = 0 }

abbrev pub second_letter : Letter Item
second_letter = record { msg = farewell; args = text_form (b'o' ∷ []); result = []; pick = 5 }

abbrev pub letters : List (Letter Item)
letters = first_letter ∷ second_letter ∷ []

abbrev letters_form : Bytes
letters_form =
    message_form sample_format (content_of first_letter)
    ++ message_form sample_format (content_of second_letter)

pub farewell-IsSendable : IsSendable sample_format (content_of second_letter)
unfolding skip_object big_endian
farewell-IsSendable = record {
  id_bound = omega arith;
  func_bound = omega arith;
  args_object = inr (refl, λ rest. refl);
  result_object = inl refl;
  error_bound = tt;
}

letters-IsWritten :
    IsWritten (write_message sample_connection item_marshaler) letters (codec []) start
unfolding write_message pooled to_wire item_marshaler append_form encode_message get_message
letters-IsWritten = (refl, (refl, tt))

letters_link :
    (write_all (write_message sample_connection item_marshaler) letters (codec []) start).0.w.got
    ≡ sink_output sink ++ letters_form
unfolding write_message pooled to_wire item_marshaler append_form encode_message big_endian
    get_message put_message
letters_link = refl

write_all-read_all_example :
    read_all sample_connection (no_request ∷ question ∷ []) (codec letters_form) start
    ≡ (none, received_content (content_of first_letter))
      ∷ (none, received_content (content_of second_letter))
      ∷ []
write_all-read_all_example =
    write_all-read_all sample_format sample_connection sink_output (λ w. w.got)
      sample_encoder-EncoderLaws sample_encoder-FlushLaws sample_encoder-kept item_marshaler
      item_marshaler-Appends (λ b. b) sample_decoder-DecoderLaws letters
      (no_request ∷ question ∷ []) (codec []) (codec letters_form) start start
      (
        (text-Encodes (b'h' ∷ b'i' ∷ []), refl, question-IsSendable),
        ((text-Encodes (b'o' ∷ []), refl, farewell-IsSendable), tt),
      )
      refl start-IsShared start-IsShared letters-IsWritten letters_link
