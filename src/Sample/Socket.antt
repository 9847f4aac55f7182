-- ===== src/Sample/Socket.antt =====
-- A socket that meets the laws of Websocket: frames to read, frames that were sent, and the one that is
-- being written.
use bimpc.Common.{ℕ, refl, sym, ap, inl, Option, none, some, List, [], ◌∷◌, ◌++◌}
use mathlib.Core.List.{append_assoc}
use bimpc.Memory.{Bytes, Memory, Slice}
use bimpc.Action.{GoError, foreign}
use bimpc.Msgp.{
  Decoder, Encoder, DecoderLaws, EncoderLaws, FlushLaws, Format, Reads, nil_form, payload_form,
  array_form,
}
use bimpc.Websocket.{Socket}
use bimpc.Websocket.Read.{FrameReading}
use bimpc.Websocket.Stream.{FrameOrder}
use bimpc.Websocket.Write.{Sending, FrameWriting}
use bimpc.Sample.{sample_format, sample_decoder, text_form}
use bimpc.Sample.Laws.{sample_decoder-DecoderLaws}

pub record SampleSocket : Type 0 where
  pub incoming : List (ℕ × Bytes)
  pub sent_frames : List Bytes
  pub writer : Option ℕ
  pub frame : Bytes

-- A read that leaves the other half of the state alone.
abbrev lift : {X A R : Type 0} → (R → A × Option GoError × R) → X × R → A × Option GoError × (X × R)
lift op (x, r) = let (a, e, r') = op r in (a, e, (x, r'))

abbrev lift_raw :
    {X R : Type 0}
    → (Slice → Memory → R → Slice × Option GoError × Memory × R)
    → Slice
    → Memory
    → X × R
    → Slice × Option GoError × Memory × (X × R)
lift_raw op s mem (x, r) = let (s', e, mem', r') = op s mem r in (s', e, mem', (x, r'))

abbrev lift_nil : {X A R : Type 0} → (R → A × R) → X × R → A × (X × R)
lift_nil op (x, r) = let (a, r') = op r in (a, (x, r'))

abbrev lift_decoder : {X R : Type 0} → Decoder R → Decoder (X × R)
lift_decoder d = record {
  wrap_error = d.wrap_error;
  read_array_header = lift d.read_array_header;
  read_uint64 = lift d.read_uint64;
  read_string = lift d.read_string;
  is_nil = lift_nil d.is_nil;
  read_nil = lift_nil d.read_nil;
  read_raw = lift_raw d.read_raw;
}

module _ {X R : Type 0} (f : Format) (d : Decoder R) (input : R → Bytes)
    (laws : DecoderLaws f d input) where
  lift-Reads :
      {A : Type 0} (op : R → A × Option GoError × R) (enc : Bytes) (v : A)
      → Reads input op enc v
      → Reads {R = X × R} (λ x. input x.1) (lift op) enc v
  lift-Reads op enc v reads (x, r) rest i =
      let (r', e, i') = reads r rest i in ((x, r'), ap (λ t. (t.0, t.1, (x, t.2))) e, i')

  lift_decoder-DecoderLaws : DecoderLaws f (lift_decoder {X = X} d) (λ x. input x.1)
  lift_decoder-DecoderLaws = record {
    array_header = λ n h. lift-Reads d.read_array_header (array_form n) n (laws.array_header n h);
    uint64 = λ v h. lift-Reads d.read_uint64 _ v (laws.uint64 v h);
    string = λ s h. lift-Reads d.read_string _ s (laws.string s h);
    is_nil = λ x c rest i.
        let (r', e, i') = laws.is_nil x.1 c rest i in
        ((x.0, r'), ap (λ t. (t.0, (x.0, t.1))) e, i');
    nil = λ x rest i.
        let (r', e, i') = laws.nil x.1 rest i in ((x.0, r'), ap (λ t. (t.0, (x.0, t.1))) e, i');
    raw = λ s mem x p rest. laws.raw s mem x.1 p rest;
    raw_writes = λ s mem x. laws.raw_writes s mem x.1;
  }

abbrev put : Bytes → SampleSocket × Bytes → Option GoError × (SampleSocket × Bytes)
put b (ws, w) = (none, (ws, w ++ b))

abbrev frame_encoder : Encoder (SampleSocket × Bytes)
frame_encoder = record {
  wrap_error = λ ctx e. e;
  append = put;
  write_uint64 = λ v. put (sample_format.uint64 v);
  write_string = λ s. put (text_form s);
  write_nil = put nil_form;
  write_raw = λ p. put (payload_form p);
  flush = λ x. (none, (record x.0 { frame = x.0.frame ++ x.1 }, []));
}

abbrev next_frame : SampleSocket → List (ℕ × Bytes) → ℕ × Bytes × Option GoError × SampleSocket
next_frame ws [] = (0, [], some (foreign 3), ws)
next_frame ws ((mt, b) ∷ rest) = (mt, b, none, record ws { incoming = rest })

-- The reader of a frame is its bytes, and the writer its number.
abbrev pub sample_socket : Socket SampleSocket Bytes ℕ Bytes Bytes
sample_socket = record {
  decoder = lift_decoder sample_decoder;
  encoder = frame_encoder;
  binary_message = 2;
  next_reader = λ ws. next_frame ws ws.incoming;
  reset_reader = λ src r. src;
  next_writer = λ mt ws. (7, none, record ws { writer = some 7; frame = [] });
  reset_writer = λ dst w. [];
  close_frame = λ dst ws.
      (none, record ws { writer = none; sent_frames = ws.sent_frames ++ (ws.frame ∷ []) });
  close = λ ws. (none, ws);
  new_reader = [];
  new_writer = [];
}

pub sample_socket-DecoderLaws :
    DecoderLaws sample_format sample_socket.decoder (λ (x : SampleSocket × Bytes). x.1)
sample_socket-DecoderLaws =
    lift_decoder-DecoderLaws sample_format sample_decoder (λ b. b) sample_decoder-DecoderLaws

pub sample_socket-FrameReading : FrameReading sample_socket (λ x. x.1) (λ ws. ws.incoming)
sample_socket-FrameReading = record {
  next = λ ws mt b rest e. (b, record ws { incoming = rest }, ap (next_frame ws) e, λ r. refl);
}

pub sample_socket-FrameOrder : FrameOrder sample_socket (λ ws. ws.incoming)
sample_socket-FrameOrder = record {
  takes = λ ws mt b later e. ap (λ x. (next_frame ws x).3.incoming) e;
  keeps = λ later. record {
    array_header = λ rd i. i;
    uint64 = λ rd i. i;
    string = λ rd i. i;
    is_nil = λ rd i. i;
    nil = λ rd i. i;
    raw = λ s mem rd i. i;
  };
}

abbrev pub sample_sending : Sending SampleSocket ℕ
sample_sending = record {
  frames = λ ws. ws.sent_frames;
  open_writer = λ ws. ws.writer;
  frame = λ ws. ws.frame;
}

abbrev pub frame_output : SampleSocket × Bytes → Bytes
frame_output (ws, w) = ws.frame ++ w

pub sample_socket-EncoderLaws : EncoderLaws sample_format sample_socket.encoder frame_output
sample_socket-EncoderLaws = record {
  append = λ b x h. sym (append_assoc x.0.frame x.1 b);
  uint64 = λ v x h. sym (append_assoc x.0.frame x.1 (sample_format.uint64 v));
  string = λ s x h. sym (append_assoc x.0.frame x.1 (text_form s));
  nil = λ x h. sym (append_assoc x.0.frame x.1 _);
  raw = λ p x h. sym (append_assoc x.0.frame x.1 (payload_form p));
}

pub sample_socket-FlushLaws : FlushLaws sample_socket.encoder frame_output (λ x. x.0.frame)
sample_socket-FlushLaws = record { flush = λ x h. refl }

pub sample_socket-FrameWriting : FrameWriting sample_socket sample_sending frame_output
sample_socket-FrameWriting = record {
  opens = λ ws w h. (refl, (inl refl, refl));
  opens_none = λ ws h. absurd (h refl);
  keeps = λ dst fs. record {
    append = λ b x h. h;
    uint64 = λ v x h. h;
    string = λ s x h. h;
    nil = λ x h. h;
    raw = λ p x h. h;
    flush = λ x h. h;
  };
  closes = λ dst fs ws h. refl;
  sends = λ dst fs ws h done. ap (λ t. t ++ (ws.frame ∷ [])) h.1;
}
