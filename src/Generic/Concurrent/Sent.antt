-- ===== src/Generic/Concurrent/Sent.antt =====
-- What reaches the connection when several goroutines write.
use mathlib.Core.List.{append_assoc, append-nil}
use bimpc.Common.{ℕ, ◌≡◌, refl, sym, ap, ◌∙◌, Option, none, List, [], ◌∷◌, ◌++◌, All}
use bimpc.Memory.{Bytes}
use bimpc.Msgp.{DecoderLaws, EncoderLaws, FlushLaws, Format}
use bimpc.Mpc.{Request, Value, Marshaler}
use bimpc.Mpc.Gen.Form.{message_form}
use bimpc.Mpc.ToWire.{sent}
use bimpc.Mpc.Marshal.{Encodes}
use bimpc.Mpc.Appending.{Appends}
use bimpc.Shared.Sending.{encode_flush_lem}
use bimpc.Generic.{Connection, send, read_message}
use bimpc.Generic.Concurrent.{
  Writer, outside, taken, filled, finished, System, Step, begins, fills, sends, returns, reads,
  begin, put_back, locked_send, fill, take_step, take_steps,
}
use bimpc.Generic.Concurrent.Invariant.{IsSystem, IsSaying, take_step-IsSystem}

abbrev pub to_hand_over : {Obj : Type 0} → Writer Obj → List (Request Obj)
to_hand_over (outside e) = []
to_hand_over (taken msg m) = []
to_hand_over (filled msg m) = msg ∷ []
to_hand_over (finished e m) = []

module _ {C R W Obj : Type 0} where
  abbrev pub handed_by : Step Obj → System C R W Obj → List (Request Obj)
  handed_by (begins i pick msg) s = []
  handed_by (fills i) s = []
  handed_by (sends i) s = to_hand_over (s.writers i)
  handed_by (returns i) s = []
  handed_by (reads into) s = []

  module _ (n : Connection C R W) where
    -- EncodeMsg and Flush return no error.
    abbrev IsSentFrom : Writer Obj → System C R W Obj → Type 0
    IsSentFrom (outside e) s = Unit
    IsSentFrom (taken msg m) s = Unit
    IsSentFrom (filled msg m) s = (send n s.shared.mem m s.codec.w).0 ≡ none
    IsSentFrom (finished e m) s = Unit

    abbrev IsSentBy : Step Obj → System C R W Obj → Type 0
    IsSentBy (begins i pick msg) s = Unit
    IsSentBy (fills i) s = Unit
    IsSentBy (sends i) s = IsSentFrom (s.writers i) s
    IsSentBy (returns i) s = Unit
    IsSentBy (reads into) s = Unit

    module _ (as_marshaler : Value Obj → Option Marshaler) where
      -- The messages that are handed to the writer, in the order of the locks.
      abbrev pub handed_over : List (Step Obj) → System C R W Obj → List (Request Obj)
      handed_over [] s = []
      handed_over (x ∷ xs) s = handed_by x s ++ handed_over xs (take_step n as_marshaler x s)

      -- No message fails to be sent once it is filled in.
      abbrev pub AreSent : List (Step Obj) → System C R W Obj → Type 0
      AreSent [] s = Unit
      AreSent (x ∷ xs) s = IsSentBy x s × AreSent xs (take_step n as_marshaler x s)

module _ {Obj : Type 0} (f : Format) (payloads : Request Obj → Bytes × Bytes) where
  abbrev pub forms : List (Request Obj) → Bytes
  forms [] = []
  forms (msg ∷ msgs) = message_form f (sent msg (payloads msg).0 (payloads msg).1) ++ forms msgs

  forms-append : (xs ys : List (Request Obj)) → forms (xs ++ ys) ≡ forms xs ++ forms ys
  forms-append [] ys = refl
  forms-append (x ∷ xs) ys =
      ap (λ b. message_form f (sent x (payloads x).0 (payloads x).1) ++ b) (forms-append xs ys)
      ∙ sym (
          append_assoc (message_form f (sent x (payloads x).0 (payloads x).1)) (forms xs)
            (forms ys))

All-left : {A : Type 0} (P : A → Type 0) (xs ys : List A) → All P (xs ++ ys) → All P xs
All-left P [] ys h = tt
All-left P (x ∷ xs) ys h = (h.0, All-left P xs ys h.1)

All-right : {A : Type 0} (P : A → Type 0) (xs ys : List A) → All P (xs ++ ys) → All P ys
All-right P [] ys h = h
All-right P (x ∷ xs) ys h = All-right P xs ys h.1

-- `payloads` says what the payloads of the message encode to.
abbrev pub IsEncoded :
    {Obj : Type 0}
    → (Value Obj → Option Marshaler)
    → (Request Obj → Bytes × Bytes)
    → Request Obj
    → Type 0
IsEncoded as_marshaler payloads msg =
    Encodes as_marshaler msg.args (payloads msg).0
    × Encodes as_marshaler msg.result (payloads msg).1

module _ {C R W Obj : Type 0} (f : Format) (n : Connection C R W) (output sent_out : W → Bytes)
    (encodes : EncoderLaws f n.encoder output) (flushes : FlushLaws n.encoder output sent_out)
    (keeps : FlushLaws n.encoder output output) (input : R → Bytes)
    (reads_in : DecoderLaws f n.decoder input) (as_marshaler : Value Obj → Option Marshaler)
    (appends : Appends as_marshaler) (payloads : Request Obj → Bytes × Bytes) where
  -- Nothing is left in the msgp.Writer, and the connection has got `b`.
  abbrev IsOut : Bytes → W → Type 0
  IsOut b w = (output w ≡ b) × (sent_out w ≡ b)

  send-IsOut :
      (i : ℕ) (x : Writer Obj) (b : Bytes) (s : System C R W Obj)
      → IsSaying as_marshaler s.shared.mem x
      → IsSentFrom n x s
      → All (IsEncoded as_marshaler payloads) (to_hand_over x)
      → IsOut b s.codec.w
      → IsOut (b ++ forms f payloads (to_hand_over x)) (locked_send n i x s).codec.w
  unfolding locked_send send
  send-IsOut i (outside e) b s says done enc out = rw (append-nil b) out
  send-IsOut i (taken msg m) b s says done enc out = rw (append-nil b) out
  send-IsOut i (filled msg m) b s says done enc out =
      let form = says (payloads msg).0 (payloads msg).1 enc.0.0 enc.0.1 in
      let arrived = λ (o : W → Bytes) (law : FlushLaws n.encoder output o).
        encode_flush_lem f n.encoder output o encodes law s.shared.mem m s.codec.w done
        ∙ ap (λ c. output s.codec.w ++ message_form f c) form
        ∙ ap (λ y. y ++ message_form f (sent msg (payloads msg).0 (payloads msg).1)) out.0
        ∙ ap (λ y. b ++ y)
            (sym (append-nil (message_form f (sent msg (payloads msg).0 (payloads msg).1)))) in
      (arrived output keeps, arrived sent_out flushes)
  send-IsOut i (finished e m) b s says done enc out = rw (append-nil b) out

  begin-w :
      (i pick : ℕ) (msg : Request Obj) (x : Writer Obj) (s : System C R W Obj)
      → (begin i pick msg x s).codec.w ≡ s.codec.w
  unfolding begin
  begin-w i pick msg (outside e) s = refl
  begin-w i pick msg (taken msg' m) s = refl
  begin-w i pick msg (filled msg' m) s = refl
  begin-w i pick msg (finished e m) s = refl

  fill-w :
      (i : ℕ) (x : Writer Obj) (s : System C R W Obj)
      → (fill n as_marshaler i x s).codec.w ≡ s.codec.w
  unfolding fill
  fill-w i (outside e) s = refl
  fill-w i (taken msg m) s = refl
  fill-w i (filled msg m) s = refl
  fill-w i (finished e m) s = refl

  put_back-w :
      (i : ℕ) (x : Writer Obj) (s : System C R W Obj) → (put_back i x s).codec.w ≡ s.codec.w
  unfolding put_back
  put_back-w i (outside e) s = refl
  put_back-w i (taken msg m) s = refl
  put_back-w i (filled msg m) s = refl
  put_back-w i (finished e m) s = refl

  -- A step that leaves the writer alone.
  same-IsOut : (b : Bytes) (w w' : W) → w' ≡ w → IsOut b w → IsOut (b ++ []) w'
  same-IsOut b w w' e out = rw (append-nil b, e) out

  take_step-IsOut :
      (x : Step Obj) (b : Bytes) (s : System C R W Obj)
      → IsSystem as_marshaler s
      → IsSentBy n x s
      → All (IsEncoded as_marshaler payloads) (handed_by x s)
      → IsOut b s.codec.w
      → IsOut (b ++ forms f payloads (handed_by x s)) (take_step n as_marshaler x s).codec.w
  unfolding take_step read_message
  take_step-IsOut (begins i pick msg) b s h done enc out =
      same-IsOut b s.codec.w _ (begin-w i pick msg (s.writers i) s) out
  take_step-IsOut (fills i) b s h done enc out =
      same-IsOut b s.codec.w _ (fill-w i (s.writers i) s) out
  take_step-IsOut (sends i) b s h done enc out =
      send-IsOut i (s.writers i) b s (h.saying i) done enc out
  take_step-IsOut (returns i) b s h done enc out =
      same-IsOut b s.codec.w _ (put_back-w i (s.writers i) s) out
  take_step-IsOut (reads into) b s h done enc out = same-IsOut b s.codec.w s.codec.w refl out

  -- Any number of goroutines call WriteMessage, and their steps and those of ReadMessage come in any
  -- order, whichever messages the pool gives out. Where no message fails to be sent once ToWire has
  -- accepted it, the connection gets, behind what it had, the forms of birpc's messages in the order in
  -- which their goroutines hold the lock, each as a whole and none mixed with another, although all of
  -- them use the buffers of one pool. At the start the msgp.Writer holds nothing back.
  pub take_steps-forms :
      (xs : List (Step Obj)) (b : Bytes) (s : System C R W Obj)
      → IsSystem as_marshaler s
      → output s.codec.w ≡ b
      → sent_out s.codec.w ≡ b
      → AreSent n as_marshaler xs s
      → All (IsEncoded as_marshaler payloads) (handed_over n as_marshaler xs s)
      → sent_out (take_steps n as_marshaler xs s).codec.w
        ≡ b ++ forms f payloads (handed_over n as_marshaler xs s)
  unfolding take_steps
  take_steps-forms [] b s h o so done enc = so ∙ sym (append-nil b)
  take_steps-forms (x ∷ xs) b s h o so (now, later) enc =
      let s' = take_step n as_marshaler x s in
      let rest = handed_over n as_marshaler xs s' in
      let (o', so') =
        take_step-IsOut x b s h now
          (All-left (IsEncoded as_marshaler payloads) (handed_by x s) rest enc) (o, so) in
      take_steps-forms xs (b ++ forms f payloads (handed_by x s)) s'
        (take_step-IsSystem f n input reads_in as_marshaler appends x s h) o' so' later
        (All-right (IsEncoded as_marshaler payloads) (handed_by x s) rest enc)
      ∙ append_assoc b (forms f payloads (handed_by x s)) (forms f payloads rest)
      ∙ ap (λ y. b ++ y) (sym (forms-append f payloads (handed_by x s) rest))
