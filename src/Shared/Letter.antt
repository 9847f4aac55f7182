-- ===== src/Shared/Letter.antt =====
-- Messages to be written one after the other, for the codecs alike.
use mathlib.Core.List.{append_assoc, append-nil}
use bimpc.Common.{All}
use bimpc.Common.{ℕ, ◌≡◌, sym, ap, ◌∙◌, Option, none, List, [], ◌∷◌, ◌++◌}
use bimpc.Memory.{Bytes}
use bimpc.Action.{GoError}
use bimpc.Msgp.{Format}
use bimpc.Mpc.{Request, Value, Marshaler}
use bimpc.Mpc.Gen.Form.{IsSendable, Content, received_content}
use bimpc.Mpc.ToWire.{sent}
use bimpc.Mpc.Marshal.{Encodes}
use bimpc.Shared.{Shared}

-- A message to be written, what its payloads encode to, and which message the pool gives out for it.
pub record Letter (Obj : Type 0) : Type 0 where
  pub msg : Request Obj
  pub args : Bytes
  pub result : Bytes
  pub pick : ℕ

module _ {Obj : Type 0} where
  abbrev pub content_of : Letter Obj → Content
  content_of l = sent l.msg l.args l.result

  -- What the letters' readers should get: no error, and the message.
  abbrev pub arriving : List (Letter Obj) → List (Option GoError × Content)
  arriving [] = []
  arriving (l ∷ ls) = (none, received_content (content_of l)) ∷ arriving ls

  -- The payloads are absent or can be encoded, and the message fits its format.
  abbrev pub IsLetter : Format → (Value Obj → Option Marshaler) → Letter Obj → Type 0
  IsLetter f as_marshaler l =
      Encodes as_marshaler l.msg.args l.args
      × Encodes as_marshaler l.msg.result l.result
      × IsSendable f (content_of l)

  abbrev pub IsMail : Format → (Value Obj → Option Marshaler) → List (Letter Obj) → Type 0
  IsMail f as_marshaler ls = All (IsLetter f as_marshaler) ls

  -- What the letters come to, one behind the other.
  abbrev pub parts : {X : Type 0} → (Letter Obj → List X) → List (Letter Obj) → List X
  parts part [] = []
  parts part (l ∷ ls) = part l ++ parts part ls

  -- A codec with the state `C`, by its WriteMessage.
  module _ {C : Type 0} (write : ℕ → Request Obj → C → Shared → Option GoError × C × Shared) where
    -- One WriteMessage after the other.
    abbrev pub write_all : List (Letter Obj) → C → Shared → C × Shared
    write_all [] c s = (c, s)
    write_all (l ∷ ls) c s = let (e, c', s') = write l.pick l.msg c s in write_all ls c' s'

    -- None of them returns an error.
    abbrev pub IsWritten : List (Letter Obj) → C → Shared → Type 0
    IsWritten [] c s = Unit
    IsWritten (l ∷ ls) c s =
        let (e, c', s') = write l.pick l.msg c s in (e ≡ none) × IsWritten ls c' s'

    -- Where each WriteMessage without an error adds a letter's part to what the codec shows, all of them
    -- add the parts in order.
    pub write_all-parts :
        {X : Type 0} (shown : C → List X) (part : Letter Obj → List X) (I : C → Shared → Type 0)
        (IsOne : Letter Obj → Type 0)
        → ((l : Letter Obj) (c : C) (s : Shared)
            → I c s
            → let (e, c', s') = write l.pick l.msg c s in I c' s')
        → ((l : Letter Obj) (c : C) (s : Shared)
            → IsOne l
            → I c s
            → let (e, c', s') = write l.pick l.msg c s in e ≡ none → shown c' ≡ shown c ++ part l)
        → (ls : List (Letter Obj)) (c : C) (s : Shared) → All IsOne ls
        → I c s
        → IsWritten ls c s
        → shown (write_all ls c s).0 ≡ shown c ++ parts part ls
    write_all-parts shown part I IsOne keeps adds [] c s m h done = sym (append-nil (shown c))
    write_all-parts shown part I IsOne keeps adds (l ∷ ls) c s m h (done, later) =
        let (e, c', s') = write l.pick l.msg c s in
        write_all-parts shown part I IsOne keeps adds ls c' s' m.1 (keeps l c s h) later
        ∙ ap (λ b. b ++ parts part ls) (adds l c s m.0 h done)
        ∙ append_assoc (shown c) (part l) (parts part ls)
