-- ===== src/Redis/Stream.antt =====
-- A sequence of messages from one codec to another, over a channel.
pub mod Sent
use mathlib.Core.List.{append_assoc}
use bimpc.Common.{All}
use bimpc.Common.{
  ℕ, ◌≡◌, ◌<◌, refl, ap, ◌∙◌, Option, none, some, List, [], ◌∷◌, ◌++◌, length, arith,
}
use bimpc.Memory.{Bytes}
use bimpc.Action.{GoError}
use bimpc.Msgp.{DecoderLaws, Format}
use bimpc.Mpc.{Request}
use bimpc.Mpc.Gen.Form.{Content, received_content, message_form, IsSendable}
use bimpc.Mpc.FromWire.{delivered}
use bimpc.Shared.{Shared, IsShared}
use bimpc.Redis.{Client, Codec, Published, Returned, read_message}
use bimpc.Redis.Kind.{IsSkipped, IsMessage}
use bimpc.Redis.Read.{Popping, Delivers, redis_read_lem}
use bimpc.Redis.Order.{redis_read-IsShared}

-- A value that is popped, and what is popped before it.
pub record Post : Type 0 where
  pub skipped : List Published
  pub value : Published

abbrev pub waiting_posts : List Post → List Published
waiting_posts [] = []
waiting_posts (p ∷ ps) = p.skipped ++ (p.value ∷ waiting_posts ps)

-- Before each of the values there is less than `fuel` to skip.
abbrev pub IsPost : ℕ → List Post → Type 0
IsPost fuel [] = Unit
IsPost fuel (p ∷ ps) = ((length p.skipped < fuel) × All IsSkipped p.skipped) × IsPost fuel ps

-- The values carry these messages.
abbrev pub Carries : Format → List Post → List Content → Type 0
Carries f [] [] = Unit
Carries f [] (c₀ ∷ cs) = ⊥
Carries f (p ∷ ps) [] = ⊥
Carries f (p ∷ ps) (c₀ ∷ cs) =
    (IsSendable f c₀ × IsMessage (message_form f c₀ ++ []) p.value) × Carries f ps cs

abbrev pub arrived : List Content → List (Option GoError × Content)
arrived [] = []
arrived (c₀ ∷ cs) = (none, received_content c₀) ∷ arrived cs

abbrev prepend :
    Option GoError × Content
    → Option (List (Option GoError × Content))
    → Option (List (Option GoError × Content))
prepend x none = none
prepend x (some xs) = some (x ∷ xs)

module _ {Db Sub Obj : Type 0} where
  abbrev and_then :
      Option (Returned Db Sub Obj)
      → (Codec Db Sub → Shared → Option (List (Option GoError × Content)))
      → Option (List (Option GoError × Content))
  and_then none more = none
  and_then (some (e, msg, c, s)) more = prepend (e, delivered s.mem msg) (more c s)

module _ {Db Sub Conn Obj : Type 0} (n : Client Db Sub Conn) where
  -- One ReadMessage after the other, each into the next of the messages `into`; `none` if one of them
  -- takes more than `fuel` rounds.
  abbrev pub read_posts :
      ℕ → List (Request Obj) → Codec Db Sub → Shared → Option (List (Option GoError × Content))
  read_posts fuel [] c s = some []
  read_posts fuel (into ∷ more) c s =
      and_then (read_message n fuel into c s) (λ c' s'. read_posts fuel more c' s')

module _ {Db Sub Conn Obj : Type 0} (f : Format) (n : Client Db Sub Conn)
    (laws : DecoderLaws f n.decoder (λ b. b)) (waiting : Sub → Db → List Published)
    (popping : Popping n waiting) where
  prepend-arrived :
      (c₀ : Content) (sub : Sub) (later : List Published) (e : Option GoError) (msg : Request Obj)
      (c : Codec Db Sub) (s : Shared) (rest : Option (List (Option GoError × Content)))
      (cs : List Content)
      → Delivers waiting c₀ sub later (e, msg, c, s)
      → rest ≡ some (arrived cs)
      → prepend (e, delivered s.mem msg) rest ≡ some (arrived (c₀ ∷ cs))
  prepend-arrived c₀ sub later e msg c s rest cs (done, same, _, _) more =
      rw (done, same, more) refl

  -- As many reads as there are messages, with fuel for one round more than there is to skip before any
  -- of them: each returns, without an error, and they deliver the messages in their order.
  pub read_posts-arrived :
      (fuel : ℕ) (ps : List Post) (cs : List Content) (into : List (Request Obj))
      (later : List Published) (sub : Sub) (c : Codec Db Sub) (s : Shared)
      → IsPost fuel ps
      → Carries f ps cs
      → length into ≡ length ps
      → IsShared c.wire s
      → c.sub ≡ some sub
      → waiting sub c.db ≡ waiting_posts ps ++ later
      → read_posts n fuel into c s ≡ some (arrived cs)
  read_posts-arrived fuel [] [] [] later sub c s p m e h has waits = refl
  read_posts-arrived fuel [] [] (x ∷ into) later sub c s p m e h has waits =
      absurd (omega (arith, e))
  read_posts-arrived fuel (p ∷ ps) (c₀ ∷ cs) [] later sub c s ok m e h has waits =
      absurd (omega (arith, e))
  read_posts-arrived fuel [] (c₀ ∷ cs) into later sub c s p m e h has waits = absurd m
  read_posts-arrived fuel (p ∷ ps) [] into later sub c s ok m e h has waits = absurd m
  read_posts-arrived fuel (p ∷ ps) (c₀ ∷ cs) (x ∷ into) later sub c s ok m e h has waits =
      let ((e', msg, c', s'), returns, delivers) =
        redis_read_lem f n laws waiting popping c₀ m.0.0 [] p.value m.0.1
          (waiting_posts ps ++ later) sub p.skipped fuel x c s ok.0.0 ok.0.1 h has
          (waits ∙ append_assoc p.skipped (p.value ∷ waiting_posts ps) later) in
      ap (λ r. and_then r (λ c s. read_posts n fuel into c s)) returns
      ∙ prepend-arrived c₀ sub _ e' msg c' s' _ cs delivers (
          read_posts-arrived fuel ps cs into later sub c' s' ok.1 m.1 (omega (arith, e))
            (redis_read-IsShared f n laws fuel x msg e' c c' s s' h returns) delivers.2 delivers.3)
