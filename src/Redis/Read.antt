-- ===== src/Redis/Read.antt =====
-- ReadMessage: it goes past what carries no message, and delivers the next one.
use bimpc.Common.{All}
use bimpc.Common.{
  ℕ, zero, suc, ◌≡◌, ◌<◌, refl, ap, ◌∙◌, Option, none, some, List, [], ◌∷◌, ◌++◌, length, arith,
}
use bimpc.Memory.{Bytes, Memory}
use bimpc.Action.{GoError}
use bimpc.Msgp.{DecoderLaws, Format}
use bimpc.Mpc.{Message, Request}
use bimpc.Mpc.Gen.Decode.{unmarshal_message_lem}
use bimpc.Mpc.Gen.Form.{Content, content, received_content, message_form, IsSendable, IsWire}
use bimpc.Mpc.FromWire.{delivered, from_wire_lem}
use bimpc.Shared.{Shared, IsShared, received_by}
use bimpc.Redis.Kind.{IsSkipped, IsMessage, payload_of-IsSkipped, payload_of-IsMessage}
use bimpc.Redis.{
  Client, Codec, Published, Returned, return_with, payload_of, decode_value, read_round,
  after_round, read_message,
}

module _ {Db Sub Conn : Type 0} (n : Client Db Sub Conn) where
  -- What waits on a subscription is popped one after the other.
  pub record Popping (waiting : Sub → Db → List Published) : Type 0 where
    pub next :
        (sub : Sub) (db : Db) (p : Published) (later : List Published)
        → waiting sub db ≡ p ∷ later
        → (db' : Db) × (n.pop sub db ≡ (p, none, db')) × (waiting sub db' ≡ later)

-- What a ReadMessage returns that delivers `c₀` and leaves the subscription and what waits on it.
abbrev pub Delivers :
    {Db Sub Obj : Type 0}
    → (Sub → Db → List Published)
    → Content
    → Sub
    → List Published
    → Returned Db Sub Obj
    → Type 0
Delivers waiting c₀ sub later (e, msg', c', s') =
    (e ≡ none)
    × (delivered s'.mem msg' ≡ received_content c₀)
    × (c'.sub ≡ some sub)
    × (waiting sub c'.db ≡ later)

module _ {Db Sub Conn Obj : Type 0} (f : Format) (n : Client Db Sub Conn)
    (laws : DecoderLaws f n.decoder (λ b. b)) where
  round_lem :
      (sub : Sub) (p : Published) (db' : Db) (msg : Request Obj) (c : Codec Db Sub) (s : Shared)
      → c.sub ≡ some sub
      → n.pop sub c.db ≡ (p, none, db')
      → read_round n msg c s ≡ decode_value n msg (record c { db = db' }) s (payload_of p)
  unfolding read_round
  round_lem sub p db' msg c s e q = rw (e, q) refl

  received_lem :
      (c₀ : Content) (msg : Request Obj) (e : Option GoError) (z : Message) (mem : Memory)
      → e ≡ none
      → content mem z ≡ received_content c₀
      → IsWire mem z
      → let (e', msg', wire', mem') = received_by msg e z mem in
        (e' ≡ none) × (delivered mem' msg' ≡ received_content c₀)
  received_lem c₀ msg none z mem h same w = (refl, (from_wire_lem Obj mem z w).0 ∙ same)
  received_lem c₀ msg (some x) z mem h same w = absurd (cc)

  decode_value_lem :
      (waiting : Sub → Db → List Published) (c₀ : Content) (behind : Bytes) (sub : Sub)
      (msg : Request Obj) (c : Codec Db Sub) (s : Shared)
      → IsSendable f c₀
      → IsWire s.mem c.wire
      → c.sub ≡ some sub
      → (r : Returned Db Sub Obj) × (decode_value n msg c s (some (message_form f c₀ ++ behind))
          ≡ return_with r)
        × Delivers waiting c₀ sub (waiting sub c.db) r
  unfolding decode_value
  decode_value_lem waiting c₀ behind sub msg c s sendable w e =
      let (_, none_yet, same, w') =
        unmarshal_message_lem f n.decoder laws c₀ behind c.wire s.mem sendable w in
      let (done, told) = received_lem c₀ msg _ _ _ none_yet same w' in
      (_, refl, (done, told, e, refl))

  module _ (waiting : Sub → Db → List Published) (popping : Popping n waiting) (c₀ : Content)
      (sendable : IsSendable f c₀) (behind : Bytes) (x : Published)
      (carries : IsMessage (message_form f c₀ ++ behind) x) (later : List Published)
      (sub : Sub) where
    -- ReadMessage returns, with fuel for one round more than there is to skip. Where values wait on the
    -- codec's subscription whose kind does not contain "message" or that are nil, and behind them a
    -- message that begins with the form of a message, it returns no error, delivers that message, and
    -- leaves the subscription and what waits behind.
    pub redis_read_lem :
        (skipped : List Published) (fuel : ℕ) (msg : Request Obj) (c : Codec Db Sub) (s : Shared)
        → length skipped < fuel
        → All IsSkipped skipped
        → IsShared c.wire s
        → c.sub ≡ some sub
        → waiting sub c.db ≡ skipped ++ (x ∷ later)
        → (r : Returned Db Sub Obj) × (read_message n fuel msg c s ≡ some r)
          × Delivers waiting c₀ sub later r
    unfolding read_message decode_value
    redis_read_lem skipped zero msg c s enough skips h e waits = absurd (omega (arith, enough))
    redis_read_lem [] (suc fuel) msg c s enough skips h e waits =
        let (db', q, rest) = popping.next sub c.db x later waits in
        let (r, returns, (done, told, sub', left)) =
          decode_value_lem waiting c₀ behind sub msg (record c { db = db' }) s sendable h.wire_ok
            e in
        (
          r,
          ap (λ t. after_round n t (λ c'. read_message n fuel msg c' s))
              (round_lem sub x db' msg c s e q
                ∙ ap (decode_value n msg (record c { db = db' }) s)
                    (payload_of-IsMessage (message_form f c₀ ++ behind) x carries)
                ∙ returns),
          (done, told, sub', left ∙ rest),
        )
    redis_read_lem (p ∷ skipped) (suc fuel) msg c s enough skips h e waits =
        let (db', q, rest) = popping.next sub c.db p (skipped ++ (x ∷ later)) waits in
        let (r, returns, delivers) =
          redis_read_lem skipped fuel msg (record c { db = db' }) s (omega (arith, enough)) skips.1
            h e rest in
        (
          r,
          ap (λ t. after_round n t (λ c'. read_message n fuel msg c' s))
                (round_lem sub p db' msg c s e q
                  ∙ ap (decode_value n msg (record c { db = db' }) s)
                      (payload_of-IsSkipped p skips.0))
              ∙ returns,
          delivers,
        )
