-- ===== src/Redis/Concurrent/Resubscribes.antt =====
-- Close while ReadMessage waits in Pop: it unsubscribes, the confirmation of that is a value without a
-- payload, and the loop goes on with it.
use bimpc.Common.{ℕ, ◌≡◌, refl, ap, ◌∙◌, Option, none, some, List, [], ◌∷◌, eq_self}
use bimpc.Action.{GoError}
use bimpc.Mpc.{Request}
use bimpc.Redis.{Client, Codec, Published, payload_of, decode_value, popped, first_error}
use bimpc.Redis.Concurrent.{
  waiting, away, Listener, Move, closes, steps, read_step, close_step, move, moves,
}

-- A whole Close of the goroutine `i`.
abbrev pub whole_close : {Obj : Type 0} → ℕ → List (Move Obj)
whole_close i = closes i ∷ closes i ∷ closes i ∷ closes i ∷ []

-- Pop returns, c.sub is tested twice, Subscription and Subscribe are called, and Pop.
abbrev pub resumed : {Obj : Type 0} → List (Move Obj)
resumed = steps ∷ steps ∷ steps ∷ steps ∷ steps ∷ steps ∷ []

module _ {Db Sub Conn Obj : Type 0} (n : Client Db Sub Conn) where
  -- A Close that nobody interrupts.
  pub whole_close_lem :
      (i : ℕ) (l : Listener Db Sub Obj) (e₀ e cerr : Option GoError) (sub : Sub) (db₁ db₂ : Db)
      → l.closers i ≡ away e₀
      → l.codec.sub ≡ some sub
      → n.unsubscribe l.codec.in_channel sub l.codec.db ≡ (e, db₁)
      → n.close_subscription sub db₁ ≡ (cerr, db₂)
      → let t = moves n (whole_close i) l in
        (t.codec ≡ record l.codec { db = db₂; sub = none })
        × (t.shared ≡ l.shared)
        × (t.reader ≡ l.reader)
        × (t.closers i ≡ away (first_error n e cerr))
  unfolding moves move close_step
  whole_close_lem i l e₀ e cerr sub db₁ db₂ at_rest has unsubscribes ends =
      simp (at_rest, has, eq_self i, unsubscribes, ends) (refl, refl, refl, refl)

  -- A value without a payload, popped when the codec has no subscription, leads to a new one.
  resumed_lem :
      (l : Listener Db Sub Obj) (into : Request Obj) (sub sub' : Sub) (p : Published)
      (db₁ db₂ db₃ : Db)
      → l.reader ≡ waiting into sub
      → l.codec.sub ≡ none
      → n.pop sub l.codec.db ≡ (p, none, db₁)
      → payload_of p ≡ none
      → n.subscription db₁ ≡ (sub', none, db₂)
      → n.subscribe l.codec.in_channel sub' db₂ ≡ (none, db₃)
      → let u = moves n resumed l in
        (u.codec ≡ record l.codec { db = db₃; sub = some sub' })
        × (u.shared ≡ l.shared)
        × (u.reader ≡ waiting into sub')
  unfolding moves move read_step popped decode_value
  resumed_lem l into sub sub' p db₁ db₂ db₃ waits none_left popping no_payload opens subscribes_to =
      simp (waits, popping, no_payload, none_left, opens, subscribes_to) (refl, refl, refl)

  -- Close does not end a ReadMessage that waits. After a Close that no other interrupts the codec has no
  -- subscription, Close has returned the first of the errors of Unsubscribe and of the subscription's
  -- Close, and ReadMessage waits as before. When Pop then returns a value without a payload, as the
  -- confirmation of Unsubscribe is, and Subscription and Subscribe return no error, the codec has the new
  -- subscription and ReadMessage waits for that.
  pub close-resubscribes :
      (i : ℕ) (l : Listener Db Sub Obj) (into : Request Obj) (sub sub' : Sub) (p : Published)
      (e₀ e cerr : Option GoError) (db₁ db₂ db₃ db₄ db₅ : Db)
      → l.closers i ≡ away e₀
      → l.reader ≡ waiting into sub
      → l.codec.sub ≡ some sub
      → n.unsubscribe l.codec.in_channel sub l.codec.db ≡ (e, db₁)
      → n.close_subscription sub db₁ ≡ (cerr, db₂)
      → n.pop sub db₂ ≡ (p, none, db₃)
      → payload_of p ≡ none
      → n.subscription db₃ ≡ (sub', none, db₄)
      → n.subscribe l.codec.in_channel sub' db₄ ≡ (none, db₅)
      → let t = moves n (whole_close i) l in
        let u = moves n resumed t in
        (t.codec ≡ record l.codec { db = db₂; sub = none })
        × (t.reader ≡ waiting into sub)
        × (t.closers i ≡ away (first_error n e cerr))
        × (u.codec ≡ record l.codec { db = db₅; sub = some sub' })
        × (u.reader ≡ waiting into sub')
  close-resubscribes i l into sub sub' p e₀ e cerr db₁ db₂ db₃ db₄ db₅ at_rest waits has
        unsubscribes ends popping no_payload opens subscribes_to =
      let t = moves n (whole_close i) l in
      let (closed, _, same, done) =
        whole_close_lem i l e₀ e cerr sub db₁ db₂ at_rest has unsubscribes ends in
      let (again, _, back) =
        resumed_lem t into sub sub' p db₃ db₄ db₅ (same ∙ waits) (ap (λ c. c.sub) closed)
          (ap (λ c. n.pop sub c.db) closed ∙ popping) no_payload opens
          (ap (λ c. n.subscribe c.in_channel sub' db₄) closed ∙ subscribes_to) in
      (
        closed,
        same ∙ waits,
        done,
        again
            ∙ ap {A = Codec Db Sub} {B = Codec Db Sub} (λ c. record c { db = db₅; sub = some sub' })
                closed,
        back,
      )
