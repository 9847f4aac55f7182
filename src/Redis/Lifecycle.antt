-- ===== src/Redis/Lifecycle.antt =====
-- The subscription of the codec, as setupSubscription leaves it.
use bimpc.Common.{◌≡◌, refl, sym, ◌∙◌, ◌⊎◌, inl, inr, Option-cases, Option, none, some, List, ◌∷◌}
use mathlib.Core.Path.{subst}
use bimpc.Memory.{Bytes}
use bimpc.Action.{GoError, Result, ok, err}
use bimpc.Redis.{Client, Codec, subscribed, new_subscription, setup_subscription, setup_by}

module _ {Db Sub Conn : Type 0} (n : Client Db Sub Conn) (open_subscriptions : Db → List Sub) where
  -- A subscription is open while it holds a connection. Subscription opens one or, with an error, none;
  -- Subscribe opens and closes none; Close that returns no error closes.
  pub record SubscriptionLaws : Type 0 where
    pub opens :
        (db : Db)
        → let (sub, e, db') = n.subscription db in
          e ≡ none → open_subscriptions db' ≡ sub ∷ open_subscriptions db
    pub opens_none :
        (db : Db)
        → let (sub, e, db') = n.subscription db in
          ¬ (e ≡ none) → open_subscriptions db' ≡ open_subscriptions db
    pub subscribe_keeps :
        (channel : Bytes) (sub : Sub) (db : Db)
        → open_subscriptions (n.subscribe channel sub db).1 ≡ open_subscriptions db
    pub closes :
        (sub : Sub) (db : Db) (others : List Sub)
        → open_subscriptions db ≡ sub ∷ others
        → (n.close_subscription sub db).0 ≡ none
        → open_subscriptions (n.close_subscription sub db).1 ≡ others

-- What a setup leaves. With no error the codec has the subscription, and that is open beside the
-- `others`. With an error the codec has none, and only the others are open, unless the Close of the
-- subscription that was refused has returned an error itself.
abbrev pub IsSetUp :
    {Db Sub Conn : Type 0}
    → Client Db Sub Conn
    → (Db → List Sub)
    → List Sub
    → Result Sub × Codec Db Sub
    → Type 0
IsSetUp n open_subscriptions others (ok sub, c) =
    (c.sub ≡ some sub) × (open_subscriptions c.db ≡ sub ∷ others)
IsSetUp {Db} {Sub} n open_subscriptions others (err e, c) =
    (c.sub ≡ none)
    × ((open_subscriptions c.db ≡ others)
        ⊎ ((sub : Sub) × (db : Db) × (open_subscriptions db ≡ sub ∷ others)
            × (c.db ≡ (n.close_subscription sub db).1)
            × (x : GoError) × ((n.close_subscription sub db).0 ≡ some x)))

module _ {Db Sub Conn : Type 0} (n : Client Db Sub Conn) (open_subscriptions : Db → List Sub)
    (laws : SubscriptionLaws n open_subscriptions) where
  subscribed-IsSetUp :
      (others : List Sub) (sub : Sub) (x : Option GoError × Db) (c : Codec Db Sub)
      → c.sub ≡ some sub
      → open_subscriptions x.1 ≡ sub ∷ others
      → IsSetUp n open_subscriptions others (subscribed n sub x c)
  unfolding subscribed
  subscribed-IsSetUp others sub (none, db') c h is_open = (h, is_open)
  subscribed-IsSetUp others sub (some e, db') c h is_open = (
    refl,
    elim (Option-cases (n.close_subscription sub db').0) [
      | inl done ↦ inl (laws.closes sub db' others is_open done)
      | inr (x, fails) ↦ inr (sub, db', is_open, refl, x, fails)
    ],
  )

  -- setupSubscription of a codec that has no subscription, as ReadMessage calls it. Without an error the
  -- codec then has the subscription, which is open beside those of others. After an error, of Subscription
  -- or of Subscribe, the codec has none; Close has been called on what Subscription has opened, and only
  -- those of others are open, unless that Close has returned an error too.
  pub setup_subscription-IsSetUp :
      (c : Codec Db Sub)
      → c.sub ≡ none
      → IsSetUp n open_subscriptions (open_subscriptions c.db) (setup_subscription n c)
  unfolding setup_subscription setup_by new_subscription
  setup_subscription-IsSetUp c h =
      subst (λ o. IsSetUp n open_subscriptions (open_subscriptions c.db) (setup_by n o c)) (sym h)
        (go (n.subscription c.db) (laws.opens c.db) (laws.opens_none c.db))
    where
      go :
          (x : Sub × Option GoError × Db)
          → (x.1 ≡ none → open_subscriptions x.2 ≡ x.0 ∷ open_subscriptions c.db)
          → (¬ (x.1 ≡ none) → open_subscriptions x.2 ≡ open_subscriptions c.db)
          → IsSetUp n open_subscriptions (open_subscriptions c.db) (new_subscription n x c)
      go (sub, some e, db') opens fails = (h, inl (fails (λ q. absurd (cc))))
      go (sub, none, db') opens fails =
          subscribed-IsSetUp (open_subscriptions c.db) sub (n.subscribe c.in_channel sub db')
            (record c { db = db'; sub = some sub }) refl
            (laws.subscribe_keeps c.in_channel sub db' ∙ opens refl)
