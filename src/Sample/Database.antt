-- ===== src/Sample/Database.antt =====
-- A database that meets the laws of Redis: what waits to be popped, what has been published, the
-- connections that are taken, and the subscriptions that are open.
use bimpc.Common.{ℕ, refl, ap, Option, none, some, List, [], ◌∷◌, ◌++◌}
use bimpc.Memory.{Bytes}
use bimpc.Action.{GoError, foreign}
use bimpc.Redis.{Client, Published}
use bimpc.Redis.Read.{Popping}
use bimpc.Redis.Write.{Publishing, PublishingLaws}
use bimpc.Redis.Lifecycle.{SubscriptionLaws}
use bimpc.Sample.{sample_decoder, sample_appender}

pub record SampleDatabase : Type 0 where
  pub waiting : List Published
  pub published : List (Bytes × Bytes)
  pub taken : List ℕ
  pub open_subscriptions : List ℕ

abbrev others : List ℕ → List ℕ
others [] = []
others (x ∷ xs) = xs

abbrev pop_from : SampleDatabase → List Published → Published × Option GoError × SampleDatabase
pop_from db [] = (record { kind = []; value = none }, some (foreign 4), db)
pop_from db (p ∷ later) = (p, none, record db { waiting = later })

abbrev pub sample_client : Client SampleDatabase ℕ ℕ
sample_client = record {
  decoder = sample_decoder;
  appender = sample_appender;
  subscription = λ db. (5, none, record db { open_subscriptions = 5 ∷ db.open_subscriptions });
  subscribe = λ channel sub db. (none, db);
  unsubscribe = λ channel sub db. (some (foreign 6), db);
  close_subscription =
      λ sub db. (none, record db { open_subscriptions = others db.open_subscriptions });
  pop = λ sub db. pop_from db db.waiting;
  connection = λ db. (8, none, record db { taken = 8 ∷ db.taken });
  do_int = λ command channel b conn db.
      (1, none, record db { published = db.published ++ ((channel, b) ∷ []) });
  give_back = λ conn db. record db { taken = others db.taken };
}

pub sample_client-Popping : Popping sample_client (λ sub db. db.waiting)
sample_client-Popping = record {
  next = λ sub db p later e. (record db { waiting = later }, ap (pop_from db) e, refl);
}

abbrev pub sample_publishing : Publishing SampleDatabase ℕ
sample_publishing = record { published = λ db. db.published; taken = λ db. db.taken }

pub sample_client-PublishingLaws : PublishingLaws sample_client sample_publishing
sample_client-PublishingLaws = record {
  takes = λ db h. (refl, refl);
  takes_none = λ db h. absurd (h refl);
  publishes = λ out b conn db h. refl;
  publish_keeps = λ out b conn db. refl;
  gives_back = λ conn db rest h. ap others h;
  give_back_keeps = λ conn db. refl;
}

-- The same, where Subscribe and Close of a subscription fail.
abbrev pub refusing_client : Client SampleDatabase ℕ ℕ
refusing_client = record sample_client {
  subscribe = λ channel sub db. (some (foreign 7), db);
  close_subscription = λ sub db. (some (foreign 8), db);
}

pub refusing_client-SubscriptionLaws :
    SubscriptionLaws refusing_client (λ (db : SampleDatabase). db.open_subscriptions)
refusing_client-SubscriptionLaws = record {
  opens = λ db h. refl;
  opens_none = λ db h. absurd (h refl);
  subscribe_keeps = λ channel sub db. refl;
  closes = λ sub db rest h done. absurd (cc done);
}
