-- ===== src/Redis/Protocol.antt =====
-- What the codec does with a subscription, as the calls that it makes of the redis client, and the order
-- in which they are due.
pub mod Kept
use bimpc.Common.{ℕ, Option, none, some, List, [], ◌∷◌}
use bimpc.Memory.{Bytes}
use bimpc.Action.{GoError}
use bimpc.Redis.{Client}

-- A call that has returned, with its error. Of Subscription, only one without an error.
pub data Event (Sub : Type 0) : Type 0 where
  opens : Sub → Event Sub
  subscribes unsubscribes : Bytes → Sub → Option GoError → Event Sub
  pops : Sub → Option GoError → Event Sub
  ends : Sub → Option GoError → Event Sub

module _ {Db Sub : Type 0} where
  abbrev pub note_opening :
      Sub × Option GoError × Db → List (Event Sub) → Sub × Option GoError × (Db × List (Event Sub))
  note_opening (sub, some e, db) log = (sub, some e, (db, log))
  note_opening (sub, none, db) log = (sub, none, (db, opens sub ∷ log))

-- The client `n`, which notes what is asked of it about subscriptions, the newest first.
abbrev pub recorded :
    {Db Sub Conn : Type 0} → Client Db Sub Conn → Client (Db × List (Event Sub)) Sub Conn
recorded n = record {
  decoder = n.decoder;
  appender = n.appender;
  subscription = λ x. note_opening (n.subscription x.0) x.1;
  subscribe = λ channel sub x.
      let (e, db) = n.subscribe channel sub x.0 in (e, (db, subscribes channel sub e ∷ x.1));
  unsubscribe = λ channel sub x.
      let (e, db) = n.unsubscribe channel sub x.0 in (e, (db, unsubscribes channel sub e ∷ x.1));
  close_subscription =
      λ sub x. let (e, db) = n.close_subscription sub x.0 in (e, (db, ends sub e ∷ x.1));
  pop = λ sub x. let (p, e, db) = n.pop sub x.0 in (p, e, (db, pops sub e ∷ x.1));
  connection = λ x. let (conn, e, db) = n.connection x.0 in (conn, e, (db, x.1));
  do_int = λ command channel b conn x.
      let (reached, e, db) = n.do_int command channel b conn x.0 in (reached, e, (db, x.1));
  give_back = λ conn x. (n.give_back conn x.0, x.1);
}

-- What a user of the client has: nothing, a subscription without a channel, or one that listens.
pub data Use (Sub : Type 0) : Type 0 where
  unused : Use Sub
  held : Sub → Use Sub
  listening : Bytes → Sub → Use Sub

-- The calls that are due. A subscription that listens is popped, until Pop fails and it is of no use any
-- more, or it leaves its channel; only then is it closed, and nothing is closed twice. One that was refused
-- its channel is closed. There is never more than one.
pub data Due {Sub : Type 0} : Use Sub → Event Sub → Use Sub → Type 0 where
  opening : {sub : Sub} → Due unused (opens sub) (held sub)
  joining :
      {channel : Bytes} {sub : Sub}
      → Due (held sub) (subscribes channel sub none) (listening channel sub)
  refusing :
      {channel : Bytes} {sub : Sub} {e : GoError}
      → Due (held sub) (subscribes channel sub (some e)) (held sub)
  popping :
      {channel : Bytes} {sub : Sub}
      → Due (listening channel sub) (pops sub none) (listening channel sub)
  breaking :
      {channel : Bytes} {sub : Sub} {e : GoError}
      → Due (listening channel sub) (pops sub (some e)) unused
  leaving :
      {channel : Bytes} {sub : Sub} {e : Option GoError}
      → Due (listening channel sub) (unsubscribes channel sub e) (held sub)
  ending : {sub : Sub} {e : Option GoError} → Due (held sub) (ends sub e) unused

-- From nothing, each call was due when it was made.
pub data Used {Sub : Type 0} : List (Event Sub) → Use Sub → Type 0 where
  at_first : Used [] unused
  and_then :
      {log : List (Event Sub)} {u u' : Use Sub} {x : Event Sub}
      → Used log u
      → Due u x u'
      → Used (x ∷ log) u'
