-- ===== src/Redis.antt =====
-- redis/redis.go: the codec over a pair of redis pub-sub channels.
pub mod Read
pub mod Write
pub mod Lifecycle
pub mod Order
pub mod Protocol
pub mod Stream
pub mod Kind
pub mod Concurrent
use Prim.Native.String.{String}
use bimpc.Common.{
  ℕ, zero, suc, Bool, true, false, Option, none, some, List, [], ◌∷◌, ◌==◌, if◌then◌else◌,
}
use bimpc.Memory.{Bytes, Memory}
use bimpc.Action.{GoError, Action, Result, ok, err}
use bimpc.Msgp.{Decoder, Appender}
use bimpc.Mpc.{Message, new_message, Value, Request, Marshaler, Unmarshaler, unmarshal}
use bimpc.Mpc.Gen.{unmarshal_message, marshal_message}
use bimpc.Shared.{Shared, pooled, sending, received_by}

-- What Pop returns: redis.PublishedValue, a Value that IsNil is `none`.
pub record Published : Type 0 where
  pub kind : Bytes
  pub value : Option Bytes

-- The database of tideland/golib/redis with all that its connections share. A subscription and a
-- connection are pointers to what the database `Db` holds for them.
pub record Client (Db Sub Conn : Type 0) : Type 0 where
  pub decoder : Decoder Bytes
  pub appender : Appender
  pub subscription : Db → Sub × Option GoError × Db
  pub subscribe : Bytes → Sub → Db → Option GoError × Db
  pub unsubscribe : Bytes → Sub → Db → Option GoError × Db
  -- Subscription.Close
  pub close_subscription : Sub → Db → Option GoError × Db
  pub pop : Sub → Db → Published × Option GoError × Db
  pub connection : Db → Conn × Option GoError × Db
  -- Connection.DoInt of a command with a channel and a payload
  pub do_int : String → Bytes → Bytes → Conn → Db → ℕ × Option GoError × Db
  -- Connection.Return
  pub give_back : Conn → Db → Db

-- Codec. The mutexes make ReadMessage and WriteMessage steps that do not overlap themselves. `buf` is
-- the codec's own buffer, by what it holds.
pub record Codec (Db Sub : Type 0) : Type 0 where
  pub db : Db
  pub in_channel : Bytes
  pub out_channel : Bytes
  pub sub : Option Sub
  pub wire : Message
  pub buf : Bytes

-- strings.HasPrefix and strings.Contains
unfoldable pub has_prefix : Bytes → Bytes → Bool
has_prefix s [] = true
has_prefix [] (x ∷ p) = false
has_prefix (c ∷ s) (x ∷ p) = let rest = has_prefix s p in if c == x then rest else false

unfoldable pub contains : Bytes → Bytes → Bool
unfolding has_prefix
contains [] p = has_prefix [] p
contains (c ∷ s) p = let rest = contains s p in if has_prefix (c ∷ s) p then true else rest

abbrev pub message_kind : Bytes
message_kind = b'm' ∷ b'e' ∷ b's' ∷ b's' ∷ b'a' ∷ b'g' ∷ b'e' ∷ []

-- `!strings.Contains(result.Kind, "message") || result.Value.IsNil()` sends the loop on; otherwise the
-- payload is what follows.
unfoldable pub payload_of : Published → Option Bytes
unfolding contains
payload_of p = if contains p.kind message_kind then p.value else none

-- What a method returns, with birpc's message, the codec and what is shared.
abbrev pub Returned : Type 0 → Type 0 → Type 0 → Type 0
Returned Db Sub Obj = Option GoError × Request Obj × Codec Db Sub × Shared

-- A round of the loop in ReadMessage returns from the method, or continues.
pub data Round (Db Sub Obj : Type 0) : Type 0 where
  return_with : Returned Db Sub Obj → Round Db Sub Obj
  continue_with : Codec Db Sub → Round Db Sub Obj

module _ {Db Sub Conn : Type 0} (n : Client Db Sub Conn) where
  unfoldable pub new_codec : Db → Bytes → Bytes → Codec Db Sub
  new_codec db subscribe publish = record {
    db = db;
    in_channel = subscribe;
    out_channel = publish;
    sub = none;
    wire = new_message;
    buf = [];
  }

  -- NewEndpoint, over birpc.NewEndpoint
  unfoldable pub new_endpoint :
      {Registry Birpc : Type 0}
      → (Codec Db Sub → Registry → Birpc)
      → Registry
      → Db
      → Bytes
      → Bytes
      → Birpc
  unfolding new_codec
  new_endpoint make registry db subscribe publish = make (new_codec db subscribe publish) registry

  -- setupSubscription from Subscribe on, with what that returned. The result is `c.sub`.
  unfoldable pub subscribed : Sub → Option GoError × Db → Action (Codec Db Sub) Sub
  subscribed sub (none, db') c = (ok sub, record c { db = db' })
  subscribed sub (some e, db') c =
      let (_, db'') = n.close_subscription sub db' in (err e, record c { db = db''; sub = none })

  -- The same with what Subscription returned.
  unfoldable pub new_subscription : Sub × Option GoError × Db → Action (Codec Db Sub) Sub
  unfolding subscribed
  new_subscription (sub, some e, db') c = (err e, record c { db = db' })
  new_subscription (sub, none, db') c =
      subscribed sub (n.subscribe c.in_channel sub db') (record c { db = db'; sub = some sub })

  unfoldable pub setup_by : Option Sub → Action (Codec Db Sub) Sub
  unfolding subscribed new_subscription
  setup_by none c = new_subscription (n.subscription c.db) c
  setup_by (some sub) c = subscribed sub (n.subscribe c.in_channel sub c.db) c

  unfoldable pub setup_subscription : Action (Codec Db Sub) Sub
  unfolding setup_by
  setup_subscription c = setup_by c.sub c

  -- `if c.sub == nil`, as in ReadMessage
  unfoldable pub subscription_for : Option Sub → Action (Codec Db Sub) Sub
  unfolding setup_subscription
  subscription_for none c = setup_subscription c
  subscription_for (some sub) c = (ok sub, c)

  module _ {Obj : Type 0} where
    unfoldable pub decode_value :
        Request Obj → Codec Db Sub → Shared → Option Bytes → Round Db Sub Obj
    decode_value msg c s none = continue_with c
    decode_value msg c s (some b) =
        let (o, e, z', mem₁) = unmarshal_message n.decoder b c.wire s.mem in
        let (e', msg', wire', mem₂) = received_by msg e z' mem₁ in
        return_with (e', msg', record c { wire = wire' }, record s { mem = mem₂ })

    -- A round with what Pop returned.
    unfoldable pub popped :
        Request Obj → Codec Db Sub → Shared → Published × Option GoError × Db → Round Db Sub Obj
    unfolding decode_value payload_of
    popped msg c s (p, some e, db') =
        return_with (some e, msg, record c { db = db'; sub = none }, s)
    popped msg c s (p, none, db') = decode_value msg (record c { db = db' }) s (payload_of p)

    unfoldable pub round_with : Request Obj → Shared → Result Sub × Codec Db Sub → Round Db Sub Obj
    unfolding popped
    round_with msg s (err e, c) = return_with (some e, msg, c, s)
    round_with msg s (ok sub, c) = popped msg c s (n.pop sub c.db)

    unfoldable pub read_round : Request Obj → Codec Db Sub → Shared → Round Db Sub Obj
    unfolding round_with subscription_for
    read_round msg c s = round_with msg s (subscription_for c.sub c)

    unfoldable pub after_round :
        Round Db Sub Obj
        → (Codec Db Sub → Option (Returned Db Sub Obj))
        → Option (Returned Db Sub Obj)
    after_round (return_with x) again = some x
    after_round (continue_with c) again = again c

    -- ReadMessage in at most `fuel` rounds, `none` if it takes more.
    unfoldable pub read_message :
        ℕ → Request Obj → Codec Db Sub → Shared → Option (Returned Db Sub Obj)
    unfolding read_round after_round
    read_message zero msg c s = none
    read_message (suc fuel) msg c s =
        after_round (read_round msg c s) (λ c'. read_message fuel msg c' s)

  -- WriteMessage with what Connection returned: PUBLISH, and the deferred Return.
  unfoldable pub publish :
      Bytes → Bytes → Conn × Option GoError × Db → Option GoError × (Db × Bytes)
  publish out b (conn, some e, db') = (some e, (db', b))
  publish out b (conn, none, db') =
      let (reached, e, db'') = n.do_int "PUBLISH" out b conn db' in (e, (n.give_back conn db'', b))

  -- WriteMessage with what MarshalMsg returned.
  unfoldable pub publish_form :
      Bytes → Db × Bytes → Result (Unit {0}) × Bytes → Option GoError × (Db × Bytes)
  unfolding publish
  publish_form out (db, buf) (err e, b) = (some e, (db, buf))
  publish_form out (db, buf) (ok _, b) = publish out b (n.connection db)

  -- `c.buf[:0]` shows nothing.
  unfoldable pub send : Bytes → Memory → Message → Db × Bytes → Option GoError × (Db × Bytes)
  unfolding publish_form
  send out mem m x = publish_form out x (marshal_message n.appender mem m [])

  module _ {Obj : Type 0} (as_marshaler : Value Obj → Option Marshaler) where
    unfoldable pub write_message :
        ℕ → Request Obj → Codec Db Sub → Shared → Option GoError × Codec Db Sub × Shared
    unfolding send
    write_message pick msg c s =
        let ((e, (db', buf')), s') =
          pooled pick (sending as_marshaler msg (send c.out_channel) (c.db, c.buf)) s in
        (e, record c { db = db'; buf = buf' }, s')

  -- `if err == nil { err = cerr }`
  abbrev pub first_error : Option GoError → Option GoError → Option GoError
  first_error none cerr = cerr
  first_error (some e) cerr = some e

  unfoldable pub close_by : Option Sub → Codec Db Sub → Option GoError × Codec Db Sub
  close_by none c = (none, c)
  close_by (some sub) c =
      let (e, db') = n.unsubscribe c.in_channel sub c.db in
      let (cerr, db'') = n.close_subscription sub db' in
      (first_error e cerr, record c { db = db''; sub = none })

  unfoldable pub close : Codec Db Sub → Option GoError × Codec Db Sub
  unfolding close_by
  close c = close_by c.sub c

module _ {Obj T : Type 0} where
  unfoldable pub unmarshal_args :
      Option (Unmarshaler T) → Memory → Request Obj → T → Option GoError × T
  unmarshal_args u mem msg args = unmarshal u mem msg.args args

  unfoldable pub unmarshal_result :
      Option (Unmarshaler T) → Memory → Request Obj → T → Option GoError × T
  unmarshal_result u mem msg result = unmarshal u mem msg.result result

-- FillArgs: `is_database` is the case *redis.Database of the type switch, `db` is the codec's database
-- as a reflect.Value. The loop writes each element once, so it is one pass over the list.
unfoldable pub fill_args :
    {Arg : Type 0} → (Arg → Bool) → Arg → List Arg → Option GoError × List Arg
fill_args is_database db [] = (none, [])
fill_args is_database db (a ∷ arglist) =
    let (e, rest) = fill_args is_database db arglist in
    (e, (if is_database a then db else a) ∷ rest)
