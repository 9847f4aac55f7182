-- ===== src/Redis/Write.antt =====
-- WriteMessage: what is published, and the connection that goes back.
use bimpc.Common.{ℕ, ◌≡◌, refl, ap, ◌∙◌, Option, none, some, List, [], ◌∷◌, ◌++◌}
use bimpc.Memory.{Bytes}
use bimpc.Action.{GoError, Result, ok, err}
use bimpc.Msgp.{AppenderLaws, Format}
use bimpc.Mpc.{Request, Value, Marshaler}
use bimpc.Mpc.Gen.{marshal_message}
use bimpc.Mpc.Gen.Encode.{marshal_message_lem}
use bimpc.Mpc.Gen.Form.{message_form, content}
use bimpc.Mpc.ToWire.{sent}
use bimpc.Mpc.Marshal.{Encodes}
use bimpc.Shared.{Shared, IsShared}
use bimpc.Shared.Sending.{pooled_sending_lem, pooled_sending-any}
use bimpc.Redis.{Client, Codec, publish, publish_form, send, write_message}

-- What a database shows of its write side: what has been published on which channel, and the
-- connections that are taken out of its pool.
pub record Publishing (Db Conn : Type 0) : Type 0 where
  pub published : Db → List (Bytes × Bytes)
  pub taken : Db → List Conn

module _ {Db Sub Conn : Type 0} (n : Client Db Sub Conn) (v : Publishing Db Conn) where
  -- Connection takes a connection out or, with an error, none; a PUBLISH that is answered by a number
  -- has published its payload on its channel, and takes no connection; Return gives back.
  pub record PublishingLaws : Type 0 where
    pub takes :
        (db : Db)
        → let (conn, e, db') = n.connection db in
          e ≡ none → (v.taken db' ≡ conn ∷ v.taken db) × (v.published db' ≡ v.published db)
    pub takes_none :
        (db : Db) → let (conn, e, db') = n.connection db in ¬ (e ≡ none) → v.taken db' ≡ v.taken db
    pub publishes :
        (out b : Bytes) (conn : Conn) (db : Db)
        → let (reached, e, db') = n.do_int "PUBLISH" out b conn db in
          e ≡ none → v.published db' ≡ v.published db ++ ((out, b) ∷ [])
    pub publish_keeps :
        (out b : Bytes) (conn : Conn) (db : Db)
        → v.taken (n.do_int "PUBLISH" out b conn db).2 ≡ v.taken db
    pub gives_back :
        (conn : Conn) (db : Db) (others : List Conn)
        → v.taken db ≡ conn ∷ others
        → v.taken (n.give_back conn db) ≡ others
    pub give_back_keeps :
        (conn : Conn) (db : Db) → v.published (n.give_back conn db) ≡ v.published db

module _ {Db Sub Conn : Type 0} (n : Client Db Sub Conn) (v : Publishing Db Conn)
    (laws : PublishingLaws n v) where
  publish-taken :
      (out b : Bytes) (db : Db) → v.taken (publish n out b (n.connection db)).1.0 ≡ v.taken db
  unfolding publish
  publish-taken out b db = go (n.connection db) (laws.takes db) (laws.takes_none db)
    where
      go :
          (x : Conn × Option GoError × Db)
          → (x.1 ≡ none → (v.taken x.2 ≡ x.0 ∷ v.taken db) × (v.published x.2 ≡ v.published db))
          → (¬ (x.1 ≡ none) → v.taken x.2 ≡ v.taken db)
          → v.taken (publish n out b x).1.0 ≡ v.taken db
      go (conn, some e, db') took took_none = took_none (λ h. absurd (cc))
      go (conn, none, db') took took_none =
          laws.gives_back conn _ (v.taken db) (laws.publish_keeps out b conn db' ∙ (took refl).0)

  publish_lem :
      (out b : Bytes) (db : Db)
      → (publish n out b (n.connection db)).0 ≡ none
      → v.published (publish n out b (n.connection db)).1.0 ≡ v.published db ++ ((out, b) ∷ [])
  unfolding publish
  publish_lem out b db = go (n.connection db) (laws.takes db)
    where
      go :
          (x : Conn × Option GoError × Db)
          → (x.1 ≡ none → (v.taken x.2 ≡ x.0 ∷ v.taken db) × (v.published x.2 ≡ v.published db))
          → (publish n out b x).0 ≡ none
          → v.published (publish n out b x).1.0 ≡ v.published db ++ ((out, b) ∷ [])
      go (conn, some e, db') took done = absurd (cc)
      go (conn, none, db') took done =
          laws.give_back_keeps conn _
          ∙ laws.publishes out b conn db' done
          ∙ ap (λ t. t ++ ((out, b) ∷ [])) (took refl).1

  publish_form-taken :
      (out buf : Bytes) (db : Db) (r : Result (Unit {0}) × Bytes)
      → v.taken (publish_form n out (db, buf) r).1.0 ≡ v.taken db
  unfolding publish_form
  publish_form-taken out buf db (ok tt, b) = publish-taken out b db
  publish_form-taken out buf db (err e, b) = refl

  module _ {Obj : Type 0} (as_marshaler : Value Obj → Option Marshaler) where
    -- WriteMessage gives back the connection that it takes, on every path: where the message is
    -- refused, there is no connection, the publishing fails, or all goes well, the connections that are
    -- taken out of the database's pool are the same before and after.
    pub write_message-taken :
        (pick : ℕ) (msg : Request Obj) (c : Codec Db Sub) (s : Shared)
        → let (e, c', s') = write_message n as_marshaler pick msg c s in
          v.taken c'.db ≡ v.taken c.db
    unfolding write_message send
    write_message-taken pick msg c s =
        pooled_sending-any as_marshaler (send n c.out_channel) pick msg (c.db, c.buf) s
          (λ x. v.taken x.1.0 ≡ v.taken c.db) (λ e. refl)
          λ mem m. publish_form-taken c.out_channel c.buf c.db (marshal_message n.appender mem m [])

    -- A WriteMessage that returns no error, of payloads that are absent or can be encoded, has
    -- published the form of birpc's message on the codec's outgoing channel, behind all that was
    -- published before and whatever its buffer had held, and nothing else.
    pub write_message-publishes :
        (f : Format)
        → AppenderLaws f n.appender
        → (pick : ℕ) (msg : Request Obj) (args result : Bytes) (c : Codec Db Sub) (s : Shared)
        → IsShared c.wire s
        → Encodes as_marshaler msg.args args
        → Encodes as_marshaler msg.result result
        → (write_message n as_marshaler pick msg c s).0 ≡ none
        → v.published (write_message n as_marshaler pick msg c s).1.db
          ≡ v.published c.db ++ ((c.out_channel, message_form f (sent msg args result)) ∷ [])
    unfolding write_message send publish_form
    write_message-publishes f appends pick msg args result c s h ha hr =
        pooled_sending_lem as_marshaler (send n c.out_channel) pick msg args result (c.db, c.buf) s
          h ha hr
          (λ x.
            x.0 ≡ none
            → v.published x.1.0
              ≡ v.published c.db ++ ((c.out_channel, message_form f (sent msg args result)) ∷ []))
          λ mem m same. rw (marshal_message_lem f n.appender appends mem m []) λ done.
            publish_lem c.out_channel (message_form f (content mem m)) c.db done
            ∙ ap (λ x. v.published c.db ++ ((c.out_channel, message_form f x) ∷ [])) same
