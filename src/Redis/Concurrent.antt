-- ===== src/Redis/Concurrent.antt =====
-- redis/redis.go: Close while a goroutine is in ReadMessage. Close takes no mutex, so it may come between
-- any two steps of ReadMessage and of another Close. A step has one access to c.sub, a read or a write,
-- with the call of the redis client that goes with it.
pub mod Resubscribes
pub mod NilPointer
use bimpc.Common.{ℕ, Option, none, some, List, [], ◌∷◌, update}
use bimpc.Action.{GoError}
use bimpc.Mpc.{Request}
use bimpc.Shared.{Shared}
use bimpc.Redis.{Client, Codec, Round, return_with, continue_with, popped, first_error}

-- Where the reading goroutine is: it has not called ReadMessage; it is at the head of the loop; in
-- setupSubscription, before the test of c.sub, the call of Subscription, that of Subscribe, that of
-- Close after Subscribe has failed, and `c.sub = nil` after that; before the call of Pop; it waits in
-- Pop of a subscription; it has called a method on a nil pointer; or it has returned the error, with
-- birpc's message as it is then.
pub data Reader (Sub Obj : Type 0) : Type 0 where
  idle : Reader Sub Obj
  looping checking opening subscribing : Request Obj → Reader Sub Obj
  refused forgetting : Request Obj → GoError → Reader Sub Obj
  ready : Request Obj → Reader Sub Obj
  waiting : Request Obj → Sub → Reader Sub Obj
  nil_pointer : Reader Sub Obj
  returned : Option GoError → Request Obj → Reader Sub Obj

-- Where a goroutine is in Close: it has not called it or it has returned the error; it is before
-- Unsubscribe, before Close of the subscription, or before `c.sub = nil`, with the error so far; or it
-- has called a method on a nil pointer.
pub data Closer : Type 0 where
  away : Option GoError → Closer
  unsubscribing : Closer
  closing clearing : Option GoError → Closer
  lost : Closer

pub record Listener (Db Sub Obj : Type 0) : Type 0 where
  pub codec : Codec Db Sub
  pub shared : Shared
  pub reader : Reader Sub Obj
  pub closers : ℕ → Closer

-- ReadMessage is called, the reading goroutine takes a step, or a goroutine takes a step of Close.
pub data Move (Obj : Type 0) : Type 0 where
  reads : Request Obj → Move Obj
  steps : Move Obj
  closes : ℕ → Move Obj

-- `if c.sub == nil` of Close
abbrev pub close_tested : {Sub : Type 0} → Option Sub → Closer
close_tested none = away none
close_tested (some sub) = unsubscribing

module _ {Sub Obj : Type 0} where
  -- ReadMessage is called, by a goroutine that is not in it.
  abbrev pub call_read : Request Obj → Reader Sub Obj → Reader Sub Obj
  call_read into idle = looping into
  call_read into (looping msg) = looping msg
  call_read into (checking msg) = checking msg
  call_read into (opening msg) = opening msg
  call_read into (subscribing msg) = subscribing msg
  call_read into (refused msg e) = refused msg e
  call_read into (forgetting msg e) = forgetting msg e
  call_read into (ready msg) = ready msg
  call_read into (waiting msg sub) = waiting msg sub
  call_read into nil_pointer = nil_pointer
  call_read into (returned e msg) = looping into

  -- `if c.sub == nil` in ReadMessage, and the same in setupSubscription
  abbrev pub tested : Request Obj → Option Sub → Reader Sub Obj
  tested into none = checking into
  tested into (some sub) = ready into

  abbrev pub checked : Request Obj → Option Sub → Reader Sub Obj
  checked into none = opening into
  checked into (some sub) = subscribing into

  -- `c.sub` of c.sub.Pop(), read once more: a Close may have come since it was tested.
  abbrev pub pop_of : Request Obj → Option Sub → Reader Sub Obj
  pop_of into none = nil_pointer
  pop_of into (some sub) = waiting into sub

module _ {Db Sub Obj : Type 0} where
  abbrev pub go_to : Reader Sub Obj → Listener Db Sub Obj → Listener Db Sub Obj
  go_to r l = record l { reader = r }

  abbrev pub put_db : Db → Listener Db Sub Obj → Listener Db Sub Obj
  put_db db l = record l { codec = record l.codec { db = db } }

  abbrev pub clear_sub : Listener Db Sub Obj → Listener Db Sub Obj
  clear_sub l = record l { codec = record l.codec { sub = none } }

  -- What Subscription has returned, and `c.sub = sub`.
  abbrev pub opened :
      Request Obj → Sub × Option GoError × Db → Listener Db Sub Obj → Listener Db Sub Obj
  opened into (sub, some e, db) l = go_to (returned (some e) into) (put_db db l)
  opened into (sub, none, db) l = record l {
    codec = record l.codec { db = db; sub = some sub };
    reader = subscribing into;
  }

  -- What Subscribe has returned.
  abbrev pub after_subscribe :
      Request Obj → Option GoError × Db → Listener Db Sub Obj → Listener Db Sub Obj
  after_subscribe into (some e, db) l = go_to (refused into e) (put_db db l)
  after_subscribe into (none, db) l = go_to (ready into) (put_db db l)

  -- What the loop does with what Pop has returned.
  abbrev pub after_pop : Request Obj → Round Db Sub Obj → Listener Db Sub Obj → Listener Db Sub Obj
  after_pop into (return_with (e, msg, c, s)) l = record l {
    codec = c;
    shared = s;
    reader = returned e msg;
  }
  after_pop into (continue_with c) l = record l { codec = c; reader = looping into }

module _ {Db Sub Conn Obj : Type 0} (n : Client Db Sub Conn) where
  -- c.sub.Subscribe(c.in)
  abbrev pub call_subscribe : Request Obj → Option Sub → Listener Db Sub Obj → Listener Db Sub Obj
  call_subscribe into none l = go_to nil_pointer l
  call_subscribe into (some sub) l =
      after_subscribe into (n.subscribe l.codec.in_channel sub l.codec.db) l

  -- c.sub.Close() of setupSubscription, which leaves its error aside
  abbrev pub call_close :
      Request Obj → GoError → Option Sub → Listener Db Sub Obj → Listener Db Sub Obj
  call_close into e none l = go_to nil_pointer l
  call_close into e (some sub) l =
      go_to (forgetting into e) (put_db (n.close_subscription sub l.codec.db).1 l)

  -- A step of the reading goroutine.
  unfoldable pub read_step : Reader Sub Obj → Listener Db Sub Obj → Listener Db Sub Obj
  unfolding popped
  read_step idle l = l
  read_step (looping into) l = go_to (tested into l.codec.sub) l
  read_step (checking into) l = go_to (checked into l.codec.sub) l
  read_step (opening into) l = opened into (n.subscription l.codec.db) l
  read_step (subscribing into) l = call_subscribe into l.codec.sub l
  read_step (refused into e) l = call_close into e l.codec.sub l
  read_step (forgetting into e) l = go_to (returned (some e) into) (clear_sub l)
  read_step (ready into) l = go_to (pop_of into l.codec.sub) l
  read_step (waiting into sub) l =
      after_pop into (popped n into l.codec l.shared (n.pop sub l.codec.db)) l
  read_step nil_pointer l = l
  read_step (returned e msg) l = l

  abbrev pub set_closer : ℕ → Closer → Listener Db Sub Obj → Listener Db Sub Obj
  set_closer i x l = record l { closers = update l.closers i x }

  -- c.sub.Unsubscribe(c.in) and c.sub.Close()
  abbrev pub call_unsubscribe : ℕ → Option Sub → Listener Db Sub Obj → Listener Db Sub Obj
  call_unsubscribe i none l = set_closer i lost l
  call_unsubscribe i (some sub) l =
      let (e, db) = n.unsubscribe l.codec.in_channel sub l.codec.db in
      set_closer i (closing e) (put_db db l)

  abbrev pub end_subscription :
      ℕ → Option GoError → Option Sub → Listener Db Sub Obj → Listener Db Sub Obj
  end_subscription i e none l = set_closer i lost l
  end_subscription i e (some sub) l =
      let (cerr, db) = n.close_subscription sub l.codec.db in
      set_closer i (clearing (first_error n e cerr)) (put_db db l)

  -- A step of the goroutine `i` in Close.
  unfoldable pub close_step : ℕ → Closer → Listener Db Sub Obj → Listener Db Sub Obj
  close_step i (away e) l = set_closer i (close_tested l.codec.sub) l
  close_step i unsubscribing l = call_unsubscribe i l.codec.sub l
  close_step i (closing e) l = end_subscription i e l.codec.sub l
  close_step i (clearing e) l = set_closer i (away e) (clear_sub l)
  close_step i lost l = l

  unfoldable pub move : Move Obj → Listener Db Sub Obj → Listener Db Sub Obj
  unfolding read_step close_step
  move (reads into) l = record l { reader = call_read into l.reader }
  move steps l = read_step l.reader l
  move (closes i) l = close_step i (l.closers i) l

  unfoldable pub moves : List (Move Obj) → Listener Db Sub Obj → Listener Db Sub Obj
  unfolding move
  moves [] l = l
  moves (x ∷ xs) l = moves xs (move x l)
