-- ===== src/Generic/Concurrent.antt =====
-- generic/generic.go: WriteMessage by any number of goroutines at a time, and ReadMessage in between. A
-- step takes one goroutine to the next point where it matters that others run: GetMessage, ToWire, the
-- locked part of WriteMessage, and the deferred PutMessage.
pub mod Held
pub mod Invariant
pub mod Sent
pub mod Delivered
pub mod Arrived
use bimpc.Common.{ℕ, Option, none, some, List, [], ◌∷◌, update}
use bimpc.Action.{GoError, Result, ok, err}
use bimpc.Mpc.{
  Message, new_message, Request, Value, Marshaler, Filling, get_message, put_message, to_wire,
}
use bimpc.Shared.{Shared}
use bimpc.Generic.{Connection, Codec, send, read_message}

-- Where a goroutine is in WriteMessage, with its message of the pool: it has not called it or it has
-- returned with the error, it has the message, it has filled it in, or it is about to return the error.
pub data Writer (Obj : Type 0) : Type 0 where
  outside : Option GoError → Writer Obj
  taken filled : Request Obj → Message → Writer Obj
  finished : Option GoError → Message → Writer Obj

abbrev pub message_of : {Obj : Type 0} → Writer Obj → Message
message_of (outside e) = new_message
message_of (taken msg m) = m
message_of (filled msg m) = m
message_of (finished e m) = m

pub record System (C R W Obj : Type 0) : Type 0 where
  pub codec : Codec C R W
  pub shared : Shared
  pub writers : ℕ → Writer Obj

-- The goroutine `i` calls WriteMessage, where the pool gives out the message `pick`, and goes on; or
-- ReadMessage is called.
pub data Step (Obj : Type 0) : Type 0 where
  begins : (i pick : ℕ) → Request Obj → Step Obj
  fills sends returns : (i : ℕ) → Step Obj
  reads : Request Obj → Step Obj

-- What ToWire has returned.
abbrev pub after_fill : {Obj : Type 0} → Request Obj → Result (Unit {0}) × Filling → Writer Obj
after_fill msg (ok _, x) = filled msg x.m
after_fill msg (err e, x) = finished (some e) x.m

module _ {C R W Obj : Type 0} where
  abbrev pub set_writer : ℕ → Writer Obj → System C R W Obj → System C R W Obj
  set_writer i x s = record s { writers = update s.writers i x }

  -- m := mpc.GetMessage()
  unfoldable pub begin : ℕ → ℕ → Request Obj → Writer Obj → System C R W Obj → System C R W Obj
  begin i pick msg (outside e) s =
      let (m, rest) = get_message pick s.shared.pool in
      set_writer i (taken msg m) (record s { shared = record s.shared { pool = rest } })
  begin i pick msg (taken msg' m) s = s
  begin i pick msg (filled msg' m) s = s
  begin i pick msg (finished e m) s = s

  -- mpc.PutMessage(m)
  unfoldable pub put_back : ℕ → Writer Obj → System C R W Obj → System C R W Obj
  put_back i (outside e) s = s
  put_back i (taken msg m) s = s
  put_back i (filled msg m) s = s
  put_back i (finished e m) s =
      set_writer i (outside e)
        (record s { shared = record s.shared { pool = put_message s.shared.mem m s.shared.pool } })

  module _ (n : Connection C R W) where
    -- c.wmu.Lock() until the method returns
    unfoldable pub locked_send : ℕ → Writer Obj → System C R W Obj → System C R W Obj
    unfolding send
    locked_send i (outside e) s = s
    locked_send i (taken msg m) s = s
    locked_send i (filled msg m) s =
        let (e, w') = send n s.shared.mem m s.codec.w in
        set_writer i (finished e m) (record s { codec = record s.codec { w = w' } })
    locked_send i (finished e m) s = s

    module _ (as_marshaler : Value Obj → Option Marshaler) where
      -- mpc.ToWire(m, msg)
      unfoldable pub fill : ℕ → Writer Obj → System C R W Obj → System C R W Obj
      fill i (outside e) s = s
      fill i (taken msg m) s =
          let r = to_wire as_marshaler msg (record { m = m; mem = s.shared.mem }) in
          set_writer i (after_fill msg r) (record s { shared = record s.shared { mem = r.1.mem } })
      fill i (filled msg m) s = s
      fill i (finished e m) s = s

      unfoldable pub take_step : Step Obj → System C R W Obj → System C R W Obj
      unfolding begin fill locked_send put_back read_message
      take_step (begins i pick msg) s = begin i pick msg (s.writers i) s
      take_step (fills i) s = fill i (s.writers i) s
      take_step (sends i) s = locked_send i (s.writers i) s
      take_step (returns i) s = put_back i (s.writers i) s
      take_step (reads into) s =
          let (e, msg, c, t) = read_message n into s.codec s.shared in
          record s { codec = c; shared = t }

      unfoldable pub take_steps : List (Step Obj) → System C R W Obj → System C R W Obj
      unfolding take_step
      take_steps [] s = s
      take_steps (x ∷ xs) s = take_steps xs (take_step x s)
