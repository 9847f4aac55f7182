-- ===== src/Redis/Concurrent/NilPointer.antt =====
-- Pop and Subscribe on a nil pointer: c.sub is read to test it and read again for each call.
use bimpc.Common.{
  ℕ, ◌≡◌, refl, Option, none, some, List, [], ◌∷◌, ◌++◌, All, eq_self, ◌==◌, false, ◌≢◌, arith,
}
use bimpc.Action.{GoError}
use bimpc.Mpc.{Request}
use bimpc.Redis.{Client, Round, return_with, continue_with, popped}
use bimpc.Redis.Concurrent.{
  Reader, idle, looping, checking, opening, subscribing, refused, forgetting, ready, waiting,
  nil_pointer, returned, away, lost, Listener, Move, reads, steps, closes, call_read, tested,
  checked, opened, after_subscribe, pop_of, after_pop, call_subscribe, call_close, read_step,
  close_step, move, moves,
}
use bimpc.Redis.Concurrent.Resubscribes.{whole_close}

-- The codec has a subscription.
abbrev pub HasSub : {Sub : Type 0} → Option Sub → Type 0
HasSub {Sub} o = (sub : Sub) × (o ≡ some sub)

module _ {Sub Obj : Type 0} where
  -- Where a method of c.sub is to be called next, the codec has a subscription, and none has been called
  -- on a nil pointer.
  abbrev pub IsGuarded : Reader Sub Obj → Option Sub → Type 0
  IsGuarded idle o = Unit
  IsGuarded (looping into) o = Unit
  IsGuarded (checking into) o = Unit
  IsGuarded (opening into) o = Unit
  IsGuarded (subscribing into) o = HasSub o
  IsGuarded (refused into e) o = HasSub o
  IsGuarded (forgetting into e) o = Unit
  IsGuarded (ready into) o = HasSub o
  IsGuarded (waiting into sub) o = Unit
  IsGuarded nil_pointer o = ⊥
  IsGuarded (returned e msg) o = Unit

  tested-IsGuarded : (into : Request Obj) (o : Option Sub) → IsGuarded (tested into o) o
  tested-IsGuarded into none = tt
  tested-IsGuarded into (some sub) = (sub, refl)

  checked-IsGuarded : (into : Request Obj) (o : Option Sub) → IsGuarded (checked into o) o
  checked-IsGuarded into none = tt
  checked-IsGuarded into (some sub) = (sub, refl)

  pop_of-IsGuarded : (into : Request Obj) (o : Option Sub) → HasSub o → IsGuarded (pop_of into o) o
  pop_of-IsGuarded into none (sub, e) = absurd (cc)
  pop_of-IsGuarded into (some sub) h = tt

  call_read-IsGuarded :
      (into : Request Obj) (r : Reader Sub Obj) (o : Option Sub)
      → IsGuarded r o
      → IsGuarded (call_read into r) o
  call_read-IsGuarded into idle o g = tt
  call_read-IsGuarded into (looping msg) o g = tt
  call_read-IsGuarded into (checking msg) o g = tt
  call_read-IsGuarded into (opening msg) o g = tt
  call_read-IsGuarded into (subscribing msg) o g = g
  call_read-IsGuarded into (refused msg e) o g = g
  call_read-IsGuarded into (forgetting msg e) o g = tt
  call_read-IsGuarded into (ready msg) o g = g
  call_read-IsGuarded into (waiting msg sub) o g = tt
  call_read-IsGuarded into nil_pointer o g = absurd g
  call_read-IsGuarded into (returned e msg) o g = tt

abbrev pub IsNotClose : {Obj : Type 0} → Move Obj → Type 0
IsNotClose (reads into) = Unit
IsNotClose steps = Unit
IsNotClose (closes i) = ⊥

module _ {Db Sub Obj : Type 0} where
  abbrev pub IsSafe : Listener Db Sub Obj → Type 0
  IsSafe l = IsGuarded l.reader l.codec.sub

  opened-IsSafe :
      (into : Request Obj) (x : Sub × Option GoError × Db) (l : Listener Db Sub Obj)
      → IsSafe (opened into x l)
  opened-IsSafe into (sub, some e, db) l = tt
  opened-IsSafe into (sub, none, db) l = (sub, refl)

  after_subscribe-IsSafe :
      (into : Request Obj) (x : Option GoError × Db) (l : Listener Db Sub Obj)
      → HasSub l.codec.sub
      → IsSafe (after_subscribe into x l)
  after_subscribe-IsSafe into (some e, db) l h = h
  after_subscribe-IsSafe into (none, db) l h = h

  after_pop-IsSafe :
      (into : Request Obj) (r : Round Db Sub Obj) (l : Listener Db Sub Obj)
      → IsSafe (after_pop into r l)
  after_pop-IsSafe into (return_with x) l = tt
  after_pop-IsSafe into (continue_with c) l = tt

module _ {Db Sub Conn Obj : Type 0} (n : Client Db Sub Conn) where
  call_subscribe-IsSafe :
      (into : Request Obj) (o : Option Sub) (l : Listener Db Sub Obj)
      → HasSub o
      → HasSub l.codec.sub
      → IsSafe (call_subscribe n into o l)
  call_subscribe-IsSafe into none l (sub, e) h = absurd (cc)
  call_subscribe-IsSafe into (some sub) l _ h =
      after_subscribe-IsSafe into (n.subscribe l.codec.in_channel sub l.codec.db) l h

  call_close-IsSafe :
      (into : Request Obj) (x : GoError) (o : Option Sub) (l : Listener Db Sub Obj)
      → HasSub o
      → IsSafe (call_close n into x o l)
  call_close-IsSafe into x none l (sub, e) = absurd (cc)
  call_close-IsSafe into x (some sub) l h = tt

  read_step-IsSafe :
      (r : Reader Sub Obj) (l : Listener Db Sub Obj)
      → l.reader ≡ r
      → IsGuarded r l.codec.sub
      → IsSafe (read_step n r l)
  unfolding read_step
  read_step-IsSafe idle l e g = rw e tt
  read_step-IsSafe (looping into) l e g = tested-IsGuarded into l.codec.sub
  read_step-IsSafe (checking into) l e g = checked-IsGuarded into l.codec.sub
  read_step-IsSafe (opening into) l e g = opened-IsSafe into (n.subscription l.codec.db) l
  read_step-IsSafe (subscribing into) l e g = call_subscribe-IsSafe into l.codec.sub l g g
  read_step-IsSafe (refused into x) l e g = call_close-IsSafe into x l.codec.sub l g
  read_step-IsSafe (forgetting into x) l e g = tt
  read_step-IsSafe (ready into) l e g = pop_of-IsGuarded into l.codec.sub g
  read_step-IsSafe (waiting into sub) l e g =
      after_pop-IsSafe into (popped n into l.codec l.shared (n.pop sub l.codec.db)) l
  read_step-IsSafe nil_pointer l e g = absurd g
  read_step-IsSafe (returned x msg) l e g = rw e tt

  move-IsSafe :
      (x : Move Obj) (l : Listener Db Sub Obj) → IsNotClose x → IsSafe l → IsSafe (move n x l)
  unfolding move
  move-IsSafe (reads into) l no_close g = call_read-IsGuarded into l.reader l.codec.sub g
  move-IsSafe steps l no_close g = read_step-IsSafe l.reader l refl g
  move-IsSafe (closes i) l no_close g = absurd no_close

  -- Where no Close comes, ReadMessage never calls Pop, Subscribe or Close on a nil pointer: whatever the
  -- client returns, and however often ReadMessage is called, the codec has a subscription whenever one
  -- of them is about to be called.
  pub moves-IsGuarded :
      (xs : List (Move Obj)) (l : Listener Db Sub Obj)
      → All IsNotClose xs
      → IsGuarded l.reader l.codec.sub
      → let l' = moves n xs l in IsGuarded l'.reader l'.codec.sub
  unfolding moves
  moves-IsGuarded [] l no_close g = g
  moves-IsGuarded (x ∷ xs) l no_close g =
      moves-IsGuarded xs (move n x l) no_close.1 (move-IsSafe x l no_close.0 g)

  -- A Close between the test of c.sub and the call of Pop: ReadMessage calls Pop on a nil pointer,
  -- whatever Unsubscribe and Close of the subscription return.
  pub close-popping_nil :
      (i : ℕ) (l : Listener Db Sub Obj) (into : Request Obj) (e : Option GoError) (sub : Sub)
      → l.closers i ≡ away e
      → l.reader ≡ looping into
      → l.codec.sub ≡ some sub
      → (moves n (steps ∷ (whole_close i ++ (steps ∷ []))) l).reader ≡ nil_pointer
  unfolding moves move read_step close_step
  close-popping_nil i l into e sub at_rest reading has = simp (at_rest, reading, has, eq_self i)

  -- Two Closes, both past the test of c.sub before either has set it to nil: when the first is done, the
  -- second calls Unsubscribe on a nil pointer.
  pub close-closing_nil :
      (i j : ℕ) (l : Listener Db Sub Obj) (e e' : Option GoError) (sub : Sub)
      → i ≢ j
      → l.closers i ≡ away e
      → l.closers j ≡ away e'
      → l.codec.sub ≡ some sub
      → (moves n (closes i ∷ closes j ∷ closes i ∷ closes i ∷ closes i ∷ closes j ∷ []) l).closers j
        ≡ lost
  unfolding moves move close_step
  close-closing_nil i j l e e' sub apart rest_i rest_j has =
      let i_j : (i == j) ≡ false = ground arith in
      let j_i : (j == i) ≡ false = ground arith in
      simp (rest_i, rest_j, has, eq_self i, eq_self j, i_j, j_i)
