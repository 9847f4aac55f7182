-- ===== src/Action.antt =====
-- Go's way to fail: an error value beside the result, and the state that a failing call has already
-- changed. A method that returns early on an error is a `do` block.
pub mod Rules
use Prim.Native.String.{String}
use bimpc.Common.{ℕ, Option, none, some, Bool, if◌then◌else◌}

-- The errors that the code makes or passes on. `foreign` is any error of a library.
pub data GoError : Type 0 where
  foreign : ℕ → GoError
  -- msgp.ArrayError{Wanted, Got}
  array_error : (wanted got : ℕ) → GoError
  -- fmt.Errorf with a fixed text and the error that it wraps
  errorf : String → GoError → GoError
  -- the three refusals of mpc.go, whose texts name a Go type
  not_marshaler not_unmarshaler not_raw : GoError
  -- ErrInvalidMsg of websocket.go
  invalid_msg : GoError
  -- ErrExploded of testmsg.go
  exploded : GoError

pub data Result (A : Type 0) : Type 0 where
  ok : A → Result A
  err : GoError → Result A

abbrev pub Action : Type 0 → Type 0 → Type 0
Action S A = S → Result A × S

module _ {S : Type 0} where
  abbrev pub pure : {A : Type 0} → A → Action S A
  pure a s = (ok a, s)

  abbrev pub throw : {A : Type 0} → GoError → Action S A
  throw e s = (err e, s)

  abbrev pub modify : (S → S) → Action S (Unit {0})
  modify f s = (ok tt, f s)

  abbrev pub continue : {A B : Type 0} → Result A × S → (A → Action S B) → Result B × S
  continue (ok a, s) f = f a s
  continue (err e, s) f = (err e, s)

  -- `if err != nil { return wrap(err) }`, where the call has left the state `s`.
  abbrev pub returned : {A : Type 0} → (GoError → GoError) → Option GoError → A → S → Result A × S
  returned wrap none a s = (ok a, s)
  returned wrap (some e) a s = (err (wrap e), s)

  abbrev pub check : Bool → GoError → Action S (Unit {0})
  check b e s = (if b then ok tt else err e, s)

infixl 5 ◌>>=◌ ◌>>◌
abbrev pub ◌>>=◌ : {S A B : Type 0} → Action S A → (A → Action S B) → Action S B
◌>>=◌ m f s = continue (m s) f

abbrev pub ◌>>◌ : {S B : Type 0} → Action S (Unit {0}) → Action S B → Action S B
m >> k = m >>= λ _. k

-- The error that a method returns, nil if there is none.
abbrev pub error_of : {A : Type 0} → Result A → Option GoError
error_of (ok a) = none
error_of (err e) = some e
