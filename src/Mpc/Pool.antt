-- ===== src/Mpc/Pool.antt =====
-- The pool of wire messages: what GetMessage takes out is clean and its own, and what PutMessage puts
-- in holds no message and no large buffer.
use bimpc.Common.{All}
use bimpc.Common.{ℕ, ◌≤◌, ◌≡◌, refl, inl, inr, none, [], ◌∷◌, zero, suc, arith}
use bimpc.Memory.{Memory, Slice, nil_slice, slice, bytes, cap_of}
use bimpc.Mpc.{Message, Pool, new_message, get_message, put_message, keep, max_kept_buffer}
use bimpc.Mpc.HandOver.{keep-Owns, keep-IsValid}
use bimpc.Mpc.Gen.Form.{IsWire}
use bimpc.Mpc.Moves.{Holds, Disjoint, Disjoint-sym}
use bimpc.Mpc.FromWire.{kept-Holds}

-- A buffer that may be kept: nothing in it, and not too large.
pub record IsKept (mem : Memory) (s : Slice) : Type 0 where
  pub shows : bytes mem s ≡ []
  pub bound : cap_of mem s ≤ max_kept_buffer

pub record IsClean (mem : Memory) (m : Message) : Type 0 where
  pub args : IsKept mem m.args
  pub result : IsKept mem m.result
  pub error : m.error ≡ none
  pub wire : IsWire mem m

-- Every message of the pool is clean, and no two hold the same array.
abbrev pub IsPool : Memory → Pool → Type 0
IsPool mem [] = Unit {0}
IsPool mem (m ∷ pool) = IsClean mem m × All (Disjoint m) pool × IsPool mem pool

pub keep-IsKept : (mem : Memory) (s : Slice) → IsKept mem (keep mem s)
unfolding keep
keep-IsKept mem nil_slice = record { shows = refl; bound = omega arith }
keep-IsKept mem (slice b n) = ground arith

pub new_message-IsClean : (mem : Memory) → IsClean mem new_message
new_message-IsClean mem = record {
  args = record { shows = refl; bound = omega arith };
  result = record { shows = refl; bound = omega arith };
  error = refl;
  wire = record { args_valid = tt; result_valid = tt; apart = λ b o o'. o };
}

pub new_message-Holds : (b : ℕ) → ¬ Holds new_message b
new_message-Holds b (inl o) = o
new_message-Holds b (inr o) = o

pub new_message-Disjoint : (pool : Pool) → All (Disjoint new_message) pool
new_message-Disjoint [] = tt
new_message-Disjoint (m ∷ pool) = ((λ b o o'. new_message-Holds b o), new_message-Disjoint pool)

-- What holds of all the pool holds of the message that is taken out and of the rest.
pub get_message-All :
    (P : Message → Type 0) (pick : ℕ) (pool : Pool)
    → P new_message
    → All P pool
    → P (get_message pick pool).0 × All P (get_message pick pool).1
unfolding get_message
get_message-All P pick [] new h = (new, tt)
get_message-All P zero (m ∷ pool) new h = h
get_message-All P (suc pick) (m ∷ pool) new h =
    let (p, rest) = get_message-All P pick pool new h.1 in (p, (h.0, rest))

-- Whichever message `Get` chooses, it is clean, shares no array with those that stay, and these are
-- a pool again.
pub get_message-IsPool :
    (mem : Memory) (pick : ℕ) (pool : Pool)
    → IsPool mem pool
    → let (m, rest) = get_message pick pool in
      IsClean mem m × All (Disjoint m) rest × IsPool mem rest
unfolding get_message
get_message-IsPool mem pick [] h = (new_message-IsClean mem, tt, tt)
get_message-IsPool mem zero (m ∷ pool) h = h
get_message-IsPool mem (suc pick) (m ∷ pool) h =
    let (clean, apart, rest) = get_message-IsPool mem pick pool h.2 in
    let (d, others) =
      get_message-All (Disjoint m) pick pool (λ b o o'. new_message-Holds b o') h.1 in
    (clean, (Disjoint-sym m (get_message pick pool).0 d, apart), (h.0, others, rest))

kept_Disjoint :
    (mem : Memory) (m : Message) (pool : Pool)
    → All (Disjoint m) pool
    → All
        (Disjoint (record m { args = keep mem m.args; result = keep mem m.result; error = none }))
        pool
kept_Disjoint mem m [] h = tt
kept_Disjoint mem m (n ∷ pool) h =
    ((λ b o. h.0 b (kept-Holds mem m b o)), kept_Disjoint mem m pool h.1)

-- Whatever was written into the message, and whether or not that failed, what PutMessage puts into
-- the pool is clean: no error, empty payloads, and no buffer above the bound.
pub put_message-IsPool :
    (mem : Memory) (m : Message) (pool : Pool)
    → IsWire mem m
    → All (Disjoint m) pool
    → IsPool mem pool
    → IsPool mem (put_message mem m pool)
unfolding put_message
put_message-IsPool mem m pool w d h = (
  record {
    args = keep-IsKept mem m.args;
    result = keep-IsKept mem m.result;
    error = refl;
    wire = record {
      args_valid = keep-IsValid mem m.args w.args_valid;
      result_valid = keep-IsValid mem m.result w.result_valid;
      apart = λ b o o'. w.apart b (keep-Owns mem m.args b o) (keep-Owns mem m.result b o');
    };
  },
  kept_Disjoint mem m pool d,
  h,
)
