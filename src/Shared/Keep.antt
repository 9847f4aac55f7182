-- ===== src/Shared/Keep.antt =====
-- A message of the pool does not notice what is done to another message.
use bimpc.Common.{All}
use bimpc.Common.{ℕ, ◌≡◌, refl, ◌∙◌, inl, inr, [], ◌∷◌}
use bimpc.Memory.{Bytes, Memory, Slice, nil_slice, slice, cap_of, IsValid, Owns}
use bimpc.Mpc.{Message, Pool, put_message}
use bimpc.Mpc.FromWire.{kept-Holds}
use bimpc.Mpc.Pool.{IsPool, IsClean, IsKept}
use bimpc.Mpc.Moves.{
  Holds, Disjoint, IsGuarded, Moves, Moves-IsWire, Moves-IsGuarded, Moves-Disjoint,
}

module _ {mem mem' : Memory} {m m' : Message} (v : Moves mem m mem' m') where
  Moves-cap : (s : Slice) → IsValid mem s → cap_of mem' s ≡ cap_of mem s
  Moves-cap nil_slice h = refl
  Moves-cap (slice b n) h = v.sizes b h.0

  Moves-IsKept :
      (s : Slice)
      → IsValid mem s
      → ((b : ℕ) → Owns s b → ¬ Holds m b)
      → IsKept mem s
      → IsKept mem' s
  Moves-IsKept s h apart k = record {
    shows =
        (Moves-IsGuarded v {t = s} (record { valid = h; same = refl; apart = apart })).same
        ∙ k.shows;
    bound = rw (Moves-cap s h) k.bound;
  }

  Moves-IsClean : (n : Message) → Disjoint m n → IsClean mem n → IsClean mem' n
  Moves-IsClean n d c = record {
    args = Moves-IsKept n.args c.wire.args_valid (λ b o h. d b h (inl o)) c.args;
    result = Moves-IsKept n.result c.wire.result_valid (λ b o h. d b h (inr o)) c.result;
    error = c.error;
    wire = Moves-IsWire v n c.wire;
  }

  -- The pool stays a pool, and shares no array with what the message has become.
  pub Moves-IsPool : (pool : Pool) → All (Disjoint m) pool → IsPool mem pool → IsPool mem' pool
  Moves-IsPool [] d h = tt
  Moves-IsPool (n ∷ pool) d h = (Moves-IsClean n d.0 h.0, h.1, Moves-IsPool pool d.1 h.2)

  pub Moves-All : (pool : Pool) → IsPool mem pool → All (Disjoint m) pool → All (Disjoint m') pool
  Moves-All [] h d = tt
  Moves-All (n ∷ pool) h d = (Moves-Disjoint v n h.0.wire d.0, Moves-All pool h.2 d.1)

  -- A slice that neither the message nor `n` can reach is afterwards as it was for `n`.
  pub Moves-IsGuarded_other :
      {t : Slice} {shown : Bytes} (n : Message)
      → IsGuarded t shown mem m
      → IsGuarded t shown mem n
      → IsGuarded t shown mem' n
  Moves-IsGuarded_other {t} n g gn =
      let g' = Moves-IsGuarded v {t = t} g in
      record { valid = g'.valid; same = g'.same; apart = gn.apart }

  pub Moves-All-IsGuarded :
      {t : Slice} {shown : Bytes} (pool : Pool)
      → IsGuarded t shown mem m
      → All (IsGuarded t shown mem) pool
      → All (IsGuarded t shown mem') pool
  Moves-All-IsGuarded [] g h = tt
  Moves-All-IsGuarded (n ∷ pool) g h =
      (Moves-IsGuarded_other n g h.0, Moves-All-IsGuarded pool g h.1)

-- What is apart from a message is apart from what PutMessage makes of it.
pub put_message-Disjoint :
    (mem : Memory) (m n : Message) (pool : Pool)
    → Disjoint n m
    → All (Disjoint n) pool
    → All (Disjoint n) (put_message mem m pool)
unfolding put_message
put_message-Disjoint mem m n pool d h = ((λ b o o'. d b o (kept-Holds mem m b o')), h)

pub put_message-IsGuarded :
    {t : Slice} {shown : Bytes} (mem : Memory) (m : Message) (pool : Pool)
    → IsGuarded t shown mem m
    → All (IsGuarded t shown mem) pool
    → All (IsGuarded t shown mem) (put_message mem m pool)
unfolding put_message
put_message-IsGuarded mem m pool g h = (
  record { valid = g.valid; same = g.same; apart = λ b o o'. g.apart b o (kept-Holds mem m b o') },
  h,
)
