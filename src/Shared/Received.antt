-- ===== src/Shared/Received.antt =====
-- What a read hands to birpc is out of reach of the codec and of the pool.
use bimpc.Common.{All}
use bimpc.Common.{ℕ, ◌≡◌, ◌≤◌, sym, Option, none, some, [], ◌∷◌, arith, length}
use bimpc.Memory.{Bytes, Memory, Slice, bytes, IsValid, Owns}
use bimpc.Action.{GoError}
use bimpc.Mpc.{Message, Pool, Value, Request}
use bimpc.Mpc.HandOver.{payload, payload_slice}
use bimpc.Mpc.FromWire.{from_wire_lem, from_wire-fresh, from_wire-Moves, payload-bytes}
use bimpc.Mpc.Pool.{IsPool}
use bimpc.Mpc.Moves.{IsGuarded, Moves, Moves-trans, held-lt}
use bimpc.Shared.{Shared, IsShared, IsOutOfReach, received_by}

-- A slice of a new array is out of reach of every message of a pool that was there before.
fresh-All :
    (mem₀ mem mem' : Memory) (t : Slice) {shown : Bytes} (pool : Pool)
    → IsPool mem₀ pool
    → length mem₀ ≤ length mem
    → IsValid mem' t
    → bytes mem' t ≡ shown
    → ((b : ℕ) → Owns t b → length mem ≤ b)
    → All (IsGuarded t shown mem') pool
fresh-All mem₀ mem mem' t [] p grows v same fresh = tt
fresh-All mem₀ mem mem' t (n ∷ pool) p grows v same fresh = (
  record {
    valid = v;
    same = same;
    apart = λ b o h. absurd (omega (arith, fresh b o, held-lt mem₀ n p.0.wire b h));
  },
  fresh-All mem₀ mem mem' t pool p.2 grows v same fresh,
)

module _ {Obj : Type 0} where
  pub received_by-Moves :
      (msg : Request Obj) (e : Option GoError) {mem mem' : Memory} {m m' : Message}
      → Moves mem m mem' m'
      → let (_, _, wire', mem'') = received_by msg e m' mem' in Moves mem m mem'' wire'
  received_by-Moves msg none {mem' = mem'} {m' = m'} v =
      Moves-trans v (from_wire-Moves Obj mem' m' v.wire)
  received_by-Moves msg (some e) v = v

  -- The guard against the codec's message, as one against all.
  guard_all :
      (mem₀ mem : Memory) {mem' : Memory} {wire' : Message} {shown : Bytes} (v : Option (Value Obj))
      (pool : Pool)
      → IsPool mem₀ pool
      → length mem₀ ≤ length mem
      → IsGuarded (payload_slice v) shown mem' wire'
      → ((b : ℕ) → Owns (payload_slice v) b → length mem ≤ b)
      → IsOutOfReach (payload_slice v) (payload mem' v) wire' (record { mem = mem'; pool = pool })
  guard_all mem₀ mem {mem' = mem'} v pool p grows g fresh =
      let same = sym (payload-bytes mem' v) in
      record {
        from_codec = record { valid = g.valid; same = same; apart = g.apart };
        from_pool = fresh-All mem₀ mem mem' (payload_slice v) pool p grows g.valid same fresh;
      }

  pub received_by-IsOutOfReach :
      (msg : Request Obj) (e : Option GoError) {s : Shared} {wire wire₁ : Message} {mem₁ : Memory}
      → IsShared wire s
      → Moves s.mem wire mem₁ wire₁
      → (received_by msg e wire₁ mem₁).0 ≡ none
      → let (_, msg', wire', mem') = received_by msg e wire₁ mem₁ in
        IsOutOfReach
          (payload_slice msg'.args)
          (payload mem' msg'.args)
          wire'
          (record s { mem = mem' })
        × IsOutOfReach
            (payload_slice msg'.result)
            (payload mem' msg'.result)
            wire'
            (record s { mem = mem' })
  received_by-IsOutOfReach msg none {s} {wire₁ = wire₁} {mem₁ = mem₁} h v ok =
      let (_, ga, gr) = from_wire_lem Obj mem₁ wire₁ v.wire in
      let (fa, fr) = from_wire-fresh Obj mem₁ wire₁ v.wire in
      (
        guard_all s.mem mem₁ _ s.pool h.pool_ok v.grows ga fa,
        guard_all s.mem mem₁ _ s.pool h.pool_ok v.grows gr fr,
      )
  received_by-IsOutOfReach msg (some e) h v ok = absurd (cc)

  -- The payloads lie in arrays that were not there before the read.
  pub received_by-new :
      (msg : Request Obj) (e : Option GoError) {mem : Memory} {wire wire₁ : Message} {mem₁ : Memory}
      → Moves mem wire mem₁ wire₁
      → (received_by msg e wire₁ mem₁).0 ≡ none
      → let (_, msg', wire', mem') = received_by msg e wire₁ mem₁ in
        ((b : ℕ) → Owns (payload_slice msg'.args) b → length mem ≤ b)
        × ((b : ℕ) → Owns (payload_slice msg'.result) b → length mem ≤ b)
  received_by-new msg none {wire₁ = wire₁} {mem₁ = mem₁} v done =
      let (fa, fr) = from_wire-fresh Obj mem₁ wire₁ v.wire in
      ((λ b o. omega (arith, v.grows, fa b o)), (λ b o. omega (arith, v.grows, fr b o)))
  received_by-new msg (some e) v done = absurd (cc)
