-- ===== src/Shared/Flight.antt =====
-- Messages that are out of the pool while WriteMessages of several goroutines are under way, by
-- goroutine. One that has none has a new message, which holds no array.
use bimpc.Common.{ℕ, ◌≡◌, ◌≢◌, refl, sym, ◌∙◌, inl, inr, All, update, update_cases}
use bimpc.Memory.{Memory, Slice, bytes, IsValid, Owns}
use bimpc.Mpc.{Message, new_message, get_message, put_message}
use bimpc.Mpc.Gen.Form.{IsWire, content}
use bimpc.Mpc.Pool.{
  get_message-IsPool, get_message-All, new_message-Holds, put_message-IsPool, new_message-IsClean,
  new_message-Disjoint,
}
use bimpc.Mpc.Moves.{
  Holds, Disjoint, Disjoint-sym, Moves, Moves-IsWire, Moves-IsGuarded, Moves-Disjoint,
}
use bimpc.Shared.{Shared, IsShared}
use bimpc.Shared.Keep.{Moves-IsPool, Moves-All, put_message-Disjoint}

-- All of them lie in the store, and no two of them hold the same array, nor does one of them hold an
-- array of the codec or of the pool.
pub record IsFlight (wire : Message) (s : Shared) (held : ℕ → Message) : Type 0 where
  pub shared : IsShared wire s
  pub valid : (i : ℕ) → IsWire s.mem (held i)
  pub from_codec : (i : ℕ) → Disjoint (held i) wire
  pub from_pool : (i : ℕ) → All (Disjoint (held i)) s.pool
  pub apart : (i j : ℕ) → i ≢ j → Disjoint (held i) (held j)

pub IsFlight-start :
    (wire : Message) (s : Shared) → IsShared wire s → IsFlight wire s (λ i. new_message)
IsFlight-start wire s h = record {
  shared = h;
  valid = λ i. (new_message-IsClean s.mem).wire;
  from_codec = λ i b o. absurd (new_message-Holds b o);
  from_pool = λ i. new_message-Disjoint s.pool;
  apart = λ i j n b o. absurd (new_message-Holds b o);
}

module _ {wire : Message} {s : Shared} {held : ℕ → Message} (h : IsFlight wire s held) where
  -- The updated family: what is known of the new message, and of those of the others.
  apart_update :
      (i : ℕ) (m : Message)
      → ((j : ℕ) → i ≢ j → Disjoint m (held j))
      → (j k : ℕ) → j ≢ k
      → Disjoint (update held i m j) (update held i m k)
  apart_update i m d j k n =
      update_cases held i m (λ x. Disjoint x (update held i m k)) j
        (λ e.
          update_cases held i m (λ y. Disjoint m y) k (λ e'. absurd (n (sym e ∙ e')))
            (λ n'. d k n'))
        (λ n'.
          update_cases held i m (λ y. Disjoint (held j) y) k
            (λ e'. Disjoint-sym m (held j) (d j n')) (λ n''. h.apart j k n))

  -- GetMessage by the goroutine `i`, whichever message is chosen.
  pub IsFlight-get :
      (i pick : ℕ)
      → let (m, rest) = get_message pick s.pool in
        IsFlight wire (record s { pool = rest }) (update held i m)
  IsFlight-get i pick =
      let (clean, others, rest_ok) = get_message-IsPool s.mem pick s.pool h.shared.pool_ok in
      let (m, rest) = get_message pick s.pool in
      let taken = λ (n : Message) (d : All (Disjoint n) s.pool).
        get_message-All (Disjoint n) pick s.pool (λ b o o'. new_message-Holds b o') d in
      record {
        shared = record {
          wire_ok = h.shared.wire_ok;
          pool_ok = rest_ok;
          apart = (taken wire h.shared.apart).1;
        };
        valid = λ j. update_cases held i m (IsWire s.mem) j (λ e. clean.wire) (λ n. h.valid j);
        from_codec = λ j.
            update_cases held i m (λ x. Disjoint x wire) j
              (λ e. Disjoint-sym wire m (taken wire h.shared.apart).0) (λ n. h.from_codec j);
        from_pool = λ j.
            update_cases held i m (λ x. All (Disjoint x) rest) j (λ e. others)
              (λ n. (taken (held j) (h.from_pool j)).1);
        apart =
            apart_update i m (λ j n. Disjoint-sym (held j) m (taken (held j) (h.from_pool j)).0);
      }

  -- What the goroutine `i` does to its own message.
  pub IsFlight-move :
      (i : ℕ) {mem' : Memory} {m' : Message}
      → Moves s.mem (held i) mem' m'
      → IsFlight wire (record s { mem = mem' }) (update held i m')
  IsFlight-move i {mem'} {m'} v = record {
    shared = record {
      wire_ok = Moves-IsWire v wire h.shared.wire_ok;
      pool_ok = Moves-IsPool v s.pool (h.from_pool i) h.shared.pool_ok;
      apart = h.shared.apart;
    };
    valid = λ j.
        update_cases held i m' (IsWire mem') j (λ e. v.wire)
          (λ n. Moves-IsWire v (held j) (h.valid j));
    from_codec = λ j.
        update_cases held i m' (λ x. Disjoint x wire) j
          (λ e. Moves-Disjoint v wire h.shared.wire_ok (h.from_codec i)) (λ n. h.from_codec j);
    from_pool = λ j.
        update_cases held i m' (λ x. All (Disjoint x) s.pool) j
          (λ e. Moves-All v s.pool h.shared.pool_ok (h.from_pool i)) (λ n. h.from_pool j);
    apart = apart_update i m' (λ j n. Moves-Disjoint v (held j) (h.valid j) (h.apart i j n));
  }

  -- A read: the codec's own message moves.
  pub IsFlight-read :
      {mem' : Memory} {wire' : Message}
      → Moves s.mem wire mem' wire'
      → IsFlight wire' (record s { mem = mem' }) held
  IsFlight-read {mem'} {wire'} v = record {
    shared = record {
      wire_ok = v.wire;
      pool_ok = Moves-IsPool v s.pool h.shared.apart h.shared.pool_ok;
      apart = Moves-All v s.pool h.shared.pool_ok h.shared.apart;
    };
    valid = λ j. Moves-IsWire v (held j) (h.valid j);
    from_codec = λ j.
        Disjoint-sym wire' (held j)
          (Moves-Disjoint v (held j) (h.valid j) (Disjoint-sym (held j) wire (h.from_codec j)));
    from_pool = h.from_pool;
    apart = h.apart;
  }

  -- PutMessage by the goroutine `i`, which has none then.
  pub IsFlight-put :
      (i : ℕ)
      → IsFlight wire
          (record s { pool = put_message s.mem (held i) s.pool })
          (update held i new_message)
  IsFlight-put i = record {
    shared = record {
      wire_ok = h.shared.wire_ok;
      pool_ok =
          put_message-IsPool s.mem (held i) s.pool (h.valid i) (h.from_pool i) h.shared.pool_ok;
      apart =
          put_message-Disjoint s.mem (held i) wire s.pool
            (Disjoint-sym (held i) wire (h.from_codec i)) h.shared.apart;
    };
    valid = λ j.
        update_cases held i new_message (IsWire s.mem) j (λ e. (new_message-IsClean s.mem).wire)
          (λ n. h.valid j);
    from_codec = λ j.
        update_cases held i new_message (λ x. Disjoint x wire) j
          (λ e b o. absurd (new_message-Holds b o)) (λ n. h.from_codec j);
    from_pool = λ j.
        update_cases held i new_message (λ x. All (Disjoint x) (put_message s.mem (held i) s.pool))
          j (λ e. new_message-Disjoint (put_message s.mem (held i) s.pool))
          (λ n.
            put_message-Disjoint s.mem (held i) (held j) s.pool
              (Disjoint-sym (held i) (held j) (h.apart i j n)) (h.from_pool j));
    apart = apart_update i new_message (λ j n b o. absurd (new_message-Holds b o));
  }

-- A message that says something says the same after another one has moved.
pub Moves-content :
    {mem mem' : Memory} {m m' : Message} (v : Moves mem m mem' m') (n : Message)
    → IsWire mem n
    → Disjoint m n
    → content mem' n ≡ content mem n
Moves-content {mem} {mem'} {m} v n w d i = record {
  id = n.id;
  func = n.func;
  args = same n.args w.args_valid (λ b o o'. d b o' (inl o)) i;
  result = same n.result w.result_valid (λ b o o'. d b o' (inr o)) i;
  error = n.error;
}
  where
    same :
        (t : Slice)
        → IsValid mem t
        → ((b : ℕ) → Owns t b → ¬ Holds m b)
        → bytes mem' t ≡ bytes mem t
    same t valid apart =
        (Moves-IsGuarded v {t = t} (record { valid = valid; same = refl; apart = apart })).same
