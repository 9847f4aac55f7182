-- ===== src/Shared/Beyond.antt =====
-- A slice that neither the codec nor the pool nor any goroutine in WriteMessage can write to.
use bimpc.Common.{ℕ, update, update_cases}
use bimpc.Memory.{Bytes, Memory, Slice}
use bimpc.Mpc.{Message, new_message, get_message, put_message}
use bimpc.Mpc.Pool.{get_message-All, new_message-Holds}
use bimpc.Mpc.Moves.{IsGuarded, Moves, Moves-IsGuarded}
use bimpc.Shared.{Shared, IsOutOfReach}
use bimpc.Shared.Keep.{Moves-IsGuarded_other, Moves-All-IsGuarded, put_message-IsGuarded}

pub record IsBeyond (t : Slice) (shown : Bytes) (wire : Message) (s : Shared) (held : ℕ → Message)
    : Type 0 where
  pub out : IsOutOfReach t shown wire s
  pub from_writers : (i : ℕ) → IsGuarded t shown s.mem (held i)

module _ {t : Slice} {shown : Bytes} {wire : Message} {s : Shared} {held : ℕ → Message}
    (h : IsBeyond t shown wire s held) where
  -- From a new message, which holds nothing.
  unreached : IsGuarded t shown s.mem new_message
  unreached = record {
    valid = h.out.from_codec.valid;
    same = h.out.from_codec.same;
    apart = λ b o. new_message-Holds b;
  }

  pub IsBeyond-get :
      (i pick : ℕ)
      → let (m, rest) = get_message pick s.pool in
        IsBeyond t shown wire (record s { pool = rest }) (update held i m)
  IsBeyond-get i pick =
      let (here, others) =
        get_message-All (IsGuarded t shown s.mem) pick s.pool unreached h.out.from_pool in
      record {
        out = record { from_codec = h.out.from_codec; from_pool = others };
        from_writers = λ j.
            update_cases held i (get_message pick s.pool).0 (IsGuarded t shown s.mem) j (λ e. here)
              (λ n. h.from_writers j);
      }

  pub IsBeyond-move :
      (i : ℕ) {mem' : Memory} {m' : Message}
      → Moves s.mem (held i) mem' m'
      → IsBeyond t shown wire (record s { mem = mem' }) (update held i m')
  IsBeyond-move i {mem'} {m'} v = record {
    out = record {
      from_codec = Moves-IsGuarded_other v wire (h.from_writers i) h.out.from_codec;
      from_pool = Moves-All-IsGuarded v s.pool (h.from_writers i) h.out.from_pool;
    };
    from_writers = λ j.
        update_cases held i m' (IsGuarded t shown mem') j
          (λ e. Moves-IsGuarded v (h.from_writers i))
          (λ n. Moves-IsGuarded_other v (held j) (h.from_writers i) (h.from_writers j));
  }

  pub IsBeyond-read :
      {mem' : Memory} {wire' : Message}
      → Moves s.mem wire mem' wire'
      → IsBeyond t shown wire' (record s { mem = mem' }) held
  IsBeyond-read v = record {
    out = record {
      from_codec = Moves-IsGuarded v h.out.from_codec;
      from_pool = Moves-All-IsGuarded v s.pool h.out.from_codec h.out.from_pool;
    };
    from_writers = λ j. Moves-IsGuarded_other v (held j) h.out.from_codec (h.from_writers j);
  }

  pub IsBeyond-put :
      (i : ℕ)
      → IsBeyond t shown wire
          (record s { pool = put_message s.mem (held i) s.pool })
          (update held i new_message)
  IsBeyond-put i = record {
    out = record {
      from_codec = h.out.from_codec;
      from_pool = put_message-IsGuarded s.mem (held i) s.pool (h.from_writers i) h.out.from_pool;
    };
    from_writers = λ j.
        update_cases held i new_message (IsGuarded t shown s.mem) j (λ e. unreached)
          (λ n. h.from_writers j);
  }
