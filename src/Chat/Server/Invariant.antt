-- ===== src/Chat/Server/Invariant.antt =====
-- The invariant of a connection: every turn of serve, of the pump and of a client keeps it.
use mathlib.Core.Path.{subst}
use native.Mathlib.Decide.{dec_lt}
use bimpc.Common.{
  ℕ, ◌≤◌, ◌<◌, ◌≡◌, refl, sym, ap, ◌∙◌, Option, none, some, Bool, true, false, List, [], ◌∷◌, ◌++◌,
  length, length-append, arith, Bool-cases, inl, inr,
}
use bimpc.Action.{GoError}
use bimpc.Chat.{Incoming}
use bimpc.Chat.Server.{
  Item, outgoing, other, Channel, capacity, Topic, TopicLaws, Handler, upgrading, registering,
  greeting, spawning, serving, unregistering, returned, Pump, absent, receiving, sending, kicking,
  leaving, ended, panicked, Invocation, Connection, new_connection, new_channel, serve, receive,
  pump_turn, message, Turn, serves, pumps, says, take_turn, take_turns, broadcast_of,
}
use bimpc.Chat.Server.Stages.{
  has_started, IsServed, IsPumped, IsQueue, IsConnection, IsServed-pump, IsServed-has,
  IsServed-open, IsServed-fed, IsPumped-fed, All-IsOutgoing-append,
}

module _ {T : Type 0} (p : Topic T) (laws : TopicLaws p) where
  open laws use {has}

  -- What a broadcast may do to a channel.
  pub broadcast_cases {ℓ} :
      (P : T → Channel → Type ℓ) (m : Item) (t : T) (ch : Channel)
      → ((t' : T)
          → has t ≡ true
          → length ch.queue < capacity
          → has t' ≡ true
          → P t' (record ch { queue = ch.queue ++ (m ∷ []) }))
      → ((t' : T)
          → has t ≡ true
          → capacity ≤ length ch.queue
          → has t' ≡ false
          → P t' (record ch { is_open = false }))
      → ((t' : T) → has t ≡ false → has t' ≡ false → P t' ch)
      → P (p.broadcast m t ch).0 (p.broadcast m t ch).1
  broadcast_cases P m t ch room full elsewhere = elim (Bool-cases (has t)) [
    | inl e ↦ elim (dec_lt (length ch.queue) capacity) [
      | yes less ↦
          let l = laws.broadcast_room m t ch e less in subst (P t') (sym l.1) (room t' e less l.0)
      | no more ↦
          let l = laws.broadcast_full m t ch e (omega (arith, more)) in
          subst (P t') (sym l.1) (full t' e (omega (arith, more)) l.0)
    ]
    | inr e ↦
        let l = laws.broadcast_elsewhere m t ch e in subst (P t') (sym l.1) (elsewhere t' e l.0)
  ]
    where
      t' : T
      t' = (p.broadcast m t ch).0

  -- What unregistering does to a channel.
  pub unregister_cases {ℓ} :
      (P : T → Channel → Type ℓ) (t : T) (ch : Channel)
      → ((t' : T) → has t ≡ true → has t' ≡ false → P t' (record ch { is_open = false }))
      → ((t' : T) → has t ≡ false → has t' ≡ false → P t' ch)
      → P (p.unregister t ch).0 (p.unregister t ch).1
  unregister_cases P t ch closes again = elim (Bool-cases (has t)) [
    | inl e ↦ let l = laws.unregister_closes t ch e in subst (P t') (sym l.1) (closes t' e l.0)
    | inr e ↦ let l = laws.unregister_again t ch e in subst (P t') (sym l.1) (again t' e l.0)
  ]
    where
      t' : T
      t' = (p.unregister t ch).0

  says-IsConnection :
      (now : ℕ) (msg : Incoming) (c : Connection T)
      → IsConnection p laws c
      → IsConnection p laws (take_turn p (says now msg) c)
  unfolding take_turn message
  says-IsConnection now msg c (h, q, (out, fits)) =
      broadcast_cases (λ t ch. IsConnection p laws (record c { topic = t; messages = ch }))
        (outgoing (broadcast_of now msg)) c.topic c.messages
        (λ t e less e'. (
          fed _ t (e' ∙ sym (open_at e)) e,
          IsPumped-fed c.pump c.ws_closed c.messages _ (open_at e) q,
          (
            All-IsOutgoing-append c.messages.queue (broadcast_of now msg) out,
            omega (arith, length-append c.messages.queue (outgoing (broadcast_of now msg) ∷ [])),
          ),
        ))
        (λ t e more e'.
          (fed _ t e' e, IsPumped-fed c.pump c.ws_closed c.messages _ (open_at e) q, (out, fits)))
        (λ t e e'. (
          subst (λ r. IsServed c.handler r c.pump c.sent c.messages) (e ∙ sym e') h,
          q,
          (out, fits),
        ))
    where
      open_at : has c.topic ≡ true → c.messages.is_open ≡ true
      open_at = IsServed-open c.handler (has c.topic) c.pump c.sent c.messages h

      fed :
          (ch : Channel) (t : T)
          → has t ≡ ch.is_open
          → has c.topic ≡ true
          → IsServed c.handler (has t) c.pump c.sent ch
      fed ch t o e = IsServed-fed c.handler (has c.topic) (has t) c.pump c.sent c.messages ch e o h

  serve-IsConnection :
      (now : ℕ) (e : Option GoError) (h : Handler) (c : Connection T)
      → c.handler ≡ h
      → IsServed h (has c.topic) c.pump c.sent c.messages
      → IsPumped c.pump c.ws_closed c.messages
      → IsQueue c.messages.queue
      → IsConnection p laws (serve p now e h c)
  unfolding serve
  serve-IsConnection now (some e) upgrading c at s q room =
      ((s.3, λ started. absurd (cc (started, ap has_started s.0))), q, room)
  serve-IsConnection now none upgrading c at s q room = (
    (s.0, s.1, refl, s.3),
    subst (λ x. IsPumped x c.ws_closed new_channel) (sym s.0)
        (subst (λ x. IsPumped x c.ws_closed c.messages) s.0 q),
    (tt, omega arith),
  )
  serve-IsConnection now e registering c at s q room =
      ((s.0, s.1, laws.register_has c.topic ∙ sym s.2), q, room)
  serve-IsConnection now e greeting c at s q room = ((s.0, s.2), q, room)
  serve-IsConnection now e spawning c at s q room =
      ((refl, s.1), subst (λ x. IsPumped x c.ws_closed c.messages) s.0 q, room)
  serve-IsConnection now e serving c at s q room = (s, q, room)
  serve-IsConnection now e unregistering c at s q room =
      unregister_cases
        (λ t ch. IsConnection p laws (record c { topic = t; messages = ch; handler = returned }))
        c.topic c.messages
        (λ t e e'.
          ((e', λ _. refl), IsPumped-fed c.pump c.ws_closed c.messages _ (sym s.1 ∙ e) q, room))
        (λ t e e'. ((e', λ _. sym s.1 ∙ e), q, room))
  serve-IsConnection now e returned c at s q room =
      (subst (λ h. IsServed h (has c.topic) c.pump c.sent c.messages) (sym at) s, q, room)

  moved :
      (c : Connection T) (q q' : Pump) (sent : List Invocation) (ch : Channel)
      → c.pump ≡ q
      → has_started q ≡ true
      → has_started q' ≡ true
      → ch.is_open ≡ c.messages.is_open
      → IsServed c.handler (has c.topic) c.pump c.sent c.messages
      → IsServed c.handler (has c.topic) q' sent ch
  moved c q q' sent ch at s s' o h =
      IsServed-pump c.handler (has c.topic) c.pump q' c.sent sent c.messages ch
        (ap has_started at ∙ s) s' o h

  still :
      (c : Connection T) (q : Pump)
      → c.pump ≡ q
      → IsPumped q c.ws_closed c.messages
      → IsPumped c.pump c.ws_closed c.messages
  still c q at w = subst (λ x. IsPumped x c.ws_closed c.messages) (sym at) w

  receive-IsConnection :
      (xs : List Item) (o : Bool) (c : Connection T)
      → c.messages.queue ≡ xs
      → c.messages.is_open ≡ o
      → c.pump ≡ receiving
      → IsServed c.handler (has c.topic) c.pump c.sent c.messages
      → c.ws_closed ≡ false
      → IsQueue xs
      → IsConnection p laws (receive p xs o c)
  unfolding receive
  receive-IsConnection (outgoing m ∷ xs) o c at op start s w ((_, out), fits) =
      (moved c receiving (sending m) c.sent _ start refl refl refl s, w, (out, omega (arith, fits)))
  receive-IsConnection (other ∷ xs) o c at op start s w ((bad, out), fits) = absurd bad
  receive-IsConnection [] true c at op start s w room =
      (s, still c receiving start w, subst IsQueue (sym at) room)
  receive-IsConnection [] false c at op start s w room = (
    moved c receiving kicking c.sent c.messages start refl refl refl s,
    (op, at, w),
    subst IsQueue (sym at) room,
  )

  pump-IsConnection :
      (q : Pump) (c : Connection T)
      → c.pump ≡ q
      → IsServed c.handler (has c.topic) c.pump c.sent c.messages
      → IsPumped q c.ws_closed c.messages
      → IsQueue c.messages.queue
      → IsConnection p laws (pump_turn p q c)
  unfolding pump_turn
  pump-IsConnection absent c at s w room = (s, still c absent at w, room)
  pump-IsConnection receiving c at s w room =
      receive-IsConnection c.messages.queue c.messages.is_open c refl refl at s w room
  pump-IsConnection (sending m) c at s w room =
      (moved c (sending m) receiving _ c.messages at refl refl refl s, w, room)
  pump-IsConnection kicking c at s w room =
      (moved c kicking leaving c.sent c.messages at refl refl refl s, (w.0, w.1, refl), room)
  pump-IsConnection leaving c at s (closed, empty, kicked) room =
      unregister_cases
        (λ t ch. IsConnection p laws (record c { topic = t; messages = ch; pump = ended })) c.topic
        c.messages
        (λ t e e'.
          absurd (cc (e, IsServed-has c.handler (has c.topic) c.pump c.sent c.messages s closed)))
        (λ t e e'. (
          subst (λ r. IsServed c.handler r ended c.sent c.messages) (e ∙ sym e')
              (moved c leaving ended c.sent c.messages at refl refl refl s),
          (closed, empty, kicked),
          room,
        ))
  pump-IsConnection ended c at s w room = (s, still c ended at w, room)
  pump-IsConnection panicked c at s w room = absurd w

  -- Every turn keeps a connection in order.
  pub take_turn-IsConnection :
      (x : Turn) (c : Connection T) → IsConnection p laws c → IsConnection p laws (take_turn p x c)
  unfolding take_turn
  take_turn-IsConnection (serves now e) c (s, q, room) =
      serve-IsConnection now e c.handler c refl s q room
  take_turn-IsConnection pumps c (s, q, room) = pump-IsConnection c.pump c refl s q room
  take_turn-IsConnection (says now msg) c h = says-IsConnection now msg c h

  pub take_turns-IsConnection :
      (xs : List Turn) (c : Connection T)
      → IsConnection p laws c
      → IsConnection p laws (take_turns p xs c)
  unfolding take_turns
  take_turns-IsConnection [] c h = h
  take_turns-IsConnection (x ∷ xs) c h =
      take_turns-IsConnection xs (take_turn p x c) (take_turn-IsConnection x c h)

  -- From its request on a connection is in order, whoever takes the turns: once serve has registered the
  -- channel, the topic has it for exactly as long as it is open, and when serve has returned no more; no
  -- more than ten values wait in the channel, each an Outgoing; the pump's type assertion has not failed;
  -- and the pump has closed the websocket only after it has found the channel closed and empty. Before
  -- the request the topic does not have the channel.
  pub new_connection-IsConnection :
      (xs : List Turn) (t : T)
      → has t ≡ false
      → IsConnection p laws (take_turns p xs (new_connection t))
  new_connection-IsConnection xs t e =
      take_turns-IsConnection xs (new_connection t) ((refl, refl, refl, e), refl, (tt, omega arith))
