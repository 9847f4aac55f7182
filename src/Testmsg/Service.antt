-- ===== src/Testmsg/Service.antt =====
-- Arith: every call is counted, also one that fails or still waits.
use bimpc.Common.{ℕ, ◌+◌, ◌%◌, ◌^◌, ◌≡◌, Option, none, some, List, [], ◌∷◌, arith}
use bimpc.Testmsg.{Args, Result, Arith, Gate, closed, get, inc, add, explode, wait}

-- Calls of the service, in the order of their counting, and the closing of Block between them.
pub data Event : Type 0 where
  adds explodes waits : Args → Result → Event
  closes : Event

abbrev pub is_call : Event → ℕ
is_call (adds args reply) = 1
is_call (explodes args reply) = 1
is_call (waits args reply) = 1
is_call closes = 0

abbrev pub count_calls : List Event → ℕ
count_calls [] = 0
count_calls (x ∷ xs) = is_call x + count_calls xs

abbrev pub close_gate : Option Gate → Option Gate
close_gate none = none
close_gate (some g) = some closed

abbrev pub after_event : Event → Arith → Arith
after_event (adds args reply) service = (add args reply service).2
after_event (explodes args reply) service = (explode args reply service).2
after_event (waits args reply) service = (wait args reply service).1
after_event closes service = record service { block = close_gate service.block }

abbrev pub after_events : List Event → Arith → Arith
after_events [] service = service
after_events (x ∷ xs) service = after_events xs (after_event x service)

counted :
    (x : Event) (service : Arith)
    → (after_event x service).calls.n % 2 ^ 64 ≡ (service.calls.n + is_call x) % 2 ^ 64
unfolding add explode wait inc
counted (adds args reply) service = omega arith
counted (explodes args reply) service = omega arith
counted (waits args reply) service = omega arith
counted closes service = omega arith

-- Get reports the calls of all methods, failed and waiting ones included, modulo 2^64.
pub get-after_events :
    (xs : List Event) (service : Arith)
    → get (after_events xs service).calls % 2 ^ 64 ≡ (get service.calls + count_calls xs) % 2 ^ 64
unfolding get
get-after_events [] service = omega arith
get-after_events (x ∷ xs) service =
    omega (arith, get-after_events xs (after_event x service), counted x service)
