-- ===== src/Chat/Main/Ends.antt =====
-- How the chat's program ends.
use Prim.Native.String.{String}
use bimpc.Common.{ℕ, zero, suc, ◌≡◌, refl, Option, none, some, Bool, true, false, List, [], ◌∷◌}
use bimpc.Action.{GoError}
use bimpc.Chat.Main.{
  Effect, set_flags, set_prefix, logs, logs_error, prints, prints_defaults, prints_error, Parsing,
  parsed, stops, parse, exits, handles, listens, closes_broadcast, CommandLine, usage, serve_pages,
  start, main,
}

-- With which status the process exits, `none` where main returns.
abbrev pub exit_status : List Effect → Option ℕ
exit_status [] = none
exit_status (exits n ∷ xs) = some n
exit_status (set_flags n ∷ xs) = exit_status xs
exit_status (set_prefix s ∷ xs) = exit_status xs
exit_status (logs s ∷ xs) = exit_status xs
exit_status (logs_error s e ∷ xs) = exit_status xs
exit_status (prints s ∷ xs) = exit_status xs
exit_status (prints_defaults ∷ xs) = exit_status xs
exit_status (prints_error e ∷ xs) = exit_status xs
exit_status (handles s h ∷ xs) = exit_status xs
exit_status (listens s ∷ xs) = exit_status xs
exit_status (closes_broadcast ∷ xs) = exit_status xs

-- Whether the topic is closed.
abbrev pub closes_topic : List Effect → Bool
closes_topic [] = false
closes_topic (closes_broadcast ∷ xs) = true
closes_topic (exits n ∷ xs) = closes_topic xs
closes_topic (set_flags n ∷ xs) = closes_topic xs
closes_topic (set_prefix s ∷ xs) = closes_topic xs
closes_topic (logs s ∷ xs) = closes_topic xs
closes_topic (logs_error s e ∷ xs) = closes_topic xs
closes_topic (prints s ∷ xs) = closes_topic xs
closes_topic (prints_defaults ∷ xs) = closes_topic xs
closes_topic (prints_error e ∷ xs) = closes_topic xs
closes_topic (handles s h ∷ xs) = closes_topic xs
closes_topic (listens s ∷ xs) = closes_topic xs

-- The status that the runs of main should exit with, `none` for the one that returns.
abbrev pub status_of : Parsing → ℕ → Option GoError → Option ℕ
status_of (stops said status) n e = some status
status_of parsed zero none = none
status_of parsed zero (some e) = some 1
status_of parsed (suc n) e = some 1

abbrev pub returns : Option ℕ → Bool
returns none = true
returns (some status) = false

-- main returns only where flag.Parse returns and leaves no argument and ListenAndServe returns without an
-- error, and only then is the topic closed. In all other runs the topic stays open and the process exits:
-- with the status of flag.Parse where that stops it, and with status 1 where an argument is left or
-- ListenAndServe returns an error.
pub main-closes :
    {P : Type 0} (base : String → String) (decimal : P → String) (p : Parsing) (c : CommandLine P)
    (e : Option GoError)
    → (closes_topic (main base decimal p c e) ≡ returns (status_of p c.arguments e))
      × (exit_status (main base decimal p c e) ≡ status_of p c.arguments e)
unfolding main parse start serve_pages usage
main-closes base decimal (stops none status) c e = (refl, refl)
main-closes base decimal (stops (some x) status) c e = (refl, refl)
main-closes base decimal parsed c e = go c.arguments e
  where
    go :
        (n : ℕ) (e : Option GoError)
        → (closes_topic (start base decimal n c e) ≡ returns (status_of parsed n e))
          × (exit_status (start base decimal n c e) ≡ status_of parsed n e)
    go zero none = (refl, refl)
    go zero (some e) = (refl, refl)
    go (suc n) e = (refl, refl)
