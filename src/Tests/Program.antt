-- ===== src/Tests/Program.antt =====
-- The chat's program where its port is taken.
use Prim.Native.String.{String}
use bimpc.Common.{ℕ, ◌≡◌, some, false}
use bimpc.Action.{foreign}
use bimpc.Chat.Main.{CommandLine, parsed, main}
use bimpc.Chat.Main.Ends.{exit_status, closes_topic, main-closes}

abbrev decimal : ℕ → String
decimal n = "8000"

abbrev path_base : String → String
path_base program = "chat"

abbrev command_line : CommandLine ℕ
command_line = record { program = "bin/chat"; host = ""; port = 8000; arguments = 0 }

main-closes_example :
    (closes_topic (main path_base decimal parsed command_line (some (foreign 1))) ≡ false)
    × (exit_status (main path_base decimal parsed command_line (some (foreign 1))) ≡ some 1)
main-closes_example = main-closes path_base decimal parsed command_line (some (foreign 1))
