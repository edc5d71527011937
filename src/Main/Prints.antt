-- ===== src/Main/Prints.antt =====
-- What `setup0`, `setup1` and `print_memory_usage` of src/main.c print themselves.
use aca_bsim.Common.{ℕ, ◌*◌, ◌/◌, List, [], ◌∷◌, ◌++◌, Option, none, some}
use aca_bsim.Common.Int.{pos}
use Prim.Native.String.{String}
use aca_bsim.Platform.{Platform}
use aca_bsim.Output.{Piece, words, int}
use aca_bsim.Server.Types.{Server, base}
use aca_bsim.Server.Print.{log_server_stat}

abbrev pub banner_0 : String
banner_0 = "===========================\nRUNNING SETUP 0\n===========================\n"

abbrev pub banner_1 : String
banner_1 = "===========================\nRUNNING SETUP 1\n===========================\n"

module _ {p : Platform} where
  -- `log_server_stat` for each server of a setup, as the run leaves it. `place` is where
  -- `log_server_stat` keeps its copy.
  unfoldable pub log_servers : ℕ → List (Server p) → List (Piece p)
  log_servers place [] = []
  log_servers place (s ∷ servers) =
      log_server_stat p place (some (base s)) ++ log_servers place servers

  -- `resident` is the second number of /proc/self/statm, if that file opens, and `page` the size of
  -- a page.
  unfoldable pub print_memory_usage : Option ℕ → ℕ → List (Piece p)
  print_memory_usage none page = []
  print_memory_usage (some resident) page =
      words "Memory usage: " ∷ int (pos (resident * page / 1024)) ∷ words " KB\n" ∷ []
