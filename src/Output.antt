-- ===== src/Output.antt =====
-- What the program prints, and `erf_log` of include/erf_io.h. A call of `printf` is the list of the
-- texts of its format and of the values that stand between them, each with its conversion; how a
-- value is written in digits is the matter of the C library.
use Prim.Native.String.{String}
use text.Mathlib.Text.{◌==◌ as str_eq}
use aca_bsim.Common.{ℕ, List, [], ◌∷◌, ◌++◌, Option, none, some, ◌==◌, if◌then◌else◌}
use aca_bsim.Common.Int.{ℤ}
use aca_bsim.Platform.{Platform}

-- A text and the conversions `%d`, `%zu`, `%f`, `%.2f` and `%p`; and a text that goes to `stderr`.
pub data Piece (p : Platform) : Type 0 where
  words : String → Piece p
  int : ℤ → Piece p
  size : ℕ → Piece p
  real : p.Double → Piece p
  real_2 : p.Double → Piece p
  address : ℕ → Piece p
  to_stderr : String → Piece p

-- `CBNB_LOG_LEVEL`
abbrev pub LogLevel : Type 0
LogLevel = ℕ

abbrev pub debug : LogLevel
debug = 0

abbrev pub info : LogLevel
info = 1

abbrev pub warn : LogLevel
warn = 2

abbrev pub error : LogLevel
error = 3

abbrev pub fatal : LogLevel
fatal = 4

-- `CBNB_LOGGER_COLOR_RED`, `CBNB_LOGGER_COLOR_BLUE`, `CBNB_LOGGER_COLOR_YELLOW` and `COLOR_END`.
abbrev pub color_red : String
color_red = "\u{1b}[31m"

abbrev pub color_blue : String
color_blue = "\u{1b}[34m"

abbrev pub color_yellow : String
color_yellow = "\u{1b}[33m"

abbrev pub color_end : String
color_end = "\u{1b}[0m"

module _ {p : Platform} where
  -- A call of `printf` with one `%d`.
  abbrev pub line : String → ℤ → List (Piece p)
  line label n = words label ∷ int n ∷ words "\n" ∷ []

  -- The `switch` of `erf_log`. The mark of a fatal message does not switch its colour off.
  unfoldable pub level_mark : LogLevel → List (Piece p)
  level_mark level =
      if level == debug
      then words color_blue ∷ words "[DEBUG] " ∷ words color_end ∷ []
      else if level == info
      then words color_blue ∷ words "[INFO] " ∷ words color_end ∷ []
      else if level == warn
      then words color_yellow ∷ words "[WARN] " ∷ words color_end ∷ []
      else if level == error
      then words color_red ∷ words "[ERROR] " ∷ words color_end ∷ []
      else if level == fatal
      then words color_red ∷ words "[FATAL] " ∷ []
      else words "[UNKNOWN] " ∷ []

  -- `erf_log`, with the pieces of its format and arguments.
  unfoldable pub erf_log : LogLevel → List (Piece p) → List (Piece p)
  unfolding level_mark
  erf_log level pieces = level_mark level ++ pieces ++ words "\n" ∷ []

  -- The number that follows a text.
  abbrev pub first_int : List (Piece p) → Option ℤ
  first_int (int n ∷ pieces) = some n
  first_int pieces = none

  unfoldable pub value_under : String → List (Piece p) → Option ℤ
  value_under label [] = none
  value_under label (words s ∷ pieces) =
      if str_eq s label then first_int pieces else value_under label pieces
  value_under label (piece ∷ pieces) = value_under label pieces
