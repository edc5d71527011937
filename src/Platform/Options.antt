-- ===== src/Platform/Options.antt =====
-- The command line as the program uses it: a table of options for include/cflag.h, a copy of another
-- project's library, and what that library says of it.
use Prim.Native.String.{String, ◌++◌ as ◌<>◌}
use text.Mathlib.Text.{◌==◌ as str_eq}
use aca_bsim.Common.{◌≡◌, List, [], ◌∷◌, Option, none, some, Result, ok, if◌then◌else◌}
use aca_bsim.Common.Int.{ℤ}
use aca_bsim.Platform.{Platform}

-- Where an option is stored: a field of `sim_param_t`, as `int` or as `double`.
pub data IntField : Type 0 where
  simulation_time : IntField

pub data DoubleField : Type 0 where
  disability_prob robot_boost_coff p1_dest_prob error_per_act_prob : DoubleField

-- An entry of the table: `CFLAG (int, ...)`, `CFLAG (double, ...)` with a name, a letter and the place of
-- the value, and `CFLAG_HELP`. The help texts are left out.
pub data Flag : Type 0 where
  int_flag : String → String → IntField → Flag
  double_flag : String → String → DoubleField → Flag
  help_flag : Flag

-- A store through the pointer of an option.
pub data Store (p : Platform) : Type 0 where
  set_int : IntField → ℤ → Store p
  set_double : DoubleField → p.Double → Store p

-- `cflag_apply` on a table and the words of the command line, with the stores that it makes, in
-- order; it leaves the program if it is asked for help or cannot read the options. The texts that
-- `sscanf` and `strtod` read as a number.
pub record CFlag (p : Platform) : Type 0 where
  pub cflag_apply : List Flag → List String → Result (List (Store p))
  pub read_int : String → Option ℤ
  pub read_double : String → Option p.Double

-- The word of a flag with its letter, and the first flag that has it.
abbrev pub is_word : String → Flag → Option Flag → Option Flag
is_word word (int_flag name letter field) rest =
    if str_eq ("-" <> letter) word then some (int_flag name letter field) else rest
is_word word (double_flag name letter field) rest =
    if str_eq ("-" <> letter) word then some (double_flag name letter field) else rest
is_word word help_flag rest = if str_eq "-h" word then some help_flag else rest

unfoldable pub find_flag : String → List Flag → Option Flag
find_flag word [] = none
find_flag word (flag ∷ flags) = is_word word flag (find_flag word flags)

-- Words that name a flag each and give it a value that can be read, with the stores they ask for.
pub data Asks {p : Platform} (c : CFlag p) (flags : List Flag)
    : List String → List (Store p) → Type 0 where
  asks_nothing : Asks c flags [] []
  asks_int :
      {words : List String} {stores : List (Store p)} (word value name letter : String)
      (field : IntField) (n : ℤ)
      → find_flag word flags ≡ some (int_flag name letter field)
      → c.read_int value ≡ some n
      → Asks c flags words stores
      → Asks c flags (word ∷ value ∷ words) (set_int field n ∷ stores)
  asks_double :
      {words : List String} {stores : List (Store p)} (word value name letter : String)
      (field : DoubleField) (x : p.Double)
      → find_flag word flags ≡ some (double_flag name letter field)
      → c.read_double value ≡ some x
      → Asks c flags words stores
      → Asks c flags (word ∷ value ∷ words) (set_double field x ∷ stores)

-- What include/cflag.h promises of such words after the name of the program: each option is stored.
pub record CFlagLaws {p : Platform} (c : CFlag p) : Type 0 where
  pub applied :
      (flags : List Flag) (program : String) (words : List String) (stores : List (Store p))
      → Asks c flags words stores
      → c.cflag_apply flags (program ∷ words) ≡ ok stores
