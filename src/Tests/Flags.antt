-- ===== src/Tests/Flags.antt =====
-- A command line, read by a small parser, and a run of the program on it.
use Prim.Native.String.{String}
use text.Mathlib.Text.{◌==◌ as str_eq}
use aca_bsim.Common.{
  ℕ, ◌≡◌, refl, ap, ◌∙◌, List, [], ◌∷◌, Option, none, some, true, Result, ok, fault, exit_failure,
  arith, if◌then◌else◌,
}
use aca_bsim.Common.Int.{ℤ, pos}
use aca_bsim.Platform.Options.{
  IntField, DoubleField, Flag, int_flag, double_flag, help_flag, Store, set_int, set_double, CFlag,
  CFlagLaws, find_flag, Asks, asks_nothing, asks_int, asks_double,
}
use aca_bsim.Params.{print_simulation_params, initialize_parameters}
use aca_bsim.Params.Given.{Setting, time_is, boost_is, words_of, initialize_parameters_lem}
use aca_bsim.Main.{run_main}
use aca_bsim.Main.Printed.{Printed, run_main-Printed}
use aca_bsim.Tests.Samples.{whole, whole_laws, people}
use aca_bsim.Tests.Clients.{plain_draw-Regular}
use aca_bsim.Tests.Days.{params, day, day-Fair}

-- The numbers that the tests write.
abbrev read_small : String → Option ℕ
read_small s = if str_eq s "20" then some 20 else if str_eq s "2" then some 2 else none

abbrev read_whole : String → Option ℤ
read_whole s = if str_eq s "20" then some (pos 20) else none

abbrev keep : Store whole → Result (List (Store whole)) → Result (List (Store whole))
keep s (ok stores) = ok (s ∷ stores)
keep s (fault f) = fault f

abbrev kept_int : IntField → Option ℤ → Result (List (Store whole)) → Result (List (Store whole))
kept_int field none rest = fault exit_failure
kept_int field (some n) rest = keep (set_int field n) rest

abbrev kept_double :
    DoubleField → Option ℕ → Result (List (Store whole)) → Result (List (Store whole))
kept_double field none rest = fault exit_failure
kept_double field (some x) rest = keep (set_double field x) rest

abbrev kept_as : Option Flag → String → Result (List (Store whole)) → Result (List (Store whole))
kept_as (some (int_flag name letter field)) value rest = kept_int field (read_whole value) rest
kept_as (some (double_flag name letter field)) value rest =
    kept_double field (read_small value) rest
kept_as (some help_flag) value rest = fault exit_failure
kept_as none value rest = fault exit_failure

unfoldable parse_words : List Flag → List String → Result (List (Store whole))
parse_words flags [] = ok []
parse_words flags (word ∷ []) = fault exit_failure
parse_words flags (word ∷ value ∷ words) =
    kept_as (find_flag word flags) value (parse_words flags words)

abbrev parse_line : List Flag → List String → Result (List (Store whole))
parse_line flags [] = fault exit_failure
parse_line flags (program ∷ words) = parse_words flags words

abbrev small_cflag : CFlag whole
small_cflag = record { cflag_apply = parse_line; read_int = read_whole; read_double = read_small }

parse_words-Asks :
    (flags : List Flag) (words : List String) (stores : List (Store whole))
    → Asks small_cflag flags words stores
    → parse_words flags words ≡ ok stores
unfolding parse_words
parse_words-Asks flags words stores asks_nothing = refl
parse_words-Asks flags words stores
      (asks_int {words = words'} {stores = stores'} word value name letter field n found read
        asks) =
    ap (λ o. kept_as o value (parse_words flags words')) found
    ∙ ap (λ o. kept_int field o (parse_words flags words')) read
    ∙ ap (λ r. keep (set_int field n) r) (parse_words-Asks flags words' stores' asks)
parse_words-Asks flags words stores
      (asks_double {words = words'} {stores = stores'} word value name letter field x found read
        asks) =
    ap (λ o. kept_as o value (parse_words flags words')) found
    ∙ ap (λ o. kept_double field o (parse_words flags words')) read
    ∙ ap (λ r. keep (set_double field x) r) (parse_words-Asks flags words' stores' asks)

small_cflag-CFlagLaws : CFlagLaws small_cflag
small_cflag-CFlagLaws = record {
  applied = λ flags program words stores asks. parse_words-Asks flags words stores asks;
}

-- The boost is given twice.
abbrev settings : List (Setting whole)
settings = boost_is "20" 20 ∷ time_is "20" (pos 20) ∷ boost_is "2" 2 ∷ []

initialize_parameters_lem_example :
    initialize_parameters small_cflag
      (record params { simulation_time = pos 0; robot_boost_coff = 0 })
      ("bank" ∷ "-A" ∷ "20" ∷ "-T" ∷ "20" ∷ "-A" ∷ "2" ∷ [])
    ≡ ok (params, print_simulation_params params)
initialize_parameters_lem_example =
    initialize_parameters_lem small_cflag
      (record params { simulation_time = pos 0; robot_boost_coff = 0 }) "bank" settings
      small_cflag-CFlagLaws (refl, (refl, (refl, tt)))

run_main-Printed_example :
    Printed true params
      (λ i. day)
      30
      people
      (run_main whole small_cflag
        (record params { simulation_time = pos 0 })
        ("bank" ∷ words_of settings)
        (λ i. day)
        30
        people)
run_main-Printed_example =
    run_main-Printed whole whole_laws small_cflag small_cflag-CFlagLaws
      (record params { simulation_time = pos 0 }) "bank" settings (λ i. day) true 20 30 people
      (refl, (refl, (refl, tt))) refl (omega arith) (omega arith) (λ i. day-Fair)
      (λ i. plain_draw-Regular)
