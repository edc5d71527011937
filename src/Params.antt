-- ===== src/Params.antt =====
-- The parameters of a run: `sim_param_t` of include/utils.h, and `initialize_parameters` and
-- `print_simulation_params` of src/utils.c.
pub mod Given
use Prim.Native.String.{String}
use aca_bsim.Common.{List, [], ◌∷◌, ◌++◌, Result, ok, ◌>>=◌}
use aca_bsim.Common.Int.{ℤ}
use aca_bsim.Platform.{Platform}
use aca_bsim.Platform.Options.{
  IntField, simulation_time, DoubleField, disability_prob, robot_boost_coff, p1_dest_prob,
  error_per_act_prob, Flag, int_flag, double_flag, help_flag, Store, set_int, set_double, CFlag,
}
use aca_bsim.Output.{Piece, words, real, line}

-- `sim_param_t`
pub record SimParam (p : Platform) : Type 0 where
  pub simulation_time : ℤ
  pub disability_prob : p.Double
  pub robot_boost_coff : p.Double
  pub error_per_act_prob : p.Double
  pub p1_dest_prob : p.Double

-- The table `options`.
abbrev pub options : List Flag
options =
    int_flag "simulation-time" "T" simulation_time
    ∷ double_flag "disability-prob" "X" disability_prob
    ∷ double_flag "robot-boost" "A" robot_boost_coff
    ∷ double_flag "p1-prob" "P" p1_dest_prob
    ∷ double_flag "error-prob" "E" error_per_act_prob
    ∷ help_flag
    ∷ []

module _ {p : Platform} where
  abbrev pub real_line : String → p.Double → List (Piece p)
  real_line label x = words label ∷ real x ∷ words "\n" ∷ []

  unfoldable pub print_simulation_params : SimParam p → List (Piece p)
  print_simulation_params params =
      words "Simulation Parameters:\n" ∷ line "  Simulation time: " params.simulation_time
      ++ real_line "  Disability probability: " params.disability_prob
      ++ real_line "  P1 destination probability: " params.p1_dest_prob
      ++ real_line "  Error probability: " params.error_per_act_prob
      ++ real_line "  Robot boost coefficient: " params.robot_boost_coff

  -- The store through `&params->simulation_time` and the others.
  unfoldable pub store_option : SimParam p → Store p → SimParam p
  store_option params (set_int simulation_time n) = record params { simulation_time = n }
  store_option params (set_double disability_prob x) = record params { disability_prob = x }
  store_option params (set_double robot_boost_coff x) = record params { robot_boost_coff = x }
  store_option params (set_double p1_dest_prob x) = record params { p1_dest_prob = x }
  store_option params (set_double error_per_act_prob x) = record params { error_per_act_prob = x }

  unfoldable pub store_options : SimParam p → List (Store p) → SimParam p
  unfolding store_option
  store_options params [] = params
  store_options params (s ∷ stores) = store_options (store_option params s) stores

  -- `params` is what the memory holds before. The answer of `cflag_apply` is not read.
  unfoldable pub initialize_parameters :
      CFlag p → SimParam p → List String → Result (SimParam p × List (Piece p))
  unfolding store_options print_simulation_params
  initialize_parameters c params argv = do
    stores ← c.cflag_apply options argv
    let params' = store_options params stores
    ok (params', print_simulation_params params')
