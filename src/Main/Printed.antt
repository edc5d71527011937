-- ===== src/Main/Printed.antt =====
-- The whole of `main` of src/main.c, from the command line to what it prints last.
use aca_bsim.Server.Held.{most}
use Prim.Native.String.{String}
use aca_bsim.Common.{Bool, ℕ, ◌<◌, ◌≡◌, refl, ap, ◌∙◌, List, ◌∷◌, some, Result, ok, ◌≤◌}
use aca_bsim.Common.Int.{pos, ◌/ℤ◌}
use aca_bsim.Platform.{Platform, TableLaws}
use aca_bsim.Platform.Options.{CFlag, CFlagLaws}
use aca_bsim.Output.{Piece, value_under}
use aca_bsim.Client.{Heap}
use aca_bsim.Client.Schedule.{Regular}
use aca_bsim.Params.{SimParam, print_simulation_params}
use aca_bsim.Params.Given.{Setting, AllRead, words_of, set_all, initialize_parameters_lem}
use aca_bsim.Stat.{SimStat}
use aca_bsim.Stat.Averages.{Measure, sum_below, measure}
use aca_bsim.Stat.Print.{print_stats, label, value_under-print_stats}
use aca_bsim.Main.{Chance, test_count, run_main}
use aca_bsim.Main.Ended.{Fair}
use aca_bsim.Main.Averaged.{AllTested, main-Averaged}

-- A run of `main` that came to its end: the tests with these parameters, what was printed before
-- them, and under each text printed after them the average of a field over all tests.
pub record Printed {p : Platform} (strict : Bool) (params : SimParam p) (chances : ℕ → Chance)
    (fuel : ℕ) (heap : Heap) (r : Result (SimStat × List (Piece p) × List (Piece p))) : Type 0 where
  pub tests : AllTested strict params chances fuel heap
  pub average : SimStat
  pub printed : List (Piece p)
  pub runs : r ≡ ok (average, print_simulation_params params, printed)
  pub under :
      (m : Measure)
      → value_under (label m) printed
        ≡ some (sum_below test_count (λ i. measure m (tests.tested i).stat) /ℤ test_count)

module _ (p : Platform) (laws : TableLaws p) (c : CFlag p) (flag_laws : CFlagLaws c)
    (memory : SimParam p) (program : String) (settings : List (Setting p)) (chances : ℕ → Chance)
    (strict : Bool) (bound fuel : ℕ) (heap : Heap) where
  -- With a hash map and a flag parser that keep their laws, a command line of readable options
  -- that leave a simulation time of at most 46340, fuel above it, and in every test memory
  -- granted outside the ticks, and in them too if `strict`, positive times between arrivals and
  -- type samples from 0 to 2, `main` returns without a fault; it prints the parameters, those
  -- given on the command line and the memory's for the others, and after the tests, under the
  -- text for each of the twelve fields, the sum of that field over the statistics of 10000 tests
  -- with these parameters, divided by 10000.
  pub run_main-Printed :
      AllRead c settings
      → (set_all settings memory).simulation_time ≡ pos bound
      → bound ≤ most
      → bound < fuel
      → ((i : ℕ) → Fair strict (chances i))
      → ((i : ℕ) → Regular p (chances i).draws)
      → Printed strict
          (set_all settings memory)
          chances
          fuel
          heap
          (run_main p c memory (program ∷ words_of settings) chances fuel heap)
  unfolding run_main
  run_main-Printed read time small enough fair regular =
      let params = set_all settings memory in
      let a =
        main-Averaged p laws params chances strict bound fuel heap time small enough fair regular in
      record {
        tests = a.tests;
        average = a.average;
        printed = print_stats a.average;
        runs = rw (initialize_parameters_lem c memory program settings flag_laws read, a.runs) refl;
        under = λ m. value_under-print_stats p m a.average ∙ ap (λ z. some z) (a.averages m);
      }
