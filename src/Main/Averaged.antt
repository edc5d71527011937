-- ===== src/Main/Averaged.antt =====
-- The loop of `main` of src/main.c over all tests, and the averages that it prints.
use aca_bsim.Server.Held.{most}
use aca_bsim.Common.{Bool, ℕ, zero, suc, ◌<◌, ◌≡◌, refl, ap, ◌∙◌, ok, ◌≤◌}
use aca_bsim.Common.Int.{ℤ, pos, ◌+ℤ◌, ◌/ℤ◌, int_laws}
use aca_bsim.Platform.{Platform, TableLaws}
use aca_bsim.Client.{Heap}
use aca_bsim.Client.Schedule.{Regular}
use aca_bsim.Server.Table.{init_table}
use aca_bsim.Stat.{SimStat, update_total_stats, finalize_stat}
use aca_bsim.Stat.Averages.{Measure, measure, sum_below, totals_of, measure-finalize}
use aca_bsim.Params.{SimParam}
use aca_bsim.Main.{Chance, setup0, run_test, run_tests, test_count, zero_sim_stat, main}
use aca_bsim.Main.Ended.{Fair}
use aca_bsim.Main.Tested.{Tested, run_test-Tested}

-- The tests of a run: the statistics of each and the clients that it made and freed.
pub record AllTested {p : Platform} (strict : Bool) (params : SimParam p) (chances : ℕ → Chance)
    (fuel : ℕ) (heap : Heap) : Type 0 where
  pub made : ℕ → ℕ
  pub tested :
      (i : ℕ)
      → Tested strict params
          (chances i)
          fuel
          heap
          (made i)
          (run_test p (setup0 p) params (init_table p) (chances i) fuel heap)

-- The run of `main` that came to its end with the averages of its tests.
pub record Averaged {p : Platform} (strict : Bool) (params : SimParam p) (chances : ℕ → Chance)
    (fuel : ℕ) (heap : Heap) : Type 0 where
  pub tests : AllTested strict params chances fuel heap
  pub average : SimStat
  pub runs : main p params chances fuel heap ≡ ok average
  pub averages :
      (m : Measure)
      → measure m average
        ≡ sum_below test_count (λ i. measure m (tests.tested i).stat) /ℤ test_count

measure-zero : (m : Measure) → measure m zero_sim_stat ≡ pos 0
measure-zero Measure.clients = refl
measure-zero Measure.queue_size = refl
measure-zero Measure.wait = refl
measure-zero Measure.serve = refl
measure-zero Measure.nd_wait = refl
measure-zero Measure.nd_serve = refl
measure-zero Measure.t1_wait = refl
measure-zero Measure.t1_serve = refl
measure-zero Measure.t2_wait = refl
measure-zero Measure.t2_serve = refl
measure-zero Measure.t3_wait = refl
measure-zero Measure.t3_serve = refl

zero_add_ℤ : (z : ℤ) → pos 0 +ℤ z ≡ z
zero_add_ℤ z = omega int_laws

module _ (p : Platform) (strict : Bool) (params : SimParam p) (chances : ℕ → Chance) (fuel : ℕ)
    (heap : Heap) (all : AllTested strict params chances fuel heap) where
  run_tests_lem :
      (n : ℕ) (total : SimStat)
      → run_tests p (setup0 p) params (init_table p) chances fuel heap n total
        ≡ ok (totals_of n (λ i. (all.tested i).stat) total)
  unfolding run_tests totals_of
  run_tests_lem zero total = refl
  run_tests_lem (suc n) total =
      rw ((all.tested n).runs) (run_tests_lem n (update_total_stats total (all.tested n).stat))

  main-Averaged_at : Averaged strict params chances fuel heap
  unfolding main
  main-Averaged_at = record {
    tests = all;
    average =
        finalize_stat (totals_of test_count (λ i. (all.tested i).stat) zero_sim_stat) test_count;
    runs = rw (run_tests_lem test_count zero_sim_stat) refl;
    averages = λ m.
        measure-finalize m test_count test_count (λ i. (all.tested i).stat) zero_sim_stat
        ∙ ap (λ z. (z +ℤ sum_below test_count (λ i. measure m (all.tested i).stat)) /ℤ test_count)
            (measure-zero m)
        ∙ ap (λ z. z /ℤ test_count)
            (zero_add_ℤ (sum_below test_count (λ i. measure m (all.tested i).stat)));
  }

module _ (p : Platform) (laws : TableLaws p) (params : SimParam p) (chances : ℕ → Chance)
    (strict : Bool) (bound fuel : ℕ) (heap : Heap) (time : params.simulation_time ≡ pos bound)
    (small : bound ≤ most) (enough : bound < fuel) where
  -- With a hash map that keeps its laws, a simulation time of at most 46340 and fuel above it,
  -- and in every test memory granted outside the ticks, and in them too if `strict`, positive
  -- times between arrivals and type samples from 0 to 2, `main`, from the point where its
  -- parameters are read, returns without a fault, and each of the twelve fields of its statistics
  -- is the sum of that field over the statistics of 10000 tests, all of which have returned,
  -- divided by 10000.
  pub main-Averaged :
      ((i : ℕ) → Fair strict (chances i))
      → ((i : ℕ) → Regular p (chances i).draws)
      → Averaged strict params chances fuel heap
  main-Averaged fair regular =
      let tests = λ (i : ℕ).
        run_test-Tested p laws params (chances i) strict (fair i) bound time fuel heap small enough
          (regular i) in
      main-Averaged_at p strict params chances fuel heap
        (record { made = λ i. (tests i).0; tested = λ i. (tests i).1 })
