-- ===== src/Tests/Days.antt =====
-- A whole test of twenty ticks, and servers made and freed.
use aca_bsim.Common.{ℕ, refl, true, false, arith}
use aca_bsim.Common.Int.{pos}
use aca_bsim.Params.{SimParam}
use aca_bsim.Main.{Chance, zero_sim_stat, setup0, setup1, run_test}
use aca_bsim.Main.Ended.{Fair}
use aca_bsim.Main.Tested.{Tested, run_test-Tested, run_test-Tested_robot}
use aca_bsim.Main.Averaged.{Averaged, main-Averaged}
use aca_bsim.Server.Types.{Memory, standard, standard_server_new}
use aca_bsim.Server.Table.{init_table}
use aca_bsim.Server.Accounts.{server_free}
use aca_bsim.Server.Held.{held}
use aca_bsim.Server.Made.{AllGranted, Made, standard_server_new-Made}
use aca_bsim.Server.Release.{Frees, server_free-Frees}
use aca_bsim.Tests.Samples.{whole, whole_laws, people}
use aca_bsim.Tests.Servers.{
  halved, served_desk, served_desk-ServerInv, poor_tick, fair_tick, fair_tick-Granted,
}
use aca_bsim.Tests.Clients.{plain_draw, plain_draw-Regular}

abbrev plenty : Memory
plenty = record {
  granted = true;
  granted_queue = λ i. true;
  granted_slots = λ i. true;
  to_serve = pos 77;
}

plenty-AllGranted : AllGranted plenty
plenty-AllGranted = record { server = refl; queues = λ i. refl; slots = λ i. refl }

abbrev pub params : SimParam whole
params = record {
  simulation_time = pos 20;
  disability_prob = 1;
  robot_boost_coff = 2;
  error_per_act_prob = 0;
  p1_dest_prob = 1;
}

abbrev pub day : Chance
day = record {
  draws = λ k. plain_draw;
  granted = true;
  granted_items = true;
  memory = λ i. plenty;
  ticks = λ i. fair_tick;
  granted_iterator = λ i. true;
  stats = zero_sim_stat;
}

pub day-Fair : Fair true day
day-Fair = record {
  queue = refl;
  slots = refl;
  servers = λ i. plenty-AllGranted;
  ticks = λ i. fair_tick-Granted;
}

-- The same day, with every request in its ticks refused.
abbrev poor_day : Chance
poor_day = record day { ticks = λ i. poor_tick; granted_iterator = λ i. false }

poor_day-Fair : Fair false poor_day
poor_day-Fair = record { queue = refl; slots = refl; servers = λ i. plenty-AllGranted; ticks = tt }

run_test-Tested_example :
    (made : ℕ) × Tested true params day 30 people made
      (run_test whole (setup0 whole) params (init_table whole) day 30 people)
run_test-Tested_example =
    run_test-Tested whole whole_laws params day true day-Fair 20 refl 30 people (omega arith)
      (omega arith) plain_draw-Regular

standard_server_new-Made_example :
    Made (λ s. standard s) (standard_server_new whole 1 (init_table whole) 0 plenty)
standard_server_new-Made_example =
    standard_server_new-Made whole whole_laws 1 0 plenty plenty-AllGranted

server_free-Frees_example :
    Frees (server_free (standard (served_desk 2))) (held (standard (served_desk 2)))
server_free-Frees_example =
    server_free-Frees (standard (served_desk 2)) (served_desk-ServerInv 1 2 (omega arith))

run_test-Tested_robot_example :
    (made : ℕ) × Tested false params poor_day 30 people made
      (run_test whole (setup1 whole) params (init_table whole) poor_day 30 people)
run_test-Tested_robot_example =
    run_test-Tested_robot whole whole_laws params poor_day false poor_day-Fair 20 refl 30 people
      (omega arith) (omega arith) plain_draw-Regular halved

main-Averaged_example : Averaged true params (λ i. day) 30 people
main-Averaged_example =
    main-Averaged whole whole_laws params (λ i. day) true 20 30 people refl (omega arith)
      (omega arith) (λ i. day-Fair) (λ i. plain_draw-Regular)
