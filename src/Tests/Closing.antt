-- ===== src/Tests/Closing.antt =====
-- A bank at which nobody arrives any more, and its statistics.
use aca_bsim.Server.Made.{zero_mean}
use aca_bsim.Common.{ℕ, ◌≤◌, ◌≡◌, refl, [], ◌∷◌, none, some, true, inr, arith}
use aca_bsim.Platform.Sample.{rand_ratio}
use aca_bsim.Queue.Layout.{contents}
use aca_bsim.Server.Types.{StandardServer, standard, robotic, zero_stat}
use aca_bsim.Server.Table.{init_table, service_compare, get_service_time, timed, timed_found}
use aca_bsim.Server.Held.{ServerInv, held}
use aca_bsim.Server.Times.{standard-table-IsTimely}
use aca_bsim.System.Arrive.{at_servers}
use aca_bsim.Server.Serve.{server_is_service_successful}
use aca_bsim.Server.Left.{left, rest_left}
use aca_bsim.Server.Drain.{Drains}
use aca_bsim.System.Types.{System}
use aca_bsim.System.Tick.{update_server}
use aca_bsim.System.Simulate.{run_ticks}
use aca_bsim.System.Success.{update_server-Drains}
use aca_bsim.System.Drained.{Closing, LuckyTick}
use aca_bsim.System.Idle.{AllServed, run_ticks-AllServed}
use aca_bsim.Tests.Samples.{
  whole, whole_laws, people, people-AllListed, nobody_waiting, one_waiting, nobody_waiting-IsValid,
  one_waiting-IsValid, two_waiting, two_waiting-IsValid,
}
use aca_bsim.Tests.Servers.{
  desk_of, robot_of, base_of, idle_desk-ServerInv, idle_robot-ServerInv, fair_luck, fair_tick,
}

-- No more clients come; client 2 waits at the desk.
abbrev closing_bank : System whole
closing_bank = record {
  system_clients = some nobody_waiting;
  standard_servers = standard (desk_of none 0) ∷ [];
  robotic_servers = robotic (robot_of none) ∷ [];
}

desk_left : left people (standard (desk_of none 0)) ≤ 7
unfolding get_service_time timed_found timed init_table contents service_compare
desk_left = omega arith

robot_left : left people (robotic (robot_of none)) ≤ 7
unfolding contents
robot_left = omega arith

bank-Closing : Closing {p = whole} 0 7 0 people closing_bank
unfolding contents
bank-Closing = record {
  queue = nobody_waiting;
  clients = refl;
  valid = nobody_waiting-IsValid;
  empty = refl;
  standard_inv = (idle_desk-ServerInv, tt);
  robotic_inv = (idle_robot-ServerInv, tt);
  standard_within = (refl, desk_left, tt);
  robotic_within = (refl, robot_left, tt);
}

fair_tick-LuckyTick : LuckyTick whole 0 fair_tick
unfolding rand_ratio
fair_tick-LuckyTick = record {
  standard = record { push = λ i. refl; success = λ i. refl };
  robotic = record { push = λ i. refl; success = λ i. refl };
}

run_ticks-AllServed_example :
    AllServed closing_bank (run_ticks (λ i. fair_tick) 7 100 people closing_bank)
unfolding contents
run_ticks-AllServed_example =
    run_ticks-AllServed 0 (λ i. fair_tick) 7 100 0 people closing_bank (λ i. fair_tick-LuckyTick)
      bank-Closing (people-AllListed (at_servers closing_bank)) (omega arith) (omega arith)

-- The desk has served client 2 and serves client 3 for another `to_go` ticks.
abbrev late_desk : ℕ → StandardServer whole
late_desk to_go = record {
  base = record (base_of (some 3) to_go) {
    finished_clients_queue = one_waiting;
    stat = record zero_stat { client_served = 1; active_time = 6; idle_time = 3 };
  };
  client_queue = two_waiting;
}

late_desk-ServerInv :
    (low to_go : ℕ) → low ≤ to_go → ServerInv true low 9 (standard (late_desk to_go))
unfolding contents
late_desk-ServerInv low to_go h = record {
  based = record {
    finished = one_waiting-IsValid;
    served = refl;
    elapsed = refl;
    sum = record { size = 0; is_size = refl; small = omega arith };
    mean = zero_mean;
    busy = inr (to_go, refl, h);
  };
  queues = two_waiting-IsValid;
  timely = λ c listed. standard-table-IsTimely whole whole_laws (late_desk to_go) c refl listed;
}

success_drawn : server_is_service_successful whole 100 (standard (late_desk 0)) ≡ true
unfolding server_is_service_successful rand_ratio
success_drawn = refl

update_server-Drains_example :
    Drains 9 people
      (standard (late_desk 0))
      (rest_left people (standard (late_desk 0)))
      (update_server fair_luck people (standard (late_desk 0)) 6)
unfolding contents
update_server-Drains_example =
    update_server-Drains fair_luck people 6 9 (standard (late_desk 0)) refl success_drawn
      (late_desk-ServerInv 0 0 (omega arith)) (people-AllListed (held (standard (late_desk 0))))
      (omega arith) (omega arith)

abbrev late_bank : System whole
late_bank = record {
  system_clients = some two_waiting;
  standard_servers = standard (late_desk 2) ∷ [];
  robotic_servers = [];
}
