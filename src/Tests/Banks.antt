-- ===== src/Tests/Banks.antt =====
-- The theorems on the whole system, at a bank of one standard and one robotic server.
use aca_bsim.Common.{◌≡◌, refl, [], ◌∷◌, none, some, true, false, inl, ok, arith, length}
use aca_bsim.Common.Int.{pos, ◌+ℤ◌}
use aca_bsim.Main.{zero_sim_stat}
use aca_bsim.Queue.Layout.{contents}
use aca_bsim.Server.Types.{standard}
use aca_bsim.System.Assign.{assign_client, lowest_load}
use aca_bsim.System.Tick.{system_tick}
use aca_bsim.System.Totals.{Totals, no_totals, count_servers}
use aca_bsim.System.Simulate.{simulate, run_ticks}
use aca_bsim.System.Served.{held_all}
use aca_bsim.System.Chosen.{Lowest, lowest_load-Lowest}
use aca_bsim.System.Choice.{Choice, assign_client-Choice}
use aca_bsim.System.Arrive.{Assigned, assign_client-Assigned}
use aca_bsim.System.Follow.Order.{Followed, Ordered, run_ticks-Followed, run_ticks-Ordered}
use aca_bsim.System.Run.{system_tick-Passed}
use aca_bsim.System.Admit.{everyone, Passed, SystemInv-lenient}
use aca_bsim.System.Counts.{Counted, served_total, mean_total, count_servers-Counted}
use aca_bsim.System.Total.{Finished, simulate-Finished, simulate-Survives}
use aca_bsim.System.Counted.{SystemCounted}
use aca_bsim.System.Bounded.{Bounded, simulate-Bounded}
use aca_bsim.System.Waits.{Recorded, get_client-Recorded}
use aca_bsim.Tests.Samples.{people, people-AllListed, two_waiting, two_waiting-IsValid}
use aca_bsim.Tests.Servers.{
  desk_of, bank, bank-SystemInv, idle_desk-ServerInv, idle_robot-ServerInv, fair_tick, poor_tick,
  fair_tick-Granted,
}

simulate-Finished_example :
    Finished true 9 bank
      (simulate (λ i. fair_tick) (λ i. true) people (some bank) (pos 9) (some zero_sim_stat))
unfolding contents
simulate-Finished_example =
    simulate-Finished (λ i. fair_tick) (λ i. true) people bank 9 zero_sim_stat
      (standard (desk_of none 0)) [] refl bank-SystemInv (λ i. fair_tick-Granted)
      (people-AllListed (everyone bank)) (omega arith) (omega arith)

simulate-Survives_example :
    Finished false 9 bank
      (simulate (λ i. poor_tick) (λ i. false) people (some bank) (pos 9) (some zero_sim_stat))
unfolding contents
simulate-Survives_example =
    simulate-Survives (λ i. poor_tick) (λ i. false) people bank 9 zero_sim_stat
      (standard (desk_of none 0)) [] refl (SystemInv-lenient false 0 bank bank-SystemInv)
      (people-AllListed (everyone bank)) (omega arith) (omega arith)

bank-SystemCounted : SystemCounted 0 (length (everyone bank)) bank
bank-SystemCounted = record {
  standard_counted = (
    record { failures = omega arith; sum = (0, refl, omega arith); mean = (0, refl, omega arith) },
    tt,
  );
  robotic_counted = (
    record { failures = omega arith; sum = (0, refl, omega arith); mean = (0, refl, omega arith) },
    tt,
  );
}

simulate-Bounded_example :
    Bounded 9
      (length (everyone bank))
      bank
      (simulate (λ i. fair_tick) (λ i. true) people (some bank) (pos 9) (some zero_sim_stat))
unfolding contents
simulate-Bounded_example =
    simulate-Bounded (λ i. fair_tick) (λ i. true) people bank 9 zero_sim_stat
      (standard (desk_of none 0)) [] refl bank-SystemInv bank-SystemCounted (λ i. fair_tick-Granted)
      (people-AllListed (everyone bank)) (omega arith) (omega arith)

system_tick-Passed_example : Passed true 1 people bank (system_tick fair_tick people bank 0)
unfolding contents
system_tick-Passed_example =
    system_tick-Passed true fair_tick people bank 0 0 bank-SystemInv (λ e. fair_tick-Granted)
      (people-AllListed (everyone bank)) (omega arith) (omega arith)

run_ticks-Followed_example : Followed 9 0 people bank (run_ticks (λ i. fair_tick) 9 0 people bank)
unfolding contents
run_ticks-Followed_example =
    run_ticks-Followed (λ i. fair_tick) 9 0 0 people bank bank-SystemInv (λ i. fair_tick-Granted)
      (people-AllListed (everyone bank)) (omega arith) (omega arith)

run_ticks-Ordered_example : Ordered 9 0 people bank (run_ticks (λ i. fair_tick) 9 0 people bank)
unfolding contents
run_ticks-Ordered_example =
    run_ticks-Ordered (λ i. fair_tick) 9 0 0 people bank bank-SystemInv (λ i. fair_tick-Granted)
      (people-AllListed (everyone bank)) (omega arith) (omega arith)

assign_client-Choice_example : Choice true people bank 4 (assign_client true people bank 4)
unfolding contents
assign_client-Choice_example =
    assign_client-Choice true people bank 4 true 1 0 (idle_desk-ServerInv, tt)
      (idle_robot-ServerInv, tt) (omega arith) (omega arith) (inl (λ e. cc))

assign_client-Assigned_example : Assigned true 1 0 bank 4 (assign_client true people bank 4)
unfolding contents
assign_client-Assigned_example =
    assign_client-Assigned true 1 0 true people bank 4 (λ e. refl) (idle_desk-ServerInv, tt)
      (idle_robot-ServerInv, tt) (omega arith) (omega arith)

lowest_load-Lowest_example :
    Lowest 0 bank.standard_servers 0 none 100 (lowest_load 0 bank.standard_servers 0 none (pos 100))
unfolding contents
lowest_load-Lowest_example =
    lowest_load-Lowest 0 true 1 0 bank.standard_servers 0 100 none (idle_desk-ServerInv, tt)
      (omega arith)

get_client-Recorded_example : Recorded true people two_waiting 0 0 (1 ∷ [])
unfolding contents
get_client-Recorded_example =
    get_client-Recorded true people two_waiting 0 0 (1 ∷ []) two_waiting-IsValid refl refl

count_servers-Counted_example :
    (k' : Totals) × (count_servers people (λ i. true) 0 bank.standard_servers no_totals ≡ ok k')
    × Counted no_totals k' (served_total bank.standard_servers)
    × (k'.queue_len ≡ no_totals.queue_len +ℤ mean_total bank.standard_servers)
count_servers-Counted_example =
    count_servers-Counted people true 1 0 (λ i. true) 0 bank.standard_servers no_totals (λ j. refl)
      (idle_desk-ServerInv, tt) (people-AllListed (held_all bank.standard_servers))
