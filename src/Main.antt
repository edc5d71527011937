-- ===== src/Main.antt =====
-- The runs of src/main.c: the two setups, one test and the averages of all tests. What a test prints
-- is left out; what the environment answers is an argument.
pub mod Ended
pub mod Setups
pub mod Tested
pub mod Averaged
pub mod Printed
pub mod Prints
use aca_bsim.Common.{
  ℕ, zero, suc, List, [], ◌∷◌, ◌++◌, Option, none, some, Bool, true, Result, ok, fault,
  exit_failure, ◌>>=◌,
}
use aca_bsim.Common.Int.{ℤ, pos}
use Prim.Native.String.{String}
use aca_bsim.Platform.{Platform}
use aca_bsim.Platform.Options.{CFlag}
use aca_bsim.Output.{Piece}
use aca_bsim.Params.{SimParam, initialize_parameters}
use aca_bsim.Stat.Print.{print_stats}
use aca_bsim.Client.{Heap}
use aca_bsim.Client.Arrivals.{Draw, clients_init}
use aca_bsim.Queue.Ops.{Queue, queue_free}
use aca_bsim.Stat.{SimStat, update_total_stats, finalize_stat}
use aca_bsim.Server.Types.{
  Server, Memory, standard, robotic, standard_server_new, robotic_server_new,
}
use aca_bsim.Server.Table.{init_table}
use aca_bsim.Server.Accounts.{server_free}
use aca_bsim.System.Types.{System, Tick}
use aca_bsim.System.Simulate.{simulate}

-- What the environment answers in one test. `stats` is what the memory of the local `sim_stat_t`
-- holds.
pub record Chance : Type 0 where
  pub draws : ℕ → Draw
  pub granted : Bool
  pub granted_items : Bool
  pub memory : ℕ → Memory
  pub ticks : ℕ → Tick
  pub granted_iterator : ℕ → Bool
  pub stats : SimStat

abbrev pub test_count : ℕ
test_count = 10000

module _ {p : Platform} where
  -- `server_free` of each server of a setup.
  unfoldable pub free_servers : List (Server p) → Result (List ℕ)
  free_servers [] = ok []
  free_servers (s ∷ servers) = do
    freed ← server_free s
    rest ← free_servers servers
    ok (freed ++ rest)

  -- The end of both setups: the run, and the clients that its servers free. `clients` is a pointer:
  -- the caller sees what is left in the queue.
  unfoldable pub run_setup :
      Chance → Heap → System p → SimParam p → Result (SimStat × Option (Queue ℕ) × List ℕ)
  run_setup chance heap y params = do
    r ←
        simulate chance.ticks chance.granted_iterator heap (some y) params.simulation_time
          (some chance.stats)
    freed ← free_servers (r.1.standard_servers ++ r.1.robotic_servers)
    ok (r.2, r.1.system_clients, freed)

module _ (p : Platform) where
  abbrev pub Setup : Type 0
  Setup =
      p.Table
      → Option (Queue ℕ)
      → SimParam p
      → Chance
      → Heap
      → Result (SimStat × Option (Queue ℕ) × List ℕ)

  unfoldable pub setup0 : Setup
  setup0 table clients params chance heap =
      elim (standard_server_new p 1 table params.error_per_act_prob (chance.memory 0)) [
        | none ↦ fault exit_failure
        | some server_1 ↦
            elim (standard_server_new p 2 table params.error_per_act_prob (chance.memory 1)) [
              | none ↦ fault exit_failure
              | some server_2 ↦
                  run_setup chance heap
                    (record {
                      system_clients = clients;
                      standard_servers = standard server_1 ∷ standard server_2 ∷ [];
                      robotic_servers = [];
                    })
                    params
            ]
      ]

  unfoldable pub setup1 : Setup
  setup1 table clients params chance heap =
      elim (standard_server_new p 0 table params.error_per_act_prob (chance.memory 0)) [
        | none ↦ fault exit_failure
        | some server_1 ↦
            elim (robotic_server_new p 1 table params.robot_boost_coff params.error_per_act_prob
              (chance.memory 1)) [
                | none ↦ fault exit_failure
                | some server_2 ↦
                    run_setup chance heap
                      (record {
                        system_clients = clients;
                        standard_servers = standard server_1 ∷ [];
                        robotic_servers = robotic server_2 ∷ [];
                      })
                      params
              ]
      ]

  -- `run_test`: the statistics, and the clients that the test frees. `fuel` bounds the rounds of
  -- `clients_init`.
  unfoldable pub run_test :
      Setup → SimParam p → p.Table → Chance → ℕ → Heap → Result (SimStat × List ℕ)
  run_test setup params table chance fuel heap =
      clients_init p chance.granted chance.granted_items params.disability_prob params.p1_dest_prob
        params.simulation_time chance.draws fuel heap
      >>= λ e. elim e.clients [
        | none ↦ fault exit_failure
        | some clients ↦ setup table (some clients) params chance e.heap >>= λ r.
            queue_free r.1 true >>= λ freed. ok (r.0, r.2 ++ freed)
      ]

  -- The loop of `main`, with `n` tests left; `chances n` is for the first of them.
  unfoldable pub run_tests :
      Setup → SimParam p → p.Table → (ℕ → Chance) → ℕ → Heap → ℕ → SimStat → Result SimStat
  run_tests setup params table chances fuel heap zero total = ok total
  run_tests setup params table chances fuel heap (suc n) total = do
    r ← run_test setup params table (chances n) fuel heap
    run_tests setup params table chances fuel heap n (update_total_stats total r.0)

abbrev pub zero_sim_stat : SimStat
zero_sim_stat = record {
  total_clients = pos 0;
  mean_queue_size = pos 0;
  mean_wait_time = pos 0;
  mean_serve_time = pos 0;
  nd_mean_wait_time = pos 0;
  nd_mean_serve_time = pos 0;
  t1_mean_wait_time = pos 0;
  t1_mean_serve_time = pos 0;
  t2_mean_wait_time = pos 0;
  t2_mean_serve_time = pos 0;
  t3_mean_wait_time = pos 0;
  t3_mean_serve_time = pos 0;
}

-- `main` after the command line: `setup` is `setup0`.
unfoldable pub main : (p : Platform) → SimParam p → (ℕ → Chance) → ℕ → Heap → Result SimStat
main p params chances fuel heap = do
  total ← run_tests p (setup0 p) params (init_table p) chances fuel heap test_count zero_sim_stat
  ok (finalize_stat total test_count)

-- The whole of `main`: the averages, and what it prints before the tests and after them. `memory` is
-- what the local `params` holds at first.
unfoldable pub run_main :
    (p : Platform)
    → CFlag p
    → SimParam p
    → List String
    → (ℕ → Chance)
    → ℕ
    → Heap
    → Result (SimStat × List (Piece p) × List (Piece p))
run_main p c memory argv chances fuel heap = do
  i ← initialize_parameters c memory argv
  total ← main p i.0 chances fuel heap
  ok (total, i.1, print_stats total)
