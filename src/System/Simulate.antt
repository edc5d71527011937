-- ===== src/System/Simulate.antt =====
-- `simulate` of src/system.c.
use aca_bsim.Common.{
  ℕ, zero, suc, ◌+◌, List, [], ◌∷◌, Option, none, some, Bool, Result, ok, fault, exit_failure,
  null_dereference, ◌>>=◌,
}
use aca_bsim.Common.Int.{ℤ, pos, negsuc, int_of_size}
use aca_bsim.Platform.{Platform}
use aca_bsim.Client.{Heap}
use aca_bsim.Queue.Ops.{Queue, queue_size}
use aca_bsim.Stat.{SimStat}
use aca_bsim.Server.Types.{Server}
use aca_bsim.System.Types.{System, Tick}
use aca_bsim.System.Tick.{system_tick}
use aca_bsim.System.Totals.{compute_stats}

-- The rounds of `for (int t = 0; t < simulation_time; t++)`.
abbrev pub rounds : ℤ → ℕ
rounds (pos n) = n
rounds (negsuc n) = 0

module _ {p : Platform} where
  -- The `for` loop, with `n` rounds left at time `t`.
  unfoldable pub run_ticks : (ℕ → Tick) → ℕ → ℕ → Heap → System p → Result (Heap × System p)
  run_ticks ticks zero t heap y = ok (heap, y)
  run_ticks ticks (suc n) t heap y = do
    r ← system_tick (ticks t) heap y t
    run_ticks ticks n (t + 1) r.0 r.1

  -- What follows the tests: the number of clients, the ticks, the means.
  unfoldable pub run_system :
      (ℕ → Tick) → (ℕ → Bool) → Heap → System p → ℤ → SimStat → Result (Heap × System p × SimStat)
  run_system ticks granted heap y simulation_time stat = do
    r ← run_ticks ticks (rounds simulation_time) 0 heap y
    stat' ←
        compute_stats r.0 granted r.1
          (record stat { total_clients = int_of_size (queue_size y.system_clients) })
    ok (r.0, r.1, stat')

  -- The tests of `simulate` at its start: the first server of `standard_servers` is read before
  -- anything is tested.
  unfoldable pub checked :
      List (Server p)
      → Option (Queue ℕ)
      → Option SimStat
      → (SimStat → Result (Heap × System p × SimStat))
      → Result (Heap × System p × SimStat)
  checked [] clients stat run = fault null_dereference
  checked (s ∷ servers) none stat run = fault exit_failure
  checked (s ∷ servers) (some clients) none run = fault exit_failure
  checked (s ∷ servers) (some clients) (some stat) run = run stat

  unfoldable pub simulate :
      (ℕ → Tick)
      → (ℕ → Bool)
      → Heap
      → Option (System p)
      → ℤ
      → Option SimStat
      → Result (Heap × System p × SimStat)
  simulate ticks granted heap none simulation_time stat = fault null_dereference
  simulate ticks granted heap (some y) simulation_time stat =
      checked y.standard_servers y.system_clients stat
        (run_system ticks granted heap y simulation_time)
