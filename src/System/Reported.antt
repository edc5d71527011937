-- ===== src/System/Reported.antt =====
-- What `compute_stats` of src/system.c reports of the clients that the servers have served.
use aca_bsim.Common.{ℕ, ◌≡◌, List, [], ◌∷◌, ◌++◌, ltb, if◌then◌else◌, length}
use aca_bsim.Common.Int.{pos, ◌/ℤ◌}
use aca_bsim.Platform.{Platform}
use aca_bsim.Client.{Client, Heap}
use aca_bsim.Queue.Ops.{Queue}
use aca_bsim.Queue.Layout.{contents}
use aca_bsim.Server.Types.{Server, base}
use aca_bsim.Stat.{SimStat}
use aca_bsim.System.Types.{System}
use aca_bsim.System.Totals.{Totals}
use aca_bsim.System.Counts.{mean_total}
use aca_bsim.System.Means.{
  Group, chosen, average, wait_time, total_time, mean_wait_of, mean_serve_of,
}

-- The clients that servers have served, oldest first at each.
abbrev pub served : {p : Platform} → List (Server p) → List ℕ
served [] = []
served (s ∷ servers) = contents (base s).finished_clients_queue ++ served servers

-- What is reported of the groups and of the queues.
pub record Reports {p : Platform} (heap : Heap) (servers : List (Server p)) (stat stat' : SimStat)
    : Type 0 where
  pub wait : (g : Group) → mean_wait_of g stat' ≡ average wait_time (chosen g heap (served servers))
  pub serve :
      (g : Group) → mean_serve_of g stat' ≡ average total_time (chosen g heap (served servers))
  pub queue_size :
      stat'.mean_queue_size
      ≡ (if ltb 0 (length servers) then mean_total servers /ℤ length servers else pos 0)
  pub clients : stat'.total_clients ≡ stat.total_clients
