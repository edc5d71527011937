-- ===== src/System/Totals.antt =====
-- `compute_stats` of src/system.c: the means over the clients served.
use aca_bsim.Common.{
  ℕ, suc, ◌+◌, List, [], ◌∷◌, ◌++◌, some, Bool, Result, ok, ◌>>=◌, ◌==◌, ltb, length, if◌then◌else◌,
}
use aca_bsim.Common.Int.{ℤ, pos, ◌+ℤ◌, ◌/ℤ◌, div_size}
use aca_bsim.Platform.{Platform, no_disability, type_1, type_2, type_3}
use aca_bsim.Client.{Client, Heap}
use aca_bsim.Queue.Ops.{queue_iterator_create}
use aca_bsim.Queue.Iterate.{iterate}
use aca_bsim.Server.Types.{Server, base}
use aca_bsim.Stat.{SimStat}
use aca_bsim.System.Types.{System}

-- The number of clients of a kind, and the sums of their waiting and service times.
pub record Sums : Type 0 where
  pub total : ℕ
  pub wait_time : ℤ
  pub service_time : ℤ

abbrev pub no_sums : Sums
no_sums = record { total = 0; wait_time = pos 0; service_time = pos 0 }

-- The local variables of `compute_stats`; `all` are `total_served_clients` and the two sums with it.
pub record Totals : Type 0 where
  pub queue_len : ℤ
  pub nd : Sums
  pub t1 : Sums
  pub t2 : Sums
  pub t3 : Sums
  pub all : Sums

abbrev pub no_totals : Totals
no_totals = record {
  queue_len = pos 0;
  nd = no_sums;
  t1 = no_sums;
  t2 = no_sums;
  t3 = no_sums;
  all = no_sums;
}

unfoldable pub compute_client_stats : Client → Sums → Sums
compute_client_stats client sums = record {
  total = sums.total + 1;
  wait_time = sums.wait_time +ℤ client.service_stat.wait_time;
  service_time = sums.service_time +ℤ client.service_stat.total_time;
}

-- The `switch` on the client's disability.
unfoldable pub by_type : Client → Totals → Totals
by_type client k =
    if client.disability_type == no_disability
    then record k { nd = compute_client_stats client k.nd }
    else if client.disability_type == type_1
    then record k { t1 = compute_client_stats client k.t1 }
    else if client.disability_type == type_2
    then record k { t2 = compute_client_stats client k.t2 }
    else if client.disability_type == type_3
    then record k { t3 = compute_client_stats client k.t3 }
    else k

-- The body of the `while` loop.
unfoldable pub count_client : Heap → Totals → ℕ → Totals
count_client heap k client = record (by_type (heap client) k) {
  all = compute_client_stats (heap client) k.all;
}

-- `total > 0 ? sum / total : 0`
abbrev pub mean : ℤ → ℕ → ℤ
mean sum total = if ltb 0 total then sum /ℤ total else pos 0

-- The fields of `stat`, all but `total_clients`.
unfoldable pub means : Totals → ℕ → SimStat → SimStat
means k servers stat = record stat {
  nd_mean_wait_time = mean k.nd.wait_time k.nd.total;
  nd_mean_serve_time = mean k.nd.service_time k.nd.total;
  t1_mean_wait_time = mean k.t1.wait_time k.t1.total;
  t1_mean_serve_time = mean k.t1.service_time k.t1.total;
  t2_mean_wait_time = mean k.t2.wait_time k.t2.total;
  t2_mean_serve_time = mean k.t2.service_time k.t2.total;
  t3_mean_wait_time = mean k.t3.wait_time k.t3.total;
  t3_mean_serve_time = mean k.t3.service_time k.t3.total;
  mean_queue_size = if ltb 0 servers then div_size k.queue_len servers else pos 0;
  mean_serve_time = mean k.all.service_time k.all.total;
  mean_wait_time = mean k.all.wait_time k.all.total;
}

module _ {p : Platform} where
  -- The `for` loop from server `i` on. The fuel is one more than the size of the queue.
  unfoldable pub count_servers : Heap → (ℕ → Bool) → ℕ → List (Server p) → Totals → Result Totals
  count_servers heap granted i [] k = ok k
  count_servers heap granted i (s ∷ servers) k = do
    k' ←
        iterate (count_client heap) (suc ((base s).finished_clients_queue).size)
          (queue_iterator_create (granted i) (some (base s).finished_clients_queue))
          (record k { queue_len = k.queue_len +ℤ (base s).stat.mean_server_queue_len })
    count_servers heap granted (i + 1) servers k'

  unfoldable pub compute_stats : Heap → (ℕ → Bool) → System p → SimStat → Result SimStat
  compute_stats heap granted y stat = do
    k ← count_servers heap granted 0 (y.standard_servers ++ y.robotic_servers) no_totals
    ok (means k (length y.standard_servers + length y.robotic_servers) stat)
