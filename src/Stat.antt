-- ===== src/Stat.antt =====
-- `sim_stat_t` of include/stat.h and the averages of src/stat.c.
pub mod Averages
pub mod Print
use aca_bsim.Common.{ℕ}
use aca_bsim.Common.Int.{ℤ, ◌+ℤ◌, ◌/ℤ◌}

pub record SimStat : Type 0 where
  pub total_clients : ℤ
  pub mean_queue_size : ℤ
  pub mean_wait_time : ℤ
  pub mean_serve_time : ℤ
  pub nd_mean_wait_time : ℤ
  pub nd_mean_serve_time : ℤ
  pub t1_mean_wait_time : ℤ
  pub t1_mean_serve_time : ℤ
  pub t2_mean_wait_time : ℤ
  pub t2_mean_serve_time : ℤ
  pub t3_mean_wait_time : ℤ
  pub t3_mean_serve_time : ℤ

unfoldable pub update_total_stats : SimStat → SimStat → SimStat
update_total_stats total stats = record {
  total_clients = total.total_clients +ℤ stats.total_clients;
  mean_queue_size = total.mean_queue_size +ℤ stats.mean_queue_size;
  mean_wait_time = total.mean_wait_time +ℤ stats.mean_wait_time;
  mean_serve_time = total.mean_serve_time +ℤ stats.mean_serve_time;
  nd_mean_wait_time = total.nd_mean_wait_time +ℤ stats.nd_mean_wait_time;
  nd_mean_serve_time = total.nd_mean_serve_time +ℤ stats.nd_mean_serve_time;
  t1_mean_wait_time = total.t1_mean_wait_time +ℤ stats.t1_mean_wait_time;
  t1_mean_serve_time = total.t1_mean_serve_time +ℤ stats.t1_mean_serve_time;
  t2_mean_wait_time = total.t2_mean_wait_time +ℤ stats.t2_mean_wait_time;
  t2_mean_serve_time = total.t2_mean_serve_time +ℤ stats.t2_mean_serve_time;
  t3_mean_wait_time = total.t3_mean_wait_time +ℤ stats.t3_mean_wait_time;
  t3_mean_serve_time = total.t3_mean_serve_time +ℤ stats.t3_mean_serve_time;
}

-- The test count is positive.
unfoldable pub finalize_stat : SimStat → ℕ → SimStat
finalize_stat total test_count = record {
  total_clients = total.total_clients /ℤ test_count;
  mean_queue_size = total.mean_queue_size /ℤ test_count;
  mean_wait_time = total.mean_wait_time /ℤ test_count;
  mean_serve_time = total.mean_serve_time /ℤ test_count;
  nd_mean_wait_time = total.nd_mean_wait_time /ℤ test_count;
  nd_mean_serve_time = total.nd_mean_serve_time /ℤ test_count;
  t1_mean_wait_time = total.t1_mean_wait_time /ℤ test_count;
  t1_mean_serve_time = total.t1_mean_serve_time /ℤ test_count;
  t2_mean_wait_time = total.t2_mean_wait_time /ℤ test_count;
  t2_mean_serve_time = total.t2_mean_serve_time /ℤ test_count;
  t3_mean_wait_time = total.t3_mean_wait_time /ℤ test_count;
  t3_mean_serve_time = total.t3_mean_serve_time /ℤ test_count;
}
