-- ===== src/Stat/Averages.antt =====
-- The averages of src/stat.c, measured one by one.
use aca_bsim.Common.{ℕ, zero, suc, ◌≡◌, refl, ap, ◌∙◌}
use aca_bsim.Common.Int.{ℤ, pos, ◌+ℤ◌, ◌/ℤ◌, int_laws}
use aca_bsim.Stat.{SimStat, update_total_stats, finalize_stat}

-- The twelve fields of `sim_stat_t`.
pub data Measure : Type 0 where
  clients queue_size wait serve nd_wait nd_serve t1_wait t1_serve t2_wait t2_serve t3_wait
        t3_serve :
      Measure

abbrev pub measure : Measure → SimStat → ℤ
measure clients s = s.total_clients
measure queue_size s = s.mean_queue_size
measure wait s = s.mean_wait_time
measure serve s = s.mean_serve_time
measure nd_wait s = s.nd_mean_wait_time
measure nd_serve s = s.nd_mean_serve_time
measure t1_wait s = s.t1_mean_wait_time
measure t1_serve s = s.t1_mean_serve_time
measure t2_wait s = s.t2_mean_wait_time
measure t2_serve s = s.t2_mean_serve_time
measure t3_wait s = s.t3_mean_wait_time
measure t3_serve s = s.t3_mean_serve_time

-- The sum of `f 0` to `f (n - 1)`.
unfoldable pub sum_below : ℕ → (ℕ → ℤ) → ℤ
sum_below zero f = pos 0
sum_below (suc n) f = sum_below n f +ℤ f n

-- The totals after `update_total_stats` with each of `stats (n - 1)` to `stats 0`.
unfoldable pub totals_of : ℕ → (ℕ → SimStat) → SimStat → SimStat
totals_of zero stats total = total
totals_of (suc n) stats total = totals_of n stats (update_total_stats total (stats n))

measure-update :
    (m : Measure) (total s : SimStat)
    → measure m (update_total_stats total s) ≡ measure m total +ℤ measure m s
unfolding update_total_stats
measure-update clients total s = refl
measure-update queue_size total s = refl
measure-update wait total s = refl
measure-update serve total s = refl
measure-update nd_wait total s = refl
measure-update nd_serve total s = refl
measure-update t1_wait total s = refl
measure-update t1_serve total s = refl
measure-update t2_wait total s = refl
measure-update t2_serve total s = refl
measure-update t3_wait total s = refl
measure-update t3_serve total s = refl

measure-finalize_at :
    (m : Measure) (total : SimStat) (n : ℕ)
    → measure m (finalize_stat total n) ≡ measure m total /ℤ n
unfolding finalize_stat
measure-finalize_at clients total n = refl
measure-finalize_at queue_size total n = refl
measure-finalize_at wait total n = refl
measure-finalize_at serve total n = refl
measure-finalize_at nd_wait total n = refl
measure-finalize_at nd_serve total n = refl
measure-finalize_at t1_wait total n = refl
measure-finalize_at t1_serve total n = refl
measure-finalize_at t2_wait total n = refl
measure-finalize_at t2_serve total n = refl
measure-finalize_at t3_wait total n = refl
measure-finalize_at t3_serve total n = refl

measure-totals :
    (m : Measure) (n : ℕ) (stats : ℕ → SimStat) (total : SimStat)
    → measure m (totals_of n stats total)
      ≡ measure m total +ℤ sum_below n (λ i. measure m (stats i))
unfolding totals_of sum_below
measure-totals m zero stats total = omega int_laws
measure-totals m (suc n) stats total =
    measure-totals m n stats (update_total_stats total (stats n))
    ∙ ap (λ z. z +ℤ sum_below n (λ i. measure m (stats i))) (measure-update m total (stats n))
    ∙ omega int_laws

-- Each field of the averages of some totals, as a sum over the statistics they are totals of.
pub measure-finalize :
    (m : Measure) (n k : ℕ) (stats : ℕ → SimStat) (total : SimStat)
    → measure m (finalize_stat (totals_of n stats total) k)
      ≡ (measure m total +ℤ sum_below n (λ i. measure m (stats i))) /ℤ k
measure-finalize m n k stats total =
    measure-finalize_at m (totals_of n stats total) k
    ∙ ap (λ z. z /ℤ k) (measure-totals m n stats total)
