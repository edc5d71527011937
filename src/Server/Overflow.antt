-- ===== src/Server/Overflow.antt =====
-- The wrap of the sum of queue lengths in src/server.c, and the assertion that notices it.
use native.Mathlib.Nat.{div-eq_of_lt, le-div_iff_mul-le}
use aca_bsim.Common.{
  ℕ, suc, ◌+◌, ◌-◌, ◌/◌, ◌^◌, ◌≤◌, ◌<◌, ◌≡◌, refl, ap, ◌∙◌, some, true, inl, inr, Result, ok, fault,
  assertion_failed, arith, ltb, Bool-cases, if◌then◌else◌,
}
use aca_bsim.Common.Int.{
  ℤ, pos, negsuc, sub_ℕ, ltb_ℤ, ◌/ℤ◌, add_size, add_size_small, add_size_large,
}
use aca_bsim.Platform.{Platform}
use aca_bsim.Queue.Ops.{queue_size}
use aca_bsim.Server.Types.{StandardServer}
use aca_bsim.Server.Accounts.{standard_server_update_stat}
use aca_bsim.Server.Stats.{quotient, not_below_zero}

quotient-negsuc_zero : (a n : ℕ) → suc a < n → negsuc a /ℤ n ≡ pos 0
unfolding ◌/ℤ◌
quotient-negsuc_zero a n h = rw (div-eq_of_lt h) refl

quotient-negsuc_below : (a n : ℕ) → 0 < n → n ≤ suc a → ltb_ℤ (negsuc a /ℤ n) (pos 0) ≡ true
unfolding ◌/ℤ◌
quotient-negsuc_below a n some_ticks h =
    below (suc a / n) ((le-div_iff_mul-le some_ticks).1 (omega arith))
  where
    below : (q : ℕ) → 1 ≤ q → ltb_ℤ (sub_ℕ 0 q) (pos 0) ≡ true
    below q h = ground arith

module _ {p : Platform} (s : StandardServer p) where
  -- The server with such a sum and mean.
  abbrev pub counted : ℤ → ℤ → StandardServer p
  counted sum mean = record s {
    base = record s.base {
      stat = record s.base.stat { sum_queue_lens = sum; mean_server_queue_len = mean };
    };
  }

  abbrev waits : ℕ
  waits = queue_size (some s.client_queue)

  -- The outcomes of the statistics of a tick at time `now`, with the sum `k` before.
  pub data Counts (k now : ℕ) (r : Result (StandardServer p)) : Type 0 where
    fits :
        k + waits < 2 ^ 31
        → r ≡ ok (counted (pos (k + waits)) (pos ((k + waits) / (now + 1))))
        → Counts k now r
    aborts :
        2 ^ 31 ≤ k + waits
        → now < 2 ^ 32 - (k + waits)
        → r ≡ fault assertion_failed
        → Counts k now r
    wraps :
        2 ^ 31 ≤ k + waits
        → 2 ^ 32 - (k + waits) ≤ now
        → r ≡ ok (counted (negsuc (2 ^ 32 - 1 - (k + waits))) (pos 0))
        → Counts k now r

  abbrev outcome : ℤ → ℤ → Result (StandardServer p)
  outcome sum mean = if ltb_ℤ mean (pos 0) then fault assertion_failed else ok (counted sum mean)

  update-outcome :
      (k now : ℕ) (sum : ℤ)
      → s.base.stat.sum_queue_lens ≡ pos k
      → add_size (pos k) waits ≡ sum
      → standard_server_update_stat s now ≡ outcome sum (sum /ℤ (now + 1))
  unfolding standard_server_update_stat
  update-outcome k now sum e adds =
      ap (λ z. outcome z (z /ℤ (now + 1))) (ap (λ z. add_size z waits) e ∙ adds)

  -- On a standard server whose sum of queue lengths k is not negative and whose queue has fewer
  -- than 2 ^ 31 clients, `standard_server_update_stat` at time now adds their number, if the new
  -- sum is below 2 ^ 31, and the mean is the sum divided by now + 1; otherwise the sum becomes
  -- negative, the new sum less 2 ^ 32, and the assertion fails if its amount is more than now,
  -- while the call returns with a mean of 0 if not.
  pub standard_server_update_stat-Counts :
      (k now : ℕ)
      → s.base.stat.sum_queue_lens ≡ pos k
      → k < 2 ^ 31
      → queue_size (some s.client_queue) < 2 ^ 31
      → Counts k now (standard_server_update_stat s now)
  standard_server_update_stat-Counts k now e small few =
      elim (Bool-cases (ltb (k + waits) (2 ^ 31))) [
        | inl less ↦
            let fit : k + waits < 2 ^ 31 = ground arith in
            fits fit (
              update-outcome k now (pos (k + waits)) e (add_size_small k waits fit)
              ∙ ap (outcome (pos (k + waits))) (quotient _ (k + waits) (now + 1) refl)
              ∙ rw (not_below_zero ((k + waits) / (now + 1))) refl)
        | inr more ↦
            let over : 2 ^ 31 ≤ k + waits = ground arith in
            let a = 2 ^ 32 - 1 - (k + waits) in
            let runs =
              update-outcome k now (negsuc a) e (add_size_large k waits over (omega arith)) in
            elim (Bool-cases (ltb now (2 ^ 32 - (k + waits)))) [
              | inl early ↦
                  aborts over (ground arith) (
                    runs ∙ rw (quotient-negsuc_below a (now + 1) (omega arith) (ground arith)) refl)
              | inr late ↦
                  wraps over (ground arith) (
                    runs
                    ∙ ap (outcome (negsuc a)) (quotient-negsuc_zero a (now + 1) (ground arith)))
            ]
      ]
