-- ===== src/Platform/Sample.antt =====
-- The samples of src/utils.c. A number drawn by `rand` is an argument.
use aca_bsim.Common.{ℕ}
use aca_bsim.Common.Int.{ℤ, pos, ◌+ℤ◌, ◌-ℤ◌}
use aca_bsim.Platform.{Platform}

module _ (p : Platform) where
  -- `(double) rand () / RAND_MAX`
  unfoldable pub rand_ratio : ℕ → p.Double
  rand_ratio drawn = p.div (p.of_int (pos drawn)) (p.of_int (pos p.rand_max))

  -- `lambda` is `RATE`, 0.5.
  unfoldable pub exponential_sample : ℕ → ℤ
  unfolding rand_ratio
  exponential_sample drawn =
      p.to_int (
        p.div (p.neg (p.log (p.sub (p.of_int (pos 1)) (rand_ratio drawn))))
          (p.div (p.of_int (pos 1)) (p.of_int (pos 2))))
      +ℤ pos 1

  -- `unifrom_sample`
  unfoldable pub uniform_sample : ℕ → ℤ → ℤ → ℤ
  unfolding rand_ratio
  uniform_sample drawn a b = a +ℤ p.to_int (p.mul (rand_ratio drawn) (p.of_int (b -ℤ a +ℤ pos 1)))
