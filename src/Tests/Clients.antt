-- ===== src/Tests/Clients.antt =====
-- The arrival of clients with concrete draws.
use aca_bsim.Common.{refl, true, arith}
use aca_bsim.Common.Int.{◌+ℤ◌, ◌-ℤ◌}
use aca_bsim.Platform.Sample.{exponential_sample, uniform_sample, rand_ratio}
use aca_bsim.Client.Arrivals.{Draw}
use aca_bsim.Client.Schedule.{Regular}
use aca_bsim.Tests.Samples.{whole, people}

abbrev pub plain_draw : Draw
plain_draw = record {
  gap = 7;
  disabled = 3;
  kind = 40;
  far = 60;
  granted_client = true;
  granted_slots = true;
  block = people 9;
}

pub plain_draw-Regular : Regular whole (λ k. plain_draw)
unfolding exponential_sample uniform_sample rand_ratio ◌+ℤ◌ ◌-ℤ◌
plain_draw-Regular = record {
  gap = λ k. (0, refl);
  kind = λ k. (0, refl, omega arith);
  client = λ k. refl;
  slots = λ k. refl;
}
