-- ===== src/Tests/Servers.antt =====
-- Concrete servers and systems for the tests.
use aca_bsim.Server.Made.{zero_sum, zero_mean}
use aca_bsim.Common.{
  ℕ, suc, ◌≤◌, ◌≡◌, refl, [], ◌∷◌, Option, none, some, true, false, inl, inr, arith, ap, ◌-◌, ◌/◌,
}
use aca_bsim.Common.Int.{pos}
use aca_bsim.Queue.Layout.{contents}
use aca_bsim.Server.Types.{BaseServer, StandardServer, RoboticServer, standard, robotic, zero_stat}
use aca_bsim.Server.Table.{init_table}
use aca_bsim.Server.Held.{BaseInv, ServerInv, IsTimely}
use aca_bsim.Server.Times.{standard-table-IsTimely, robotic-table-IsTimely}
use aca_bsim.System.Types.{System, Luck, Tick}
use aca_bsim.System.Admit.{SystemInv, Granted}
use aca_bsim.Tests.Samples.{
  whole, whole_laws, two_waiting, nobody_waiting, one_waiting, two_waiting-IsValid,
  nobody_waiting-IsValid, one_waiting-IsValid,
}

-- The base of a server that serves `current` for another `left` ticks.
abbrev pub base_of : Option ℕ → ℕ → BaseServer whole
base_of current left = record {
  id = 1;
  service_time_table = init_table whole;
  current_client = current;
  to_serve = pos left;
  error_prob = 0;
  stat = zero_stat;
  finished_clients_queue = nobody_waiting;
}

abbrev pub desk_of : Option ℕ → ℕ → StandardServer whole
desk_of current left = record { base = base_of current left; client_queue = one_waiting }

abbrev pub robot_of : Option ℕ → RoboticServer whole
robot_of current = record {
  base = base_of current 0;
  boost_rate = 2;
  disable_client_queue = nobody_waiting;
  normal_client_queue = nobody_waiting;
}

pub idle_base-BaseInv : BaseInv true 1 0 (base_of none 0)
unfolding contents
idle_base-BaseInv = record {
  finished = nobody_waiting-IsValid;
  served = refl;
  elapsed = refl;
  sum = zero_sum;
  mean = zero_mean;
  busy = inl refl;
}

-- A base that serves client 3.
pub busy_base-BaseInv : (left : ℕ) → 1 ≤ left → BaseInv true 1 0 (base_of (some 3) left)
unfolding contents
busy_base-BaseInv left h = record {
  finished = nobody_waiting-IsValid;
  served = refl;
  elapsed = refl;
  sum = zero_sum;
  mean = zero_mean;
  busy = inr (left, refl, h);
}

pub desk-IsTimely : (current : Option ℕ) (left : ℕ) → IsTimely (standard (desk_of current left))
desk-IsTimely current left c listed =
    standard-table-IsTimely whole whole_laws (desk_of current left) c refl listed

pub halved : (n : ℕ) → 4 ≤ n → n ≤ 18 → (m : ℕ) × (pos (n / 2) ≡ pos (suc m))
halved n h k = (n / 2 - 1, ap (λ z. pos z) (omega arith))

pub robot-IsTimely : (current : Option ℕ) → IsTimely (robotic (robot_of current))
robot-IsTimely current c listed =
    robotic-table-IsTimely whole whole_laws (robot_of current) c refl halved listed

pub idle_desk-ServerInv : ServerInv true 1 0 (standard (desk_of none 0))
idle_desk-ServerInv = record {
  based = idle_base-BaseInv;
  queues = one_waiting-IsValid;
  timely = desk-IsTimely none 0;
}

-- A desk that has served client 3 for a tick, with `left` ticks to go.
abbrev pub served_desk : ℕ → StandardServer whole
served_desk left = record {
  base = record (base_of (some 3) left) { stat = record zero_stat { active_time = 1 } };
  client_queue = one_waiting;
}

pub served_desk-ServerInv :
    (low left : ℕ) → low ≤ left → ServerInv true low 1 (standard (served_desk left))
unfolding contents
served_desk-ServerInv low left h = record {
  based = record {
    finished = nobody_waiting-IsValid;
    served = refl;
    elapsed = refl;
    sum = record { size = 0; is_size = refl; small = omega arith };
    mean = zero_mean;
    busy = inr (left, refl, h);
  };
  queues = one_waiting-IsValid;
  timely = λ c listed. standard-table-IsTimely whole whole_laws (served_desk left) c refl listed;
}

pub idle_robot-ServerInv : ServerInv true 1 0 (robotic (robot_of none))
idle_robot-ServerInv = record {
  based = idle_base-BaseInv;
  queues = (nobody_waiting-IsValid, nobody_waiting-IsValid);
  timely = robot-IsTimely none;
}

-- A system at its start: clients 0 and 1 to come, client 2 at the desk.
abbrev pub bank : System whole
bank = record {
  system_clients = some two_waiting;
  standard_servers = standard (desk_of none 0) ∷ [];
  robotic_servers = robotic (robot_of none) ∷ [];
}

pub bank-SystemInv : SystemInv true 0 bank
bank-SystemInv = record {
  queue = two_waiting;
  clients = refl;
  valid = two_waiting-IsValid;
  standard_inv = (idle_desk-ServerInv, tt);
  robotic_inv = (idle_robot-ServerInv, tt);
  servers = omega arith;
}

abbrev pub fair_luck : Luck
fair_luck = record { drawn = 100; granted_push = true; granted_pop = false }

abbrev pub fair_tick : Tick
fair_tick = record {
  granted_get = true;
  granted_assign = true;
  standard_luck = λ i. fair_luck;
  robotic_luck = λ i. fair_luck;
}

pub fair_tick-Granted : Granted fair_tick
fair_tick-Granted = record { assign = refl; standard = λ i. refl; robotic = λ i. refl }

-- A tick in which the allocator refuses every request.
abbrev pub poor_luck : Luck
poor_luck = record { drawn = 100; granted_push = false; granted_pop = false }

abbrev pub poor_tick : Tick
poor_tick = record {
  granted_get = false;
  granted_assign = false;
  standard_luck = λ i. poor_luck;
  robotic_luck = λ i. poor_luck;
}
