-- ===== src/System/Types.antt =====
-- `system_t` of include/system.h. An array of server pointers is the list of the servers it points
-- to, which are distinct objects; its length is the size field beside it.
use aca_bsim.Common.{ℕ, List, Option, Bool}
use aca_bsim.Platform.{Platform}
use aca_bsim.Queue.Ops.{Queue}
use aca_bsim.Server.Types.{Server}

-- `system_clients` is `none` where it is NULL.
pub record System (p : Platform) : Type 0 where
  pub system_clients : Option (Queue ℕ)
  pub standard_servers : List (Server p)
  pub robotic_servers : List (Server p)

-- What the environment answers while one server is run in a tick: a draw of `rand`, and whether the
-- requests of a push to the finished clients and of a pop are granted.
pub record Luck : Type 0 where
  pub drawn : ℕ
  pub granted_push : Bool
  pub granted_pop : Bool

-- The same for a whole tick.
pub record Tick : Type 0 where
  pub granted_get : Bool
  pub granted_assign : Bool
  pub standard_luck : ℕ → Luck
  pub robotic_luck : ℕ → Luck
