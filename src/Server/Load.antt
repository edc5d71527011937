-- ===== src/Server/Load.antt =====
-- Taking clients in: the loads of a server and the queue that a new client enters.
use aca_bsim.Common.{
  ℕ, ◌+◌, Bool, Result, ok, fault, exit_failure, ◌>>=◌, ◌==◌, if◌then◌else◌, some,
}
use aca_bsim.Common.Int.{ℤ, int_of_size}
use aca_bsim.Platform.{Platform, DisabilityType, no_disability}
use aca_bsim.Queue.Ops.{queue_size, push}
use aca_bsim.Client.{Heap}
use aca_bsim.Server.Types.{Server, StandardServer, RoboticServer, standard, robotic, invalid}

module _ {p : Platform} where
  unfoldable pub get_standard_server_load : StandardServer p → ℤ
  get_standard_server_load s = int_of_size (queue_size (some s.client_queue))

  unfoldable pub get_robotic_server_load : RoboticServer p → DisabilityType → ℤ
  get_robotic_server_load s type =
      if type == no_disability
      then int_of_size
          (queue_size (some s.normal_client_queue) + queue_size (some s.disable_client_queue))
      else int_of_size (queue_size (some s.disable_client_queue))

  unfoldable pub server_get_load : Server p → DisabilityType → Result ℤ
  server_get_load (standard s) type = ok (get_standard_server_load s)
  server_get_load (robotic s) type = ok (get_robotic_server_load s type)
  server_get_load (invalid b) type = fault exit_failure

  unfoldable pub assign_client_to_standard_server :
      Bool → StandardServer p → ℕ → Result (StandardServer p)
  assign_client_to_standard_server granted s client = do
    r ← push granted s.client_queue client
    ok (record s { client_queue = r.0 })

  unfoldable pub assign_client_to_robotic_server :
      Bool → Heap → RoboticServer p → ℕ → Result (RoboticServer p)
  assign_client_to_robotic_server granted heap s client =
      if (heap client).disability_type == no_disability
      then (do
        r ← push granted s.normal_client_queue client
        ok (record s { normal_client_queue = r.0 }))
      else (do
        r ← push granted s.disable_client_queue client
        ok (record s { disable_client_queue = r.0 }))

  -- The number returned is 1 for an invalid server, which stays as it is, and 0 otherwise.
  unfoldable pub server_assign_client : Bool → Heap → Server p → ℕ → Result (Server p × ℕ)
  server_assign_client granted heap (standard s) client = do
    s' ← assign_client_to_standard_server granted s client
    ok (standard s', 0)
  server_assign_client granted heap (robotic s) client = do
    s' ← assign_client_to_robotic_server granted heap s client
    ok (robotic s', 0)
  server_assign_client granted heap (invalid b) client = ok (invalid b, 1)
