-- ===== src/System/Assign.antt =====
-- The arrival of a client: `get_client` and `assign_client` of src/system.c.
use aca_bsim.Common.{
  ℕ, zero, suc, ◌+◌, List, [], ◌∷◌, Option, none, some, Bool, not, Result, ok, fault,
  assertion_failed, exit_failure, out_of_bounds, ◌>>=◌, ◌==◌, if◌then◌else◌,
}
use aca_bsim.Common.Int.{ℤ, pos, ltb_ℤ, eqb_ℤ}
use aca_bsim.Platform.{Platform, DisabilityType, no_disability}
use aca_bsim.Queue.Ops.{Queue, queue_top, queue_pop}
use aca_bsim.Client.{ClientServiceStat, Heap, write}
use aca_bsim.Server.Types.{Server}
use aca_bsim.Server.Load.{server_get_load, server_assign_client}
use aca_bsim.System.Types.{System}

-- `(client_service_stat_t){ 0 }`
abbrev pub zero_service_stat : ClientServiceStat
zero_service_stat = record {
  arrival_time = pos 0;
  wait_time = pos 0;
  start_service_time = pos 0;
  finish_time = pos 0;
  failure_count = 0;
  total_time = pos 0;
}

-- The client on top enters if its arrival time has come; its service statistics start from 0.
unfoldable pub enter_client : Bool → Heap → Queue ℕ → ℕ → Result (Heap × Queue ℕ × Option ℕ)
enter_client granted heap q client = do
  r ← queue_pop granted q
  (if r.1
      then ok (
        write heap client (record (heap client) { service_stat = zero_service_stat }),
        r.0,
        some client,
      )
      else fault exit_failure)

unfoldable pub get_client : Bool → Heap → Queue ℕ → ℕ → Result (Heap × Queue ℕ × Option ℕ)
unfolding enter_client
get_client granted heap q current_time = queue_top q >>= λ top. elim top [
  | none ↦ ok (heap, q, none)
  | some client ↦
      if eqb_ℤ (heap client).service_stat.arrival_time (pos current_time)
      then enter_client granted heap q client
      else ok (heap, q, none)
]

-- `INT32_MAX`
abbrev pub int32_max : ℤ
int32_max = pos 2_147_483_647

-- A loop of `assign_client` over an array, from index `i` on: the index of the server with the lowest
-- load so far, and that load.
unfoldable pub lowest_load :
    {p : Platform} → DisabilityType → List (Server p) → ℕ → Option ℕ → ℤ → Result (Option ℕ × ℤ)
lowest_load type [] i low min_load = ok (low, min_load)
lowest_load type (s ∷ servers) i low min_load = do
  load ← server_get_load s type
  lowest_load type servers (i + 1) (if ltb_ℤ load min_load then some i else low)
      (if ltb_ℤ load min_load then load else min_load)

-- `server_assign_client (servers[i], client)`; the number that it returns is not read.
unfoldable pub assign_at :
    {p : Platform} → Bool → Heap → List (Server p) → ℕ → ℕ → Result (List (Server p))
assign_at granted heap [] i client = fault out_of_bounds
assign_at granted heap (s ∷ servers) zero client = do
  r ← server_assign_client granted heap s client
  ok (r.0 ∷ servers)
assign_at granted heap (s ∷ servers) (suc i) client = do
  servers' ← assign_at granted heap servers i client
  ok (s ∷ servers')

module _ {p : Platform} (granted : Bool) (heap : Heap) (y : System p) (client : ℕ) where
  unfoldable pub to_standard : ℕ → Result (System p)
  to_standard i = do
    servers ← assign_at granted heap y.standard_servers i client
    ok (record y { standard_servers = servers })

  unfoldable pub to_robotic : ℕ → Result (System p)
  to_robotic i = do
    servers ← assign_at granted heap y.robotic_servers i client
    ok (record y { robotic_servers = servers })

  -- The choice between the two servers of lowest load.
  unfoldable pub choose_server : Option ℕ → ℤ → Option ℕ → ℤ → Result (System p)
  choose_server none min_standard none min_robotic = fault assertion_failed
  choose_server none min_standard (some r) min_robotic = to_robotic r
  choose_server (some s) min_standard none min_robotic = to_standard s
  choose_server (some s) min_standard (some r) min_robotic =
      if not ((heap client).disability_type == no_disability)
      then to_robotic r
      else if ltb_ℤ min_robotic min_standard
      then to_robotic r
      else to_standard s

  unfoldable pub assign_client : Result (System p)
  assign_client = do
    s ← lowest_load (heap client).disability_type y.standard_servers 0 none int32_max
    r ← lowest_load (heap client).disability_type y.robotic_servers 0 none int32_max
    choose_server s.0 s.1 r.0 r.1
