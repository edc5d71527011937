-- ===== src/Server/Serve.antt =====
-- Serving: a tick of a server, the next client, the end of a service and its retry.
use aca_bsim.Common.{
  ℕ, ◌+◌, Option, none, some, Bool, true, false, ◌&&◌, not, Result, ok, fault, assertion_failed,
  exit_failure, null_dereference, ◌>>=◌, ◌>>◌, ◌==◌, if◌then◌else◌,
}
use aca_bsim.Common.Int.{ℤ, pos, ◌-ℤ◌, ltb_ℤ, eqb_ℤ}
use aca_bsim.Platform.{Platform}
use aca_bsim.Platform.Sample.{rand_ratio}
use aca_bsim.Queue.Ops.{Queue, queue_size, queue_top, queue_pop, push}
use aca_bsim.Client.{Client, Heap, write, client_set_start_service_time, client_set_wait_time}
use aca_bsim.Server.Types.{
  BaseServer, StandardServer, RoboticServer, Server, standard, robotic, invalid, base, with_base,
}
use aca_bsim.Server.Table.{get_service_time}

-- `assert (b)`
abbrev pub assert : Bool → Result (Unit {0})
assert true = ok tt
assert false = fault assertion_failed

abbrev pub is_some : Option ℕ → Bool
is_some none = false
is_some (some c) = true

taken : Bool → Option ℕ → Queue ℕ → Result (ℕ × Queue ℕ)
taken false top q = fault exit_failure
taken true none q = fault assertion_failed
taken true (some next) q = ok (next, q)

-- `queue_top`, `queue_pop` and the two tests behind them, at the start of a service.
unfoldable pub take_next : Bool → Queue ℕ → Result (ℕ × Queue ℕ)
unfolding taken
take_next granted q = do top ← queue_top q; r ← queue_pop granted q; taken r.1 top r.0

-- "update client stat": the client's start and waiting time.
unfoldable pub start_service : Heap → ℕ → ℕ → Heap
start_service heap next current_time =
    let started = client_set_start_service_time (heap next) (pos current_time) in
    write heap next
      (client_set_wait_time started (pos current_time -ℤ started.service_stat.arrival_time))

module _ (p : Platform) where
  unfoldable pub server_tick : BaseServer p → Result (BaseServer p)
  server_tick b =
      if is_some b.current_client
      then (do
        assert (ltb_ℤ (pos 0) b.to_serve)
        ok (record b {
          stat = record b.stat { active_time = b.stat.active_time + 1 };
          to_serve = b.to_serve -ℤ pos 1;
        }))
      else ok (record b { stat = record b.stat { idle_time = b.stat.idle_time + 1 } })

  -- The branch for empty queues.
  abbrev pub no_client : BaseServer p → BaseServer p
  no_client b = record b { current_client = none; to_serve = pos 0 }

  abbrev pub serving : BaseServer p → ℕ → ℤ → BaseServer p
  serving b next time = record b { current_client = some next; to_serve = time }

  unfoldable pub standard_server_set_next_client :
      Bool → Heap → StandardServer p → ℕ → Result (Heap × StandardServer p)
  standard_server_set_next_client granted heap s current_time =
      if not (queue_size (some s.client_queue) == 0)
      then (do
        r ← take_next granted s.client_queue
        time ← get_service_time p (standard s) (heap r.0)
        ok (
          start_service heap r.0 current_time,
          record s { base = serving s.base r.0 time; client_queue = r.1 },
        ))
      else ok (heap, record s { base = no_client s.base })

  unfoldable pub robotic_server_set_next_client :
      Bool → Heap → RoboticServer p → ℕ → Result (Heap × RoboticServer p)
  robotic_server_set_next_client granted heap s current_time =
      if not (queue_size (some s.disable_client_queue) == 0)
      then (do
        r ← take_next granted s.disable_client_queue
        time ← get_service_time p (robotic s) (heap r.0)
        assert (ltb_ℤ (pos 0) time)
        ok (
          start_service heap r.0 current_time,
          record s { base = serving s.base r.0 time; disable_client_queue = r.1 },
        ))
      else if not (queue_size (some s.normal_client_queue) == 0)
      then (do
        r ← take_next granted s.normal_client_queue
        time ← get_service_time p (robotic s) (heap r.0)
        assert (ltb_ℤ (pos 0) time)
        ok (
          start_service heap r.0 current_time,
          record s { base = serving s.base r.0 time; normal_client_queue = r.1 },
        ))
      else ok (heap, record s { base = no_client s.base })

  unfoldable pub server_set_next_client : Bool → Heap → Server p → ℕ → Result (Heap × Server p)
  server_set_next_client granted heap (standard s) current_time = do
    r ← standard_server_set_next_client granted heap s current_time
    ok (r.0, standard r.1)
  server_set_next_client granted heap (robotic s) current_time = do
    r ← robotic_server_set_next_client granted heap s current_time
    ok (r.0, robotic r.1)
  server_set_next_client granted heap (invalid b) current_time = fault exit_failure

  unfoldable pub server_is_active : Server p → Bool
  server_is_active s = is_some (base s).current_client

  unfoldable pub server_is_service_finished : Server p → Bool
  server_is_service_finished s = is_some (base s).current_client && eqb_ℤ (base s).to_serve (pos 0)

  unfoldable pub server_is_service_successful : ℕ → Server p → Bool
  server_is_service_successful drawn s = p.lt (base s).error_prob (rand_ratio p drawn)

  -- The finished client and the server. The answer of `queue_push` is not read; the log at the end
  -- reads through the client.
  unfoldable pub server_finalize_current_client : Bool → Server p → Result (Server p × ℕ)
  server_finalize_current_client granted s = elim (base s).current_client [
    | none ↦ fault null_dereference
    | some previous ↦ push granted (base s).finished_clients_queue previous >>= λ r. ok (
      with_base s (record (base s) {
        stat = record ((base s).stat) { client_served = (base s).stat.client_served + 1 };
        finished_clients_queue = r.0;
        current_client = none;
      }),
      previous,
    )
  ]

  -- "failure_count += 1" of the client.
  abbrev pub count_failure : Client → Client
  count_failure client = record client {
    service_stat = record client.service_stat {
      failure_count = client.service_stat.failure_count + 1;
    };
  }

  -- `server_retry` at the current client.
  unfoldable pub retry_client : Heap → Server p → Option ℕ → Result (Heap × Server p)
  retry_client heap s none = fault null_dereference
  retry_client heap s (some client) = do
    time ← get_service_time p s (count_failure (heap client))
    ok (
      write heap client (count_failure (heap client)),
      with_base s (record (base s) {
        stat = record ((base s).stat) { failure_count = (base s).stat.failure_count + 1 };
        to_serve = time;
      }),
    )

  unfoldable pub server_retry : Heap → Server p → Result (Heap × Server p)
  server_retry heap s = retry_client heap s (base s).current_client
