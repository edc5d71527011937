-- ===== src/System/Tick.antt =====
-- One tick of the system: `servers_update_serve_time`, `update_clients`, `servers_run` and
-- `system_tick` of src/system.c.
use aca_bsim.Common.{
  ℕ, ◌+◌, List, [], ◌∷◌, Option, none, some, Result, ok, fault, null_dereference, ◌>>=◌,
  if◌then◌else◌,
}
use aca_bsim.Common.Int.{pos}
use aca_bsim.Platform.{Platform}
use aca_bsim.Queue.Ops.{Queue}
use aca_bsim.Client.{Heap, write, client_finalize}
use aca_bsim.Server.Types.{Server, base, with_base}
use aca_bsim.Server.Serve.{
  server_tick, server_is_active, server_is_service_finished, server_is_service_successful,
  server_finalize_current_client, server_retry, server_set_next_client,
}
use aca_bsim.Server.Accounts.{server_update_stat}
use aca_bsim.System.Types.{System, Tick, Luck}
use aca_bsim.System.Assign.{get_client, assign_client}

module _ {p : Platform} where
  -- A loop of `servers_update_serve_time`.
  unfoldable pub tick_servers : List (Server p) → Result (List (Server p))
  tick_servers [] = ok []
  tick_servers (s ∷ servers) = do
    b ← server_tick p (base s)
    servers' ← tick_servers servers
    ok (with_base s b ∷ servers')

  -- The branch of `update_clients` for a successful service.
  unfoldable pub finish_service : Luck → Heap → Server p → ℕ → Result (Heap × Server p)
  finish_service luck heap s current_time = do
    r ← server_finalize_current_client p luck.granted_push s
    server_set_next_client p luck.granted_pop
        (write heap r.1 (client_finalize (heap r.1) (pos current_time))) r.0 current_time

  -- The body of the loop of `update_clients` before the statistics.
  unfoldable pub serve_client : Luck → Heap → Server p → ℕ → Result (Heap × Server p)
  serve_client luck heap s current_time =
      if server_is_active p s
      then (if server_is_service_finished p s
          then (if server_is_service_successful p luck.drawn s
              then finish_service luck heap s current_time
              else server_retry p heap s)
          else ok (heap, s))
      else server_set_next_client p luck.granted_pop heap s current_time

  unfoldable pub update_server : Luck → Heap → Server p → ℕ → Result (Heap × Server p)
  update_server luck heap s current_time = do
    r ← serve_client luck heap s current_time
    s' ← server_update_stat r.1 current_time
    ok (r.0, s')

  -- `update_clients` from index `i` on.
  unfoldable pub update_clients :
      (ℕ → Luck) → ℕ → Heap → List (Server p) → ℕ → Result (Heap × List (Server p))
  update_clients luck i heap [] current_time = ok (heap, [])
  update_clients luck i heap (s ∷ servers) current_time = do
    r ← update_server (luck i) heap s current_time
    rest ← update_clients luck (i + 1) r.0 servers current_time
    ok (rest.0, r.1 ∷ rest.1)

  unfoldable pub servers_update_serve_time : System p → Result (System p)
  servers_update_serve_time y = do
    standard ← tick_servers y.standard_servers
    robotic ← tick_servers y.robotic_servers
    ok (record y { standard_servers = standard; robotic_servers = robotic })

  unfoldable pub servers_run : Tick → Heap → System p → ℕ → Result (Heap × System p)
  servers_run k heap y current_time = do
    y' ← servers_update_serve_time y
    s ← update_clients k.standard_luck 0 heap y'.standard_servers current_time
    r ← update_clients k.robotic_luck 0 s.0 y'.robotic_servers current_time
    ok (r.0, record y' { standard_servers = s.1; robotic_servers = r.1 })

  -- The new client, if there is one, goes to a server.
  unfoldable pub place : Tick → Heap → System p → Option ℕ → Result (Heap × System p)
  place k heap y none = ok (heap, y)
  place k heap y (some client) = do y' ← assign_client k.granted_assign heap y client; ok (heap, y')

  -- The start of `system_tick`, with the queue of the system's clients.
  unfoldable pub admit : Tick → Heap → System p → Option (Queue ℕ) → ℕ → Result (Heap × System p)
  admit k heap y none current_time = fault null_dereference
  admit k heap y (some q) current_time = do
    r ← get_client k.granted_get heap q current_time
    place k r.0 (record y { system_clients = some r.1 }) r.2

  unfoldable pub system_tick : Tick → Heap → System p → ℕ → Result (Heap × System p)
  system_tick k heap y current_time = do
    r ← admit k heap y y.system_clients current_time
    servers_run k r.0 r.1 current_time
