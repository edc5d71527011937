-- ===== src/Server/Print.antt =====
-- What src/server.c prints: `log_server_stat` and `service_iter`.
use aca_bsim.Common.{ℕ, ◌+◌, List, [], ◌∷◌, ◌++◌, Option, none, some, Bool, true}
use aca_bsim.Common.Int.{pos}
use aca_bsim.Platform.{Platform, Service}
use aca_bsim.Output.{Piece, words, size, real_2, address, int, to_stderr, line}
use aca_bsim.Queue.Ops.{queue_size}
use aca_bsim.Server.Types.{BaseServer, ServerStat}

module _ (p : Platform) where
  -- The failures by the services that ended.
  unfoldable pub failure_ratio : ServerStat → p.Double
  failure_ratio stat =
      p.div (p.of_int (pos stat.failure_count))
        (p.of_int (pos (stat.client_served + stat.failure_count)))

  -- `place` is the address of the field `current_client` of the local copy `base`.
  unfoldable pub log_server_stat : ℕ → Option (BaseServer p) → List (Piece p)
  unfolding failure_ratio
  log_server_stat place none = to_stderr "Error: Server is NULL.\n" ∷ []
  log_server_stat place (some base) =
      (words "==== Server ID: " ∷ int (pos base.id) ∷ words " ====\n" ∷ [])
      ++ line "Active Time: " (pos base.stat.active_time)
      ++ line "Idle Time: " (pos base.stat.idle_time)
      ++ line "Clients Served: " (pos base.stat.client_served)
      ++ line "Failure Count: " (pos base.stat.failure_count)
      ++ line "Mean Queue Length: " base.stat.mean_server_queue_len
      ++ (words "Finished Queue Length: "
          ∷ size (queue_size (some base.finished_clients_queue))
          ∷ words "\n"
          ∷ [])
      ++ (words "CURRENT CLINET: " ∷ address place ∷ words "\n" ∷ [])
      ++ line "CURRENT TIME TO SERVE: " base.to_serve
      ++ (words "Error Probability: " ∷ real_2 (failure_ratio base.stat) ∷ words "\n" ∷ [])
      ++ words "========================\n" ∷ []

  unfoldable pub service_iter : Service → List (Piece p) × Bool
  service_iter service = (
    words "SERVICE FOR DISABILITY TYPE : "
        ∷ int (pos service.disability_type)
        ∷ words " WITH DEST : "
        ∷ int (pos service.dest)
        ∷ [],
    true,
  )
