-- ===== src/Server/Accounts.antt =====
-- The running mean of a server's queue lengths, and the release of its memory.
use aca_bsim.Common.{
  ℕ, ◌+◌, ◌%◌, ◌^◌, List, [], ◌∷◌, ◌++◌, none, some, true, Result, ok, fault, exit_failure,
  assertion_failed, ◌>>=◌, if◌then◌else◌,
}
use aca_bsim.Common.Int.{pos, ltb_ℤ, ◌/ℤ◌, add_size}
use aca_bsim.Platform.{Platform}
use aca_bsim.Queue.Ops.{queue_size, queue_free}
use aca_bsim.Server.Types.{
  BaseServer, StandardServer, RoboticServer, Server, standard, robotic, invalid,
}

module _ {p : Platform} where
  -- The sum of the lengths so far, which wraps, and its quotient by the number of ticks 0 to
  -- `current_time`.
  abbrev pub add_queue_len : BaseServer p → ℕ → ℕ → BaseServer p
  add_queue_len b total current_time = record b {
    stat = record b.stat {
      sum_queue_lens = add_size b.stat.sum_queue_lens total;
      mean_server_queue_len = add_size b.stat.sum_queue_lens total /ℤ (current_time + 1);
    };
  }

  unfoldable pub standard_server_update_stat : StandardServer p → ℕ → Result (StandardServer p)
  standard_server_update_stat s current_time =
      let b = add_queue_len s.base (queue_size (some s.client_queue)) current_time in
      if ltb_ℤ b.stat.mean_server_queue_len (pos 0)
      then fault assertion_failed
      else ok (record s { base = b })

  -- There is no assertion here.
  unfoldable pub robotic_server_update_stat : RoboticServer p → ℕ → RoboticServer p
  robotic_server_update_stat s current_time = record s {
    base =
        add_queue_len s.base
          ((queue_size (some s.normal_client_queue) + queue_size (some s.disable_client_queue))
            % 2 ^ 64)
          current_time;
  }

  unfoldable pub server_update_stat : Server p → ℕ → Result (Server p)
  server_update_stat (standard s) current_time = do
    s' ← standard_server_update_stat s current_time
    ok (standard s')
  server_update_stat (robotic s) current_time =
      ok (robotic (robotic_server_update_stat s current_time))
  server_update_stat (invalid b) current_time = fault exit_failure

  -- The clients that `server_base_free` frees.
  unfoldable pub server_base_free : BaseServer p → Result (List ℕ)
  server_base_free b = do
    finished ← queue_free (some b.finished_clients_queue) true
    ok (elim b.current_client [ none ↦ finished | some current ↦ finished ++ current ∷ [] ])

  -- The clients that `server_free` frees, in order.
  unfoldable pub server_free : Server p → Result (List ℕ)
  server_free (standard s) = do
    owned ← server_base_free s.base
    waiting ← queue_free (some s.client_queue) true
    ok (owned ++ waiting)
  server_free (robotic s) = do
    owned ← server_base_free s.base
    normal ← queue_free (some s.normal_client_queue) true
    disabled ← queue_free (some s.disable_client_queue) true
    ok (owned ++ (normal ++ disabled))
  server_free (invalid b) = do owned ← server_base_free b; fault exit_failure
