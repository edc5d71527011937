-- ===== src/System/Total.antt =====
-- A whole run of `simulate` of src/system.c.
use aca_bsim.Server.Held.{most}
use aca_bsim.Common.{
  ℕ, ◌+◌, ◌≡◌, refl, sym, ap, ap₂, ◌∙◌, subst, List, [], ◌∷◌, ◌++◌, some, Bool, Result, ok, arith,
  length, length-append, true, false, Remains, ◌≤◌,
}
use aca_bsim.Common.Int.{pos, int_of_size, int_of_size_small}
use aca_bsim.Platform.{Platform}
use aca_bsim.Client.{Heap}
use aca_bsim.Queue.Ops.{queue_size}
use aca_bsim.Queue.Refine.{queue_size-IsValid}
use aca_bsim.Server.Types.{Server}
use aca_bsim.Client.Known.{AllListed}
use aca_bsim.Stat.{SimStat}
use aca_bsim.System.Types.{System, Tick}
use aca_bsim.System.Totals.{no_totals, means, compute_stats}
use aca_bsim.System.Simulate.{run_system, checked, simulate}
use aca_bsim.System.Served.{AllInv, held_all}
use aca_bsim.System.Run.{run_ticks-Passed}
use aca_bsim.System.Admit.{system_list, everyone, SystemInv, Granted}
use aca_bsim.System.Counts.{count_servers_total}

-- A run of `n` ticks that came to its end.
pub record Finished {p : Platform} (strict : Bool) (n : ℕ) (y : System p)
    (r : Result (Heap × System p × SimStat)) : Type 0 where
  pub heap' : Heap
  pub system' : System p
  pub stat' : SimStat
  pub runs : r ≡ ok (heap', system', stat')
  pub inv : SystemInv strict n system'
  pub remains : Remains strict (everyone system') (everyone y)
  pub clients : stat'.total_clients ≡ pos (length (system_list y.system_clients))

module _ {p : Platform} where
  pub AllInv-append :
      (strict : Bool) (low t : ℕ) (ss rs : List (Server p))
      → AllInv strict low t ss
      → AllInv strict low t rs
      → AllInv strict low t (ss ++ rs)
  AllInv-append strict low t [] rs a b = b
  AllInv-append strict low t (s ∷ ss) rs a b = (a.0, AllInv-append strict low t ss rs a.1 b)

  pub compute_stats_total :
      (strict : Bool) (heap : Heap) (granted : ℕ → Bool) (y : System p) (stat : SimStat) (t : ℕ)
      → SystemInv strict t y
      → (stat' : SimStat) × (compute_stats heap granted y stat ≡ ok stat')
        × (stat'.total_clients ≡ stat.total_clients)
  unfolding compute_stats means
  compute_stats_total strict heap granted y stat t inv =
      let (k, counted) =
        count_servers_total heap strict 1 t granted 0 (y.standard_servers ++ y.robotic_servers)
          no_totals
          (AllInv-append strict 1 t y.standard_servers y.robotic_servers inv.standard_inv
            inv.robotic_inv) in
      (means k (length y.standard_servers + length y.robotic_servers) stat, rw counted refl, refl)

  pub queue_size-system_list :
      (strict : Bool) (t : ℕ) (y : System p)
      → SystemInv strict t y
      → queue_size y.system_clients ≡ length (system_list y.system_clients)
  queue_size-system_list strict t y inv =
      ap queue_size inv.clients
      ∙ queue_size-IsValid inv.queue inv.valid
      ∙ ap (λ o. length (system_list o)) (sym inv.clients)

  run_system-Finished :
      (strict : Bool) (ticks : ℕ → Tick) (granted : ℕ → Bool) (heap : Heap) (y : System p) (n : ℕ)
      (stat : SimStat)
      → SystemInv strict 0 y
      → ((i : ℕ) → strict ≡ true → Granted (ticks i))
      → AllListed heap (everyone y)
      → length (everyone y) ≤ most
      → n ≤ most
      → Finished strict n y (run_system ticks granted heap y (pos n) stat)
  unfolding run_system
  run_system-Finished strict ticks granted heap y n stat inv grants listed h early =
      let r =
        run_ticks-Passed strict ticks n 0 0 n heap y (omega arith) inv grants listed h early in
      let few =
        length-append (system_list y.system_clients)
          (held_all y.standard_servers ++ held_all y.robotic_servers) in
      let counted = record stat { total_clients = int_of_size (queue_size y.system_clients) } in
      let (stat', computed, clients) =
        compute_stats_total strict r.heap' granted r.system' counted n r.inv in
      record {
        heap' = r.heap';
        system' = r.system';
        stat' = stat';
        runs = rw (r.runs, computed) refl;
        inv = r.inv;
        remains = r.remains;
        clients =
            clients
            ∙ ap int_of_size (queue_size-system_list strict 0 y inv)
            ∙ int_of_size_small (length (system_list y.system_clients)) (omega arith);
      }

  pub simulate_lem :
      (strict : Bool) (ticks : ℕ → Tick) (granted : ℕ → Bool) (heap : Heap) (y : System p) (n : ℕ)
      (stat : SimStat) (s : Server p) (servers : List (Server p))
      → y.standard_servers ≡ s ∷ servers
      → SystemInv strict 0 y
      → ((i : ℕ) → strict ≡ true → Granted (ticks i))
      → AllListed heap (everyone y)
      → length (everyone y) ≤ most
      → n ≤ most
      → Finished strict n y (simulate ticks granted heap (some y) (pos n) (some stat))
  unfolding simulate checked
  simulate_lem strict ticks granted heap y n stat s servers first inv grants listed h early =
      subst (Finished strict n y) (sym guards)
        (run_system-Finished strict ticks granted heap y n stat inv grants listed h early)
    where
      guards :
          simulate ticks granted heap (some y) (pos n) (some stat)
          ≡ run_system ticks granted heap y (pos n) stat
      guards =
          ap₂ (λ ss o. checked ss o (some stat) (run_system ticks granted heap y (pos n))) first
            inv.clients

  -- From a system with a standard server, well-formed queues and servers, each busy one with a
  -- tick or more to go, whose service times are positive, before the first tick, and with every
  -- push granted, all clients of known kinds and at most 46340 of them, a call of `simulate` for
  -- n ticks, at most 46340, returns without a fault. Then each server has counted n ticks as
  -- active or idle and as many clients served as its finished queue holds, the clients of the
  -- system are the same as before, each as often, and `total_clients` is the number of clients
  -- who were still to come at the start.
  pub simulate-Finished :
      (ticks : ℕ → Tick) (granted : ℕ → Bool) (heap : Heap) (y : System p) (n : ℕ) (stat : SimStat)
      (s : Server p) (servers : List (Server p))
      → y.standard_servers ≡ s ∷ servers
      → SystemInv true 0 y
      → ((i : ℕ) → Granted (ticks i))
      → AllListed heap (everyone y)
      → length (everyone y) ≤ most
      → n ≤ most
      → Finished true n y (simulate ticks granted heap (some y) (pos n) (some stat))
  simulate-Finished ticks granted heap y n stat s servers first inv grants listed h early =
      simulate_lem true ticks granted heap y n stat s servers first inv (λ i e. grants i) listed h
        early

  -- From a system with a standard server, well-formed queues and servers, each busy one with a
  -- tick or more to go, whose service times are positive, before the first tick, and with all
  -- clients of known kinds and at most 46340 of them, a call of `simulate` for n ticks, at most
  -- 46340, returns without a fault whatever the allocator answers in it. Then each server has
  -- counted n ticks as active or idle and at least as many clients served as its finished queue
  -- holds, the system holds none but the clients from before, none more often, and
  -- `total_clients` is the number of clients who were still to come at the start.
  pub simulate-Survives :
      (ticks : ℕ → Tick) (granted : ℕ → Bool) (heap : Heap) (y : System p) (n : ℕ) (stat : SimStat)
      (s : Server p) (servers : List (Server p))
      → y.standard_servers ≡ s ∷ servers
      → SystemInv false 0 y
      → AllListed heap (everyone y)
      → length (everyone y) ≤ most
      → n ≤ most
      → Finished false n y (simulate ticks granted heap (some y) (pos n) (some stat))
  simulate-Survives ticks granted heap y n stat s servers first inv listed h early =
      simulate_lem false ticks granted heap y n stat s servers first inv (λ i e. absurd (cc)) listed
        h early
