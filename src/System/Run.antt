-- ===== src/System/Run.antt =====
-- Ticks of the whole system of src/system.c.
use aca_bsim.Server.Held.{most}
use aca_bsim.Common.{
  ℕ, zero, suc, ◌+◌, ◌<◌, ◌≡◌, refl, ap, arith, length, length-append, SameItems-refl, eq-SameItems,
  Bool, true, Remains-Among, SameItems-Remains, Remains-append, Remains-trans, ◌≤◌,
}
use aca_bsim.Platform.{Platform}
use aca_bsim.Client.{Heap}
use aca_bsim.Client.Known.{
  AllListed, AllListed-Among, AllListed-trans, SameKind-trans, Keeps-SameKind,
}
use aca_bsim.System.Types.{System, Tick}
use aca_bsim.System.Tick.{servers_update_serve_time, servers_run, system_tick}
use aca_bsim.System.Simulate.{run_ticks}
use aca_bsim.System.Served.{
  held_all, AllListed-left, AllListed-right, update_clients-KeptAll, tick_servers_lem,
}
use aca_bsim.System.Arrive.{at_servers}
use aca_bsim.System.Admit.{
  system_list, everyone, SystemInv, Granted, Passed, SameKind-refl, admit-Passed,
}

module _ {p : Platform} (strict : Bool) where
  -- The servers' part of a tick.
  pub servers_run-Passed :
      (k : Tick) (heap : Heap) (y : System p) (now t : ℕ)
      → SystemInv strict t y
      → (strict ≡ true → Granted k)
      → AllListed heap (everyone y)
      → length (everyone y) ≤ most
      → t < most
      → Passed strict (t + 1) heap y (servers_run k heap y now)
  unfolding servers_run servers_update_serve_time
  servers_run-Passed k heap y now t inv granted listed h early =
      let ss = y.standard_servers in
      let rs = y.robotic_servers in
      let few = length-append (system_list y.system_clients) (at_servers y) in
      let both = length-append (held_all ss) (held_all rs) in
      let (ss1, ticked_s, inv_s, same_s, size_s) = tick_servers_lem ss t inv.standard_inv in
      let (rs1, ticked_r, inv_r, same_r, size_r) = tick_servers_lem rs t inv.robotic_inv in
      let at = AllListed-right (system_list y.system_clients) (at_servers y) listed in
      let g =
        update_clients-KeptAll strict k.standard_luck 0 heap ss1 now (t + 1)
          (λ i e. (granted e).standard i) inv_s
          (rw same_s (AllListed-left (held_all ss) (held_all rs) at))
          (omega (arith, ap length same_s)) (omega arith) in
      let w =
        update_clients-KeptAll strict k.robotic_luck 0 g.heap' rs1 now (t + 1)
          (λ i e. (granted e).robotic i) inv_r
          (rw same_r (
            AllListed-trans (SameItems-refl _) g.keeps
              (AllListed-right (held_all ss) (held_all rs) at)))
          (omega (arith, ap length same_r)) (omega arith) in
      record {
        heap' = w.heap';
        system' = record y { standard_servers = g.servers'; robotic_servers = w.servers' };
        runs = rw (ticked_s, ticked_r, g.runs, w.runs) refl;
        inv = record {
          queue = inv.queue;
          clients = inv.clients;
          valid = inv.valid;
          standard_inv = g.inv;
          robotic_inv = w.inv;
          servers = omega (arith, inv.servers, g.size, w.size, size_s, size_r);
        };
        remains =
            Remains-append
              (SameItems-Remains strict (SameItems-refl (system_list y.system_clients)))
              (Remains-append
                (Remains-trans g.remains (SameItems-Remains strict (eq-SameItems same_s)))
                (Remains-trans w.remains (SameItems-Remains strict (eq-SameItems same_r))));
        kind = SameKind-trans (Keeps-SameKind g.keeps) (Keeps-SameKind w.keeps);
      }

  -- On a well-formed system after t ticks, fewer than 46340, with all clients of known kinds and
  -- at most 46340 of them, `system_tick` passes without a fault and leaves a system well formed
  -- after t + 1 ticks, and keeps what each client is. If `strict`, where the pushes of the tick
  -- must be granted, the system holds the same clients, each as often; otherwise, whatever the
  -- allocator answers, no others and none more often, and a server may then have counted more
  -- clients as served than its finished queue holds.
  pub system_tick-Passed :
      (k : Tick) (heap : Heap) (y : System p) (now t : ℕ)
      → SystemInv strict t y
      → (strict ≡ true → Granted k)
      → AllListed heap (everyone y)
      → length (everyone y) ≤ most
      → t < most
      → Passed strict (t + 1) heap y (system_tick k heap y now)
  unfolding system_tick
  system_tick-Passed k heap y now t inv granted listed h early =
      let a = admit-Passed strict k heap y now t inv granted (omega arith) in
      let b =
        servers_run-Passed k a.heap' a.system' now t a.inv granted
          (AllListed-Among (Remains-Among a.remains) a.kind listed)
          (omega (arith, (Remains-Among a.remains).lengths)) early in
      record {
        heap' = b.heap';
        system' = b.system';
        runs = rw a.runs b.runs;
        inv = b.inv;
        remains = Remains-trans b.remains a.remains;
        kind = SameKind-trans a.kind b.kind;
      }

  -- Any number of ticks.
  pub run_ticks-Passed :
      (ticks : ℕ → Tick) (n now t end : ℕ) (heap : Heap) (y : System p)
      → end ≡ t + n
      → SystemInv strict t y
      → ((i : ℕ) → strict ≡ true → Granted (ticks i))
      → AllListed heap (everyone y)
      → length (everyone y) ≤ most
      → end ≤ most
      → Passed strict end heap y (run_ticks ticks n now heap y)
  unfolding run_ticks
  run_ticks-Passed ticks zero now t end heap y e inv granted listed h early = record {
    heap' = heap;
    system' = y;
    runs = refl;
    inv = let same : end ≡ t = omega arith in rw same inv;
    remains = SameItems-Remains strict (SameItems-refl (everyone y));
    kind = SameKind-refl heap;
  }
  run_ticks-Passed ticks (suc n) now t end heap y e inv granted listed h early =
      let a =
        system_tick-Passed (ticks now) heap y now t inv (granted now) listed h (omega arith) in
      let b =
        run_ticks-Passed ticks n (now + 1) (t + 1) end a.heap' a.system' (omega arith) a.inv granted
          (AllListed-Among (Remains-Among a.remains) a.kind listed)
          (omega (arith, (Remains-Among a.remains).lengths)) early in
      record {
        heap' = b.heap';
        system' = b.system';
        runs = rw a.runs b.runs;
        inv = b.inv;
        remains = Remains-trans b.remains a.remains;
        kind = SameKind-trans a.kind b.kind;
      }
