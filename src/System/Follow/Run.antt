-- ===== src/System/Follow/Run.antt =====
-- Ticks of the whole system of src/system.c, on the views of the servers.
use aca_bsim.Server.Held.{most}
use aca_bsim.Common.{
  ℕ, zero, suc, ◌+◌, ◌^◌, ◌<◌, ◌≡◌, sym, ap, subst, Option, none, some, true, arith, length,
  length-append, SameItems-refl, Yields, bind-Yields, bind-Yields_from, Yields-ok, Remains-Among,
  ◌>>=◌, ◌≤◌,
}
use aca_bsim.Platform.{Platform}
use aca_bsim.Client.{Heap}
use aca_bsim.Client.Known.{
  AllListed, AllListed-Among, AllListed-trans, SameKind, SameKind-trans, Keeps-SameKind,
}
use aca_bsim.Queue.Ops.{Queue}
use aca_bsim.System.Types.{System, Tick}
use aca_bsim.System.Assign.{get_client, assign_client}
use aca_bsim.System.Tick.{place, admit, servers_update_serve_time, servers_run, system_tick}
use aca_bsim.System.Simulate.{run_ticks}
use aca_bsim.System.Served.{
  held_all, AllInv, AllListed-left, AllListed-right, update_clients-KeptAll, tick_servers_lem,
}
use aca_bsim.System.Arrive.{at_servers}
use aca_bsim.System.Admit.{system_list, everyone, SystemInv, Granted, admit-Passed}
use aca_bsim.System.Run.{system_tick-Passed}
use aca_bsim.System.Follow.Joined.{SystemReached, assign_client-Reached}
use aca_bsim.System.Follow.Rounds.{tick_servers-AllReady, update_clients-AllReached}

module _ {p : Platform} where
  admit-Reached :
      (heap0 : Heap) (n t : ℕ) (y0 : System p) (k : Tick) (heap : Heap) (y : System p)
      (o : Option (Queue ℕ)) (now : ℕ)
      → k.granted_assign ≡ true
      → AllInv true 1 t y.standard_servers
      → AllInv true 1 t y.robotic_servers
      → length (at_servers y) < 2 ^ 31
      → SystemReached heap0 n y0 y
      → Yields (λ r. SystemReached heap0 n y0 r.1) (admit k heap y o now)
  unfolding admit place
  admit-Reached heap0 n t y0 k heap y none now granted inv_s inv_r h reached = tt
  admit-Reached heap0 n t y0 k heap y (some q) now granted inv_s inv_r h reached =
      bind-Yields _ (get_client k.granted_get heap q now) _ λ r.
        placed r.0 (record y { system_clients = some r.1 }) r.2 inv_s inv_r h
          (record {
            standard_reached = reached.standard_reached;
            robotic_reached = reached.robotic_reached;
          })
    where
      placed :
          (heap : Heap) (y : System p) (client : Option ℕ)
          → AllInv true 1 t y.standard_servers
          → AllInv true 1 t y.robotic_servers
          → length (at_servers y) < 2 ^ 31
          → SystemReached heap0 n y0 y
          → Yields (λ r. SystemReached heap0 n y0 r.1) (place k heap y client)
      placed heap y none inv_s inv_r h reached = reached
      placed heap y (some c) inv_s inv_r h reached =
          let both = length-append (held_all y.standard_servers) (held_all y.robotic_servers) in
          bind-Yields_from _ _ (assign_client k.granted_assign heap y c) _
            (subst (λ g. Yields (SystemReached heap0 n y0) (assign_client g heap y c)) (sym granted)
              (assign_client-Reached heap0 heap n t y0 y inv_s inv_r (omega arith) (omega arith)
                reached c))
            λ y' reached'. reached'

  servers_run-Reached :
      (heap0 : Heap) (n t : ℕ) (y0 : System p) (k : Tick) (heap : Heap) (y : System p) (now : ℕ)
      → SystemInv true t y
      → Granted k
      → AllListed heap (everyone y)
      → length (everyone y) ≤ most
      → t < most
      → SameKind heap0 heap
      → SystemReached heap0 n y0 y
      → Yields (λ r. SystemReached heap0 (suc n) y0 r.1) (servers_run k heap y now)
  unfolding servers_run servers_update_serve_time
  servers_run-Reached heap0 n t y0 k heap y now inv granted listed h early known reached =
      let ss = y.standard_servers in
      let rs = y.robotic_servers in
      let few = length-append (system_list y.system_clients) (at_servers y) in
      let both = length-append (held_all ss) (held_all rs) in
      let (ss1, ticked_s, inv_s, same_s, size_s) = tick_servers_lem ss t inv.standard_inv in
      let (rs1, ticked_r, inv_r, same_r, size_r) = tick_servers_lem rs t inv.robotic_inv in
      let ready_s = Yields-ok _ ticked_s (
        tick_servers-AllReady heap0 n t y0.standard_servers ss inv.standard_inv
          reached.standard_reached) in
      let ready_r = Yields-ok _ ticked_r (
        tick_servers-AllReady heap0 n t y0.robotic_servers rs inv.robotic_inv
          reached.robotic_reached) in
      let at = AllListed-right (system_list y.system_clients) (at_servers y) listed in
      let listed_s : AllListed heap (held_all ss1) =
        rw same_s (AllListed-left (held_all ss) (held_all rs) at) in
      let few_s : length (held_all ss1) ≤ most = omega (arith, ap length same_s) in
      let g =
        update_clients-KeptAll true k.standard_luck 0 heap ss1 now (t + 1)
          (λ i e. granted.standard i) inv_s listed_s few_s (omega arith) in
      let listed_r : AllListed g.heap' (held_all rs1) = rw same_r (
        AllListed-trans (SameItems-refl _) g.keeps
          (AllListed-right (held_all ss) (held_all rs) at)) in
      let few_r : length (held_all rs1) ≤ most = omega (arith, ap length same_r) in
      let w =
        update_clients-KeptAll true k.robotic_luck 0 g.heap' rs1 now (t + 1)
          (λ i e. granted.robotic i) inv_r listed_r few_r (omega arith) in
      rw (ticked_s, ticked_r, g.runs, w.runs)
        (record {
          standard_reached = Yields-ok _ g.runs (
              update_clients-AllReached heap0 n (t + 1) y0.standard_servers k.standard_luck 0 heap
                ss1 now granted.standard inv_s listed_s few_s (omega arith) known ready_s);
          robotic_reached = Yields-ok _ w.runs (
              update_clients-AllReached heap0 n (t + 1) y0.robotic_servers k.robotic_luck 0 g.heap'
                rs1 now granted.robotic inv_r listed_r few_r (omega arith)
                (SameKind-trans known (Keeps-SameKind g.keeps)) ready_r);
        })

  system_tick-Reached :
      (heap0 : Heap) (n t : ℕ) (y0 : System p) (k : Tick) (heap : Heap) (y : System p) (now : ℕ)
      → SystemInv true t y
      → Granted k
      → AllListed heap (everyone y)
      → length (everyone y) ≤ most
      → t < most
      → SameKind heap0 heap
      → SystemReached heap0 n y0 y
      → Yields (λ r. SystemReached heap0 (suc n) y0 r.1) (system_tick k heap y now)
  unfolding system_tick
  system_tick-Reached heap0 n t y0 k heap y now inv granted listed h early known reached =
      let few = length-append (system_list y.system_clients) (at_servers y) in
      let a = admit-Passed true k heap y now t inv (λ e. granted) (omega arith) in
      let joined = Yields-ok _ a.runs (
        admit-Reached heap0 n t y0 k heap y y.system_clients now granted.assign inv.standard_inv
          inv.robotic_inv (omega arith) reached) in
      subst (Yields (λ r. SystemReached heap0 (suc n) y0 r.1))
        (sym (ap (λ r. r >>= λ z. servers_run k z.0 z.1 now) a.runs))
        (servers_run-Reached heap0 n t y0 k a.heap' a.system' now a.inv granted
          (AllListed-Among (Remains-Among a.remains) a.kind listed)
          (omega (arith, (Remains-Among a.remains).lengths)) early (SameKind-trans known a.kind)
          joined)

  pub run_ticks-Reached :
      (heap0 : Heap) (y0 : System p) (ticks : ℕ → Tick) (n m end now t : ℕ) (heap : Heap)
      (y : System p)
      → end ≡ m + n
      → SystemInv true t y
      → ((i : ℕ) → Granted (ticks i))
      → AllListed heap (everyone y)
      → length (everyone y) ≤ most
      → t + n ≤ most
      → SameKind heap0 heap
      → SystemReached heap0 m y0 y
      → Yields (λ r. SystemReached heap0 end y0 r.1) (run_ticks ticks n now heap y)
  unfolding run_ticks
  run_ticks-Reached heap0 y0 ticks zero m end now t heap y e inv granted listed h early known
        reached =
      let same : m ≡ end = omega arith in subst (λ z. SystemReached heap0 z y0 y) same reached
  run_ticks-Reached heap0 y0 ticks (suc n) m end now t heap y e inv granted listed h early known
        reached =
      let a =
        system_tick-Passed true (ticks now) heap y now t inv (λ e. granted now) listed h
          (omega arith) in
      let reached' = Yields-ok _ a.runs (
        system_tick-Reached heap0 m t y0 (ticks now) heap y now inv (granted now) listed h
          (omega arith) known reached) in
      subst (Yields (λ r. SystemReached heap0 end y0 r.1))
        (sym (ap (λ r. r >>= λ z. run_ticks ticks n (now + 1) z.0 z.1) a.runs))
        (run_ticks-Reached heap0 y0 ticks n (suc m) end (now + 1) (t + 1) a.heap' a.system'
          (omega arith) a.inv granted (AllListed-Among (Remains-Among a.remains) a.kind listed)
          (omega (arith, (Remains-Among a.remains).lengths)) (omega arith)
          (SameKind-trans known a.kind) reached')
