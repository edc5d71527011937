-- ===== src/System/Bounded.antt =====
-- Bounds on the counters of src/server.c over a run of `simulate` of src/system.c.
use native.Mathlib.Nat.{mul-le-mul}
use aca_bsim.Common.{
  ℕ, zero, suc, ◌+◌, ◌*◌, ◌^◌, ◌≤◌, ◌<◌, ◌≡◌, sym, ap, subst, List, [], ◌∷◌, Option, none, some,
  Bool, Result, ◌>>=◌, arith, length, length-append, Yields, bind-Yields, bind-Yields_from,
  Yields-ok, true, Remains-Among,
}
use aca_bsim.Common.Int.{pos}
use aca_bsim.Platform.{Platform}
use aca_bsim.Client.{Heap}
use aca_bsim.Queue.Ops.{Queue}
use aca_bsim.Stat.{SimStat}
use aca_bsim.Server.Types.{Server, ServerStat, base}
use aca_bsim.Client.Known.{AllListed, AllListed-Among}
use aca_bsim.Server.Held.{held, ServerInv, most}
use aca_bsim.Server.Enter.{held-parts}
use aca_bsim.System.Types.{System, Tick}
use aca_bsim.System.Assign.{get_client, assign_client}
use aca_bsim.System.Tick.{place, admit, system_tick}
use aca_bsim.System.Totals.{compute_stats}
use aca_bsim.System.Simulate.{run_ticks, run_system, checked, simulate}
use aca_bsim.System.Served.{held_all, AllInv}
use aca_bsim.System.Arrive.{at_servers}
use aca_bsim.System.Admit.{everyone, system_list, SystemInv, Granted}
use aca_bsim.System.Run.{system_tick-Passed}
use aca_bsim.System.Total.{Finished, simulate-Finished}
use aca_bsim.System.Rounds.{IsCounted}
use aca_bsim.System.Counted.{
  AllCounted, SystemCounted, servers_run-SystemCounted, assign_client-SystemCounted,
}

-- The statistics of a server after `n` ticks with `m` clients in the system.
pub record IsBounded (n m : ℕ) (stat : ServerStat) : Type 0 where
  pub active : stat.active_time ≤ n
  pub idle : stat.idle_time ≤ n
  pub served : stat.client_served ≤ m
  pub failures : stat.failure_count ≤ n
  pub sum : (k : ℕ) × (stat.sum_queue_lens ≡ pos k) × (k ≤ n * m)
  pub mean : (k : ℕ) × (stat.mean_server_queue_len ≡ pos k) × (k ≤ m)

abbrev pub AllBounded : {p : Platform} → ℕ → ℕ → List (Server p) → Type 0
AllBounded n m [] = Unit
AllBounded n m (s ∷ servers) = IsBounded n m (base s).stat × AllBounded n m servers

few_lens : (n m : ℕ) → n ≤ most → m ≤ most → n * m < 2 ^ 31
few_lens n m ticks clients = omega (arith, mul-le-mul ticks clients)

module _ {p : Platform} where
  place-SystemCounted :
      (t m : ℕ) (k : Tick) (heap : Heap) (y : System p) (client : Option ℕ)
      → SystemCounted t m y
      → Yields (λ r. SystemCounted t m r.1) (place k heap y client)
  unfolding place
  place-SystemCounted t m k heap y none c = c
  place-SystemCounted t m k heap y (some client) c =
      bind-Yields_from _ _ (assign_client k.granted_assign heap y client) _
        (assign_client-SystemCounted t m k.granted_assign heap y client c) λ y' counted. counted

  admit-SystemCounted :
      (t m : ℕ) (k : Tick) (heap : Heap) (y : System p) (q : Option (Queue ℕ)) (now : ℕ)
      → SystemCounted t m y
      → Yields (λ r. SystemCounted t m r.1) (admit k heap y q now)
  unfolding admit
  admit-SystemCounted t m k heap y none now c = tt
  admit-SystemCounted t m k heap y (some q) now c =
      bind-Yields _ (get_client k.granted_get heap q now) _ λ r.
        place-SystemCounted t m k r.0 (record y { system_clients = some r.1 }) r.2
          (record { standard_counted = c.standard_counted; robotic_counted = c.robotic_counted })

  system_tick-SystemCounted :
      (n m t : ℕ) (k : Tick) (heap : Heap) (y : System p)
      → (n + 1) * m < 2 ^ 31
      → SystemCounted n m y
      → Yields
          (λ r.
            AllInv true 1 t r.1.standard_servers
            → AllInv true 1 t r.1.robotic_servers
            → length (at_servers r.1) ≤ m
            → SystemCounted (n + 1) m r.1)
          (system_tick k heap y n)
  unfolding system_tick
  system_tick-SystemCounted n m t k heap y small c =
      bind-Yields_from _ _ (admit k heap y y.system_clients n) _
        (admit-SystemCounted n m k heap y y.system_clients n c)
        λ r counted. servers_run-SystemCounted n m t k r.0 r.1 small counted

  -- The ticks from `t` on, each of which passes.
  run_ticks-SystemCounted :
      (ticks : ℕ → Tick) (n t end m : ℕ) (heap : Heap) (y : System p)
      → end ≡ t + n
      → SystemInv true t y
      → ((i : ℕ) → Granted (ticks i))
      → AllListed heap (everyone y)
      → m ≤ most
      → end ≤ most
      → length (everyone y) ≤ m
      → SystemCounted t m y
      → Yields (λ r. SystemCounted end m r.1) (run_ticks ticks n t heap y)
  unfolding run_ticks
  run_ticks-SystemCounted ticks zero t end m heap y e inv granted listed h early few c =
      let same : t ≡ end = omega arith in subst (λ z. SystemCounted z m y) same c
  run_ticks-SystemCounted ticks (suc n) t end m heap y e inv granted listed h early few c =
      let a =
        system_tick-Passed true (ticks t) heap y t t inv (λ e. granted t) listed (omega arith)
          (omega arith) in
      let counted =
        Yields-ok _ a.runs
          (system_tick-SystemCounted t m (t + 1) (ticks t) heap y
            (few_lens (t + 1) m (omega arith) h) c)
          a.inv.standard_inv a.inv.robotic_inv
          (omega (
            arith,
            (Remains-Among a.remains).lengths,
            few,
            length-append (system_list a.system'.system_clients) (at_servers a.system'),
          )) in
      subst (Yields (λ r. SystemCounted end m r.1))
        (sym (ap (λ r. r >>= λ z. run_ticks ticks n (t + 1) z.0 z.1) a.runs))
        (run_ticks-SystemCounted ticks n (t + 1) end m a.heap' a.system' (omega arith) a.inv granted
          (AllListed-Among (Remains-Among a.remains) a.kind listed) h early
          (omega (arith, (Remains-Among a.remains).lengths)) counted)

  server_bounds :
      (n m : ℕ) (s : Server p)
      → ServerInv true 1 n s
      → length (held s) ≤ m
      → IsCounted n m (base s).stat
      → IsBounded n m (base s).stat
  server_bounds n m s inv h c = record {
    active = omega (arith, inv.based.elapsed);
    idle = omega (arith, inv.based.elapsed);
    served = omega (arith, inv.based.served, held-parts s);
    failures = c.failures;
    sum = c.sum;
    mean = c.mean;
  }

  all_bounded :
      (n m : ℕ) (ss : List (Server p))
      → AllInv true 1 n ss
      → length (held_all ss) ≤ m
      → AllCounted n m ss
      → AllBounded n m ss
  all_bounded n m [] inv h c = tt
  all_bounded n m (s ∷ ss) inv h c =
      let both = length-append (held s) (held_all ss) in
      (server_bounds n m s inv.0 (omega arith) c.0, all_bounded n m ss inv.1 (omega arith) c.1)

-- A run that came to its end, with its servers within the bounds.
pub record Bounded {p : Platform} (n m : ℕ) (y : System p) (r : Result (Heap × System p × SimStat))
    : Type 0 where
  pub run : Finished true n y r
  pub standard_bounds : AllBounded n m run.system'.standard_servers
  pub robotic_bounds : AllBounded n m run.system'.robotic_servers

module _ {p : Platform} (ticks : ℕ → Tick) (granted : ℕ → Bool) (heap : Heap) (y : System p) (n : ℕ)
    (stat : SimStat) where
  run_system-SystemCounted :
      (stat1 : SimStat) (m : ℕ)
      → Yields (λ r. SystemCounted n m r.1) (run_ticks ticks n 0 heap y)
      → Yields (λ r. SystemCounted n m r.1) (run_system ticks granted heap y (pos n) stat1)
  unfolding run_system
  run_system-SystemCounted stat1 m h =
      bind-Yields_from _ _ (run_ticks ticks n 0 heap y) _ h
        λ r counted. bind-Yields _ (compute_stats r.0 granted r.1 _) _ λ stat'. counted

  checked-Yields :
      (run : SimStat → Result (Heap × System p × SimStat)) (P : Heap × System p × SimStat → Type 0)
      (ss : List (Server p)) (q : Option (Queue ℕ))
      → ((stat1 : SimStat) → Yields P (run stat1))
      → Yields P (checked ss q (some stat) run)
  unfolding checked
  checked-Yields run P [] q h = tt
  checked-Yields run P (s ∷ ss) none h = tt
  checked-Yields run P (s ∷ ss) (some q) h = h stat

  -- From a well-formed system with a standard server, before the first tick, whose servers have
  -- counted no failure and no queue length and report a mean from 0 to m, with every push
  -- granted, all clients of known kinds and m of them, and m and n at most 46340, a call of
  -- `simulate` for n ticks returns without a fault, and for each server the active ticks, the
  -- idle ticks and the failures are then at most n, the clients served at most m, and the mean
  -- queue length and the sum of the queue lengths not negative and at most m and n * m.
  pub simulate-Bounded :
      (s : Server p) (servers : List (Server p))
      → y.standard_servers ≡ s ∷ servers
      → SystemInv true 0 y
      → SystemCounted 0 (length (everyone y)) y
      → ((i : ℕ) → Granted (ticks i))
      → AllListed heap (everyone y)
      → length (everyone y) ≤ most
      → n ≤ most
      → Bounded n (length (everyone y)) y (simulate ticks granted heap (some y) (pos n) (some stat))
  unfolding simulate
  simulate-Bounded s servers first inv fresh grants listed h early =
      let m = length (everyone y) in
      let f =
        simulate-Finished ticks granted heap y n stat s servers first inv grants listed h early in
      let counted =
        Yields-ok (λ r. SystemCounted n m r.1) f.runs
          (checked-Yields (run_system ticks granted heap y (pos n)) (λ r. SystemCounted n m r.1)
            y.standard_servers y.system_clients
            λ stat1. run_system-SystemCounted stat1 m (
              run_ticks-SystemCounted ticks n 0 n m heap y (omega arith) inv grants listed h early
                (omega arith) fresh)) in
      let both = length-append (system_list f.system'.system_clients) (at_servers f.system') in
      let parts =
        length-append (held_all f.system'.standard_servers) (held_all f.system'.robotic_servers) in
      record {
        run = f;
        standard_bounds =
            all_bounded n m f.system'.standard_servers f.inv.standard_inv
              (omega (arith, (Remains-Among f.remains).lengths)) counted.standard_counted;
        robotic_bounds =
            all_bounded n m f.system'.robotic_servers f.inv.robotic_inv
              (omega (arith, (Remains-Among f.remains).lengths)) counted.robotic_counted;
      }
