-- ===== src/System/Counted.antt =====
-- The counters of all servers through ticks of src/system.c.
use aca_bsim.Common.{
  ℕ, zero, suc, ◌+◌, ◌≤◌, List, [], ◌∷◌, Option, none, some, Bool, not, ◌==◌, arith, length,
  length-append, Yields, bind-Yields, bind-Yields_from, if-Yields, true, ◌*◌, ◌^◌, ◌<◌,
}
use aca_bsim.Common.Int.{ℤ, ltb_ℤ}
use aca_bsim.Platform.{Platform, no_disability}
use aca_bsim.Client.{Heap}
use aca_bsim.Server.Types.{Server, base}
use aca_bsim.Server.Load.{server_assign_client}
use aca_bsim.Server.Serve.{server_tick}
use aca_bsim.Server.Held.{held}
use aca_bsim.Server.Counters.{with_base-Moves}
use aca_bsim.System.Types.{System, Tick, Luck}
use aca_bsim.System.Assign.{
  lowest_load, int32_max, assign_at, to_standard, to_robotic, choose_server, assign_client,
}
use aca_bsim.System.Tick.{
  tick_servers, update_server, update_clients, servers_update_serve_time, servers_run,
}
use aca_bsim.System.Served.{held_all, AllInv}
use aca_bsim.System.Arrive.{at_servers}
use aca_bsim.System.Rounds.{
  IsCounted, Moves-IsCounted, Rounded-IsCounted, server_tick-Moves, update_server-Rounded,
  server_assign_client-Moves,
}

module _ {p : Platform} where
  abbrev pub AllCounted : ℕ → ℕ → List (Server p) → Type 0
  AllCounted t m [] = Unit
  AllCounted t m (s ∷ servers) = IsCounted t m (base s).stat × AllCounted t m servers

  -- The counters of both arrays.
  pub record SystemCounted (t m : ℕ) (y : System p) : Type 0 where
    pub standard_counted : AllCounted t m y.standard_servers
    pub robotic_counted : AllCounted t m y.robotic_servers

  tick_servers-AllCounted :
      (t m : ℕ) (ss : List (Server p))
      → AllCounted t m ss
      → Yields (AllCounted t m) (tick_servers ss)
  unfolding tick_servers
  tick_servers-AllCounted t m [] c = tt
  tick_servers-AllCounted t m (s ∷ ss) c =
      bind-Yields_from _ _ (server_tick p (base s)) _ (server_tick-Moves (base s)) λ b moved.
        bind-Yields_from _ _ (tick_servers ss) _ (tick_servers-AllCounted t m ss c.1)
          λ ss' rest. (Moves-IsCounted (with_base-Moves s b moved) c.0, rest)

  -- The second pass, if it leaves well-formed servers with at most `m` clients.
  update_clients-AllCounted :
      (n m t : ℕ) (luck : ℕ → Luck) (i : ℕ) (heap : Heap) (ss : List (Server p))
      → (n + 1) * m < 2 ^ 31
      → AllCounted n m ss
      → Yields
          (λ r. AllInv true 1 t r.1 → length (held_all r.1) ≤ m → AllCounted (n + 1) m r.1)
          (update_clients luck i heap ss n)
  unfolding update_clients
  update_clients-AllCounted n m t luck i heap [] small c = λ inv h. tt
  update_clients-AllCounted n m t luck i heap (s ∷ ss) small c =
      bind-Yields_from _ _ (update_server (luck i) heap s n) _
        (update_server-Rounded (luck i) heap s n)
        λ r rounded.
          bind-Yields_from _ _ (update_clients luck (i + 1) r.0 ss n) _
            (update_clients-AllCounted n m t luck (i + 1) r.0 ss small c.1)
            λ rest counted inv h. (
              Rounded-IsCounted n m s r.1 rounded inv.0
                  (omega (arith, h, length-append (held r.1) (held_all rest.1))) small c.0,
              counted inv.1 (omega (arith, h, length-append (held r.1) (held_all rest.1))),
            )

  update_serve_time-SystemCounted :
      (n m : ℕ) (y : System p)
      → SystemCounted n m y
      → Yields (SystemCounted n m) (servers_update_serve_time y)
  unfolding servers_update_serve_time
  update_serve_time-SystemCounted n m y c =
      bind-Yields_from _ _ (tick_servers y.standard_servers) _
        (tick_servers-AllCounted n m y.standard_servers c.standard_counted)
        λ ss counted_s.
          bind-Yields_from _ _ (tick_servers y.robotic_servers) _
            (tick_servers-AllCounted n m y.robotic_servers c.robotic_counted)
            λ rs counted_r. record { standard_counted = counted_s; robotic_counted = counted_r }

  pub servers_run-SystemCounted :
      (n m t : ℕ) (k : Tick) (heap : Heap) (y : System p)
      → (n + 1) * m < 2 ^ 31
      → SystemCounted n m y
      → Yields
          (λ r.
            AllInv true 1 t r.1.standard_servers
            → AllInv true 1 t r.1.robotic_servers
            → length (at_servers r.1) ≤ m
            → SystemCounted (n + 1) m r.1)
          (servers_run k heap y n)
  unfolding servers_run
  servers_run-SystemCounted n m t k heap y small c =
      bind-Yields_from _ _ (servers_update_serve_time y) _ (update_serve_time-SystemCounted n m y c)
        λ y' c'.
          bind-Yields_from _ _ (update_clients k.standard_luck 0 heap y'.standard_servers n) _
            (update_clients-AllCounted n m t k.standard_luck 0 heap y'.standard_servers small
              c'.standard_counted)
            λ s counted_s.
              bind-Yields_from _ _ (update_clients k.robotic_luck 0 s.0 y'.robotic_servers n) _
                (update_clients-AllCounted n m t k.robotic_luck 0 s.0 y'.robotic_servers small
                  c'.robotic_counted)
                λ r counted_r inv_s inv_r h. record {
                  standard_counted =
                      counted_s inv_s
                        (omega (arith, h, length-append (held_all s.1) (held_all r.1)));
                  robotic_counted =
                      counted_r inv_r
                        (omega (arith, h, length-append (held_all s.1) (held_all r.1)));
                }

  assign_at-AllCounted :
      (t m : ℕ) (granted : Bool) (heap : Heap) (ss : List (Server p)) (i client : ℕ)
      → AllCounted t m ss
      → Yields (AllCounted t m) (assign_at granted heap ss i client)
  unfolding assign_at
  assign_at-AllCounted t m granted heap [] i client c = tt
  assign_at-AllCounted t m granted heap (s ∷ ss) zero client c =
      bind-Yields_from _ _ (server_assign_client granted heap s client) _
        (server_assign_client-Moves granted heap s client)
        λ r moved. (Moves-IsCounted moved c.0, c.1)
  assign_at-AllCounted t m granted heap (s ∷ ss) (suc i) client c =
      bind-Yields_from _ _ (assign_at granted heap ss i client) _
        (assign_at-AllCounted t m granted heap ss i client c.1) λ ss' counted. (c.0, counted)

module _ {p : Platform} (t m : ℕ) (granted : Bool) (heap : Heap) (y : System p) (client : ℕ)
    (c : SystemCounted t m y) where
  to_standard-SystemCounted :
      (i : ℕ) → Yields (SystemCounted t m) (to_standard granted heap y client i)
  unfolding to_standard
  to_standard-SystemCounted i =
      bind-Yields_from _ _ (assign_at granted heap y.standard_servers i client) _
        (assign_at-AllCounted t m granted heap y.standard_servers i client c.standard_counted)
        λ ss counted. record { standard_counted = counted; robotic_counted = c.robotic_counted }

  to_robotic-SystemCounted :
      (i : ℕ) → Yields (SystemCounted t m) (to_robotic granted heap y client i)
  unfolding to_robotic
  to_robotic-SystemCounted i =
      bind-Yields_from _ _ (assign_at granted heap y.robotic_servers i client) _
        (assign_at-AllCounted t m granted heap y.robotic_servers i client c.robotic_counted)
        λ ss counted. record { standard_counted = c.standard_counted; robotic_counted = counted }

  choose_server-SystemCounted :
      (s : Option ℕ) (a : ℤ) (r : Option ℕ) (b : ℤ)
      → Yields (SystemCounted t m) (choose_server granted heap y client s a r b)
  unfolding choose_server
  choose_server-SystemCounted none a none b = tt
  choose_server-SystemCounted none a (some r) b = to_robotic-SystemCounted r
  choose_server-SystemCounted (some s) a none b = to_standard-SystemCounted s
  choose_server-SystemCounted (some s) a (some r) b =
      if-Yields _ (not ((heap client).disability_type == no_disability)) _ _
        (to_robotic-SystemCounted r)
        (if-Yields _ (ltb_ℤ b a) _ _ (to_robotic-SystemCounted r) (to_standard-SystemCounted s))

  pub assign_client-SystemCounted : Yields (SystemCounted t m) (assign_client granted heap y client)
  unfolding assign_client
  assign_client-SystemCounted =
      bind-Yields _ (lowest_load (heap client).disability_type y.standard_servers 0 none int32_max)
        _
        λ s.
          bind-Yields _
            (lowest_load (heap client).disability_type y.robotic_servers 0 none int32_max) _
            λ r. choose_server-SystemCounted s.0 s.1 r.0 r.1
