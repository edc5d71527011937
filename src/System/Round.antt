-- ===== src/System/Round.antt =====
-- One round of the loop of `update_clients` of src/system.c.
use aca_bsim.System.Rounds.{serve-Summed}
use aca_bsim.Server.Stats.{server_update_stat-StatKept}
use aca_bsim.Common.{
  ℕ, zero, suc, ◌^◌, ◌<◌, ◌≡◌, refl, sym, ap, subst, Option, none, some, true, false, inl, inr,
  Result, arith, Bool-cases, length, eq-SameItems, ◌∙◌, Bool, ◌≤◌,
}
use aca_bsim.Common.Int.{pos, eqb_ℤ}
use aca_bsim.Platform.{Platform}
use aca_bsim.Client.{
  Heap, write, client_finalize, client_set_finish_time, client_set_total_service_time,
}
use aca_bsim.Server.Types.{Server, base}
use aca_bsim.Server.Serve.{
  is_some, server_is_active, server_is_service_finished, server_is_service_successful,
}
use aca_bsim.Client.Known.{AllListed, AllListed-trans, Keeps, Keeps-refl}
use aca_bsim.Server.Held.{held, ServerInv, Good, Good-after, Summed-settled, most}
use aca_bsim.Server.Next.{set_next-Good}
use aca_bsim.Server.Turn.{write-Keeps}
use aca_bsim.Server.Finish.{finalize_lem, retry-Retried}
use aca_bsim.Server.Ticked.{busy_some}
use aca_bsim.System.Types.{Luck}
use aca_bsim.System.Tick.{finish_service, serve_client, update_server}

module _ {p : Platform} where
  Good-at :
      {strict : Bool} {low t : ℕ} {heap : Heap} {s : Server p} {r r' : Result (Heap × Server p)}
      → r ≡ r'
      → Good strict low t heap s r'
      → Good strict low t heap s r
  Good-at {strict} {low} {t} {heap} {s} e g = subst (Good strict low t heap s) (sym e) g

pub finalize-Keeps :
    (heap : Heap) (c now : ℕ) → Keeps heap (write heap c (client_finalize (heap c) (pos now)))
unfolding client_finalize client_set_finish_time client_set_total_service_time
finalize-Keeps heap c now = write-Keeps heap c _ refl refl refl

pub still_busy :
    {p : Platform} {strict : Bool} {t : ℕ} (s : Server p) (n : ℕ)
    → ServerInv strict 0 t s
    → (base s).to_serve ≡ pos (suc n)
    → ServerInv strict 1 t s
still_busy s n inv left = record {
  based = record {
    finished = inv.based.finished;
    served = inv.based.served;
    elapsed = inv.based.elapsed;
    sum = Summed-settled inv.based.sum;
    mean = inv.based.mean;
    busy = inr (suc n, left, omega arith);
  };
  queues = inv.queues;
  timely = inv.timely;
}

-- What the loop does at a server before the statistics: a service ends in success, or all its
-- clients are still at it.
pub data Serving {p : Platform} (strict : Bool) (luck : Luck) (heap : Heap) (now t : ℕ)
    (s : Server p) : Type 0 where
  ends :
      (c : ℕ)
      → (base s).current_client ≡ some c
      → serve_client luck heap s now ≡ finish_service luck heap s now
      → Serving strict luck heap now t s
  stays : Good strict 1 t heap s (serve_client luck heap s now) → Serving strict luck heap now t s

module _ {p : Platform} {strict : Bool} (luck : Luck) (heap : Heap) (now t : ℕ) where
  serve_busy :
      (s : Server p) (c n : ℕ)
      → ServerInv strict 0 t s
      → (base s).current_client ≡ some c
      → (base s).to_serve ≡ pos n
      → AllListed heap (held s)
      → Serving strict luck heap now t s
  unfolding serve_client server_is_active server_is_service_finished
  serve_busy s c zero inv e left all =
      elim (Bool-cases (server_is_service_successful p luck.drawn s)) [
        | inl success ↦ ends c e (rw (ap is_some e, left, success) refl)
        | inr failure ↦ stays (
            Good-at (rw (ap is_some e, left, failure) refl) (retry-Retried heap s c inv e all).good)
      ]
  serve_busy s c (suc n) inv e left all = stays (
      Good-at (rw (ap is_some e, ap (λ k. eqb_ℤ k (pos 0)) left, not_done) refl) (record {
        heap' = heap;
        server' = s;
        runs = refl;
        inv = still_busy s n inv left;
        same = refl;
        keeps = Keeps-refl heap;
      }))
    where
      not_done : eqb_ℤ (pos (suc n)) (pos 0) ≡ false
      not_done = ground arith

  serve_at :
      (s : Server p) (current : Option ℕ)
      → (base s).current_client ≡ current
      → ServerInv strict 0 t s
      → AllListed heap (held s)
      → Serving strict luck heap now t s
  unfolding serve_client server_is_active
  serve_at s none e inv all =
      stays
        (Good-at (rw (ap is_some e) refl) (set_next-Good luck.granted_pop heap now t 0 s inv e all))
  serve_at s (some c) e inv all =
      let (n, left, low) = busy_some c inv.based.busy e in serve_busy s c n inv e left all

  -- Whatever the allocator answers.
  pub serve_client-Serving :
      (s : Server p)
      → ServerInv strict 0 t s
      → AllListed heap (held s)
      → Serving strict luck heap now t s
  serve_client-Serving s inv all = serve_at s (base s).current_client refl inv all

  finish-Good :
      (s : Server p) (c : ℕ)
      → luck.granted_push ≡ true
      → ServerInv strict 0 t s
      → (base s).current_client ≡ some c
      → AllListed heap (held s)
      → length (held s) < 2 ^ 31
      → Good strict 1 t heap s (finish_service luck heap s now)
  unfolding finish_service
  finish-Good s c granted inv e all h =
      let f = finalize_lem s c inv e h in
      let keeps = finalize-Keeps heap c now in
      Good-at (rw (granted, f.runs) refl) (
        Good-after f.same keeps (
          set_next-Good luck.granted_pop (write heap c (client_finalize (heap c) (pos now))) now t 1
            f.server f.inv f.idle (AllListed-trans (eq-SameItems f.same) keeps all)))

  serve-Good :
      (s : Server p)
      → luck.granted_push ≡ true
      → ServerInv strict 0 t s
      → AllListed heap (held s)
      → length (held s) < 2 ^ 31
      → Good strict 1 t heap s (serve_client luck heap s now)
  serve-Good s granted inv all h = elim (serve_client-Serving s inv all) [
    | ends c e r ↦ Good-at r (finish-Good s c granted inv e all h)
    | stays g ↦ g
  ]

-- On a server that is well formed but may be done with its client, with the push granted, all its
-- clients of known kinds and at most `most` of them, and at most `most` ticks counted, one round of
-- `update_clients` passes without a fault on each of its paths, keeps the clients of the server and
-- their order, the finished first, then the one being served, then those who wait, and leaves it well
-- formed with a tick or more to go if it has a current client.
pub update_server-Good :
    {p : Platform} {strict : Bool} (luck : Luck) (heap : Heap) (now t : ℕ) (s : Server p)
    → luck.granted_push ≡ true
    → ServerInv strict 0 t s
    → AllListed heap (held s)
    → length (held s) ≤ most
    → t ≤ most
    → Good strict 1 t heap s (update_server luck heap s now)
unfolding update_server
update_server-Good luck heap now t s granted inv all h early =
    let g = serve-Good luck heap now t s granted inv all (omega arith) in
    let k =
      server_update_stat-StatKept g.server' now g.inv
        (serve-Summed luck heap s now g.runs inv.based.sum) early
        (omega (arith, ap length g.same)) in
    record {
      heap' = g.heap';
      server' = k.server;
      runs = rw (g.runs, k.runs) refl;
      inv = k.inv;
      same = k.same ∙ g.same;
      keeps = g.keeps;
    }
