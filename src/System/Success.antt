-- ===== src/System/Success.antt =====
-- A round of `update_clients` of src/system.c at a server whose service, if it ends, is a success.
use aca_bsim.System.Rounds.{serve-Summed}
use aca_bsim.Common.{
  ℕ, zero, suc, ◌+◌, ◌^◌, ◌<◌, ◌≡◌, refl, ap, ◌∙◌, Option, none, some, true, false, arith, length,
  eq-SameItems, ◌≤◌,
}
use aca_bsim.Common.Int.{pos, eqb_ℤ}
use aca_bsim.Platform.{Platform}
use aca_bsim.Client.{Heap, write, client_finalize}
use aca_bsim.Server.Types.{Server, base}
use aca_bsim.Server.Serve.{
  is_some, server_is_active, server_is_service_finished, server_is_service_successful,
}
use aca_bsim.Client.Known.{AllListed, Keeps-refl, AllListed-trans}
use aca_bsim.Server.Held.{held, waiting, ServerInv, most}
use aca_bsim.Server.Kin.{Kin-refl, Kin-trans}
use aca_bsim.Server.Left.{ticks_for, left_at, rest_left, under_way, ticks_for-same}
use aca_bsim.Server.Finish.{finalize_lem}
use aca_bsim.Server.Ticked.{busy_some}
use aca_bsim.Server.Drain.{Drains, Drains-at, Drains-after, next-Drains}
use aca_bsim.System.Types.{Luck}
use aca_bsim.System.Tick.{finish_service, serve_client, update_server}
use aca_bsim.Server.Stats.{server_update_stat-StatKept}
use aca_bsim.System.Round.{finalize-Keeps, still_busy}

module _ {p : Platform} (luck : Luck) (heap : Heap) (now t : ℕ)
    (granted : luck.granted_push ≡ true) where
  finish-Drains :
      (s : Server p) (c : ℕ)
      → ServerInv true 0 t s
      → (base s).current_client ≡ some c
      → AllListed heap (held s)
      → length (held s) < 2 ^ 31
      → Drains t heap s (ticks_for heap s (waiting s)) (finish_service luck heap s now)
  unfolding finish_service
  finish-Drains s c inv e all h =
      let f = finalize_lem s c inv e h in
      let keeps = finalize-Keeps heap c now in
      let heap1 = write heap c (client_finalize (heap c) (pos now)) in
      let d =
        next-Drains luck.granted_pop heap1 now t 1 f.server f.inv f.idle
          (AllListed-trans (eq-SameItems f.same) keeps all) in
      Drains-at (rw (granted, f.runs) refl) (
        Drains-after f.same keeps f.kin
          (ap (λ xs. ticks_for heap1 f.server xs) f.waits
            ∙ ticks_for-same heap heap1 s f.server (waiting s) keeps f.kin)
          d)

  busy-Drains :
      (s : Server p) (c n : ℕ)
      → ServerInv true 0 t s
      → (base s).current_client ≡ some c
      → (base s).to_serve ≡ pos n
      → server_is_service_successful p luck.drawn s ≡ true
      → AllListed heap (held s)
      → length (held s) < 2 ^ 31
      → Drains t heap s (n + ticks_for heap s (waiting s)) (serve_client luck heap s now)
  unfolding serve_client server_is_active server_is_service_finished
  busy-Drains s c zero inv e to_go success all h =
      Drains-at (rw (ap is_some e, to_go, success) refl) (
        let d = finish-Drains s c inv e all h in
        record { good = d.good; kin = d.kin; ticks = d.ticks ∙ omega arith })
  busy-Drains s c (suc n) inv e to_go success all h =
      Drains-at (rw (ap is_some e, ap (λ k. eqb_ℤ k (pos 0)) to_go, not_done) refl) (record {
        good = record {
          heap' = heap;
          server' = s;
          runs = refl;
          inv = still_busy s n inv to_go;
          same = refl;
          keeps = Keeps-refl heap;
        };
        kin = Kin-refl s;
        ticks =
            ap (λ o. left_at heap s o (base s).to_serve (waiting s)) e
            ∙ ap (λ z. left_at heap s (some c) z (waiting s)) to_go
            ∙ omega arith;
      })
    where
      not_done : eqb_ℤ (pos (suc n)) (pos 0) ≡ false
      not_done = ground arith

  serve-Drains :
      (s : Server p) (current : Option ℕ)
      → (base s).current_client ≡ current
      → ServerInv true 0 t s
      → server_is_service_successful p luck.drawn s ≡ true
      → AllListed heap (held s)
      → length (held s) < 2 ^ 31
      → Drains t heap s (rest_left heap s) (serve_client luck heap s now)
  unfolding serve_client server_is_active
  serve-Drains s none e inv success all h = Drains-at (rw (ap is_some e) refl) (
      let d = next-Drains luck.granted_pop heap now t 0 s inv e all in
      record {
        good = d.good;
        kin = d.kin;
        ticks = d.ticks ∙ omega (arith, ap (λ o. under_way o (base s).to_serve) e);
      })
  serve-Drains s (some c) e inv success all h =
      let (n, to_go, low) = busy_some c inv.based.busy e in
      let d = busy-Drains s c n inv e to_go success all h in
      record {
        good = d.good;
        kin = d.kin;
        ticks =
            d.ticks
            ∙ omega (
              arith,
              ap (λ o. under_way o (base s).to_serve) e,
              ap (λ z. under_way (some c) z) to_go,
            );
      }

-- On a server that is well formed but may be done with its client, with the push granted, its
-- service, if it ends, a success, all its clients of known kinds and at most 46340 of them, and
-- at most 46340 ticks counted, a round of `update_clients` passes without a fault and keeps the
-- clients of the server in their order, from the finished to those who wait; the ticks to go for
-- its current and waiting clients, and the tick in which an idle server would begin, are then in
-- sum the ticks to go for these clients before the round.
pub update_server-Drains :
    {p : Platform} (luck : Luck) (heap : Heap) (now t : ℕ) (s : Server p)
    → luck.granted_push ≡ true
    → server_is_service_successful p luck.drawn s ≡ true
    → ServerInv true 0 t s
    → AllListed heap (held s)
    → length (held s) ≤ most
    → t ≤ most
    → Drains t heap s (rest_left heap s) (update_server luck heap s now)
unfolding update_server
update_server-Drains luck heap now t s granted success inv all h early =
    let d =
      serve-Drains luck heap now t granted s (base s).current_client refl inv success all
        (omega arith) in
    let g = d.good in
    let k =
      server_update_stat-StatKept g.server' now g.inv
        (serve-Summed luck heap s now g.runs inv.based.sum) early
        (omega (arith, ap length g.same)) in
    record {
      good = record {
        heap' = g.heap';
        server' = k.server;
        runs = rw (g.runs, k.runs) refl;
        inv = k.inv;
        same = k.same ∙ g.same;
        keeps = g.keeps;
      };
      kin = Kin-trans d.kin k.kin;
      ticks =
          ap (λ o. left_at g.heap' k.server o (base k.server).to_serve (waiting k.server)) k.current
          ∙ ap (λ z. left_at g.heap' k.server (base g.server').current_client z (waiting k.server))
              k.to_serve
          ∙ ap
              (λ xs.
                left_at g.heap' k.server (base g.server').current_client (base g.server').to_serve
                  xs)
              k.waits
          ∙ omega (
            arith,
            ticks_for-same g.heap' g.heap' g.server' k.server (waiting g.server')
                (Keeps-refl g.heap') k.kin,
          )
          ∙ d.ticks;
    }
