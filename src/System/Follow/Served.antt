-- ===== src/System/Follow/Served.antt =====
-- A round of `update_clients` of src/system.c, and the whole loop, on the views of the servers.
use aca_bsim.System.Rounds.{serve-Summed}
use aca_bsim.Common.{
  ℕ, zero, suc, ◌^◌, ◌<◌, ◌≡◌, refl, sym, ap, subst, ◌∙◌, [], ◌∷◌, ◌++◌, Option, none, some, Bool,
  true, false, inl, inr, Result, arith, Bool-cases, length, eq-SameItems, ◌≤◌,
}
use aca_bsim.Common.Int.{pos, eqb_ℤ, pos_part}
use aca_bsim.Platform.{Platform}
use aca_bsim.Client.{Heap, write, client_finalize}
use aca_bsim.Client.Known.{AllListed, AllListed-trans, Keeps-refl, Keeps-trans, Keeps-SameKind}
use aca_bsim.Server.Types.{Server, base}
use aca_bsim.Server.Serve.{
  is_some, server_is_active, server_is_service_finished, server_is_service_successful,
}
use aca_bsim.Server.Held.{held, waiting, ServerInv, Good, most}
use aca_bsim.Server.Kin.{Kin, Kin-refl, Kin-trans}
use aca_bsim.Server.Left.{under_way}
use aca_bsim.Server.Next.{set_next-ServesFirst}
use aca_bsim.Server.Finish.{finalize_lem, retry-Retried}
use aca_bsim.Server.Stats.{server_update_stat-StatKept}
use aca_bsim.Server.Ticked.{busy_some}
use aca_bsim.Server.Machine.{
  view, time_at, serve_next, serve_next-time, Serves, begins, goes_on, retries, ends,
}
use aca_bsim.Server.Views.{time_at-same, view-next, view-retry, view-stat}
use aca_bsim.System.Types.{Luck}
use aca_bsim.System.Tick.{finish_service, serve_client, update_server}
use aca_bsim.System.Round.{finalize-Keeps, still_busy}

-- A good step that the machine takes too.
pub record Follows {p : Platform} (strict : Bool) (t : ℕ) (heap : Heap) (s : Server p)
    (r : Result (Heap × Server p)) : Type 0 where
  pub good : Good strict 1 t heap s r
  pub kin : Kin s good.server'
  pub serves : Serves (time_at heap s) (view s) (view good.server')

module _ {p : Platform} {strict : Bool} (luck : Luck) (heap : Heap) (now t : ℕ) (s : Server p)
    (inv : ServerInv strict 0 t s) (all : AllListed heap (held s)) where
  finish-Follows :
      (c : ℕ)
      → luck.granted_push ≡ true
      → length (held s) < 2 ^ 31
      → (base s).current_client ≡ some c
      → under_way (base s).current_client (base s).to_serve ≡ 0
      → serve_client luck heap s now ≡ finish_service luck heap s now
      → Follows strict t heap s (serve_client luck heap s now)
  unfolding finish_service
  finish-Follows c granted h e over runs =
      let f = finalize_lem s c inv e h in
      let keeps = finalize-Keeps heap c now in
      let heap1 = write heap c (client_finalize (heap c) (pos now)) in
      let n =
        set_next-ServesFirst luck.granted_pop heap1 now t 1 f.server f.inv f.idle
          (AllListed-trans (eq-SameItems f.same) keeps all) in
      record {
        good = record {
          heap' = n.good.heap';
          server' = n.good.server';
          runs = runs ∙ rw (granted, f.runs) n.good.runs;
          inv = n.good.inv;
          same = n.good.same ∙ f.same;
          keeps = Keeps-trans keeps n.good.keeps;
        };
        kin = Kin-trans f.kin n.kin;
        serves = ends c e over (
            view-next n
            ∙ ap (λ fs. serve_next (time_at heap1 f.server) fs (waiting f.server)) f.finished
            ∙ ap (serve_next (time_at heap1 f.server) ((view s).finished ++ c ∷ [])) f.waits
            ∙ serve_next-time _ _ ((view s).finished ++ c ∷ []) (waiting s)
                (time_at-same heap heap1 s f.server (Keeps-SameKind keeps) f.kin));
      }

  busy-Follows :
      (c n : ℕ)
      → luck.granted_push ≡ true
      → length (held s) < 2 ^ 31
      → (base s).current_client ≡ some c
      → (base s).to_serve ≡ pos n
      → Follows strict t heap s (serve_client luck heap s now)
  unfolding serve_client server_is_active server_is_service_finished
  busy-Follows c zero granted h e left =
      elim (Bool-cases (server_is_service_successful p luck.drawn s)) [
        | inl success ↦ finish-Follows c granted h e over (rw (ap is_some e, left, success) refl)
        | inr failure ↦
            let f = retry-Retried heap s c inv e all in
            record {
              good = record {
                heap' = f.good.heap';
                server' = f.good.server';
                runs = rw (ap is_some e, left, failure) f.good.runs;
                inv = f.good.inv;
                same = f.good.same;
                keeps = f.good.keeps;
              };
              kin = f.kin;
              serves = retries c e over (view-retry e f);
            }
      ]
    where
      over : under_way (base s).current_client (base s).to_serve ≡ 0
      over = ap (λ o. under_way o (base s).to_serve) e ∙ ap pos_part left
  busy-Follows c (suc n) granted h e left = record {
    good = record {
      heap' = heap;
      server' = s;
      runs = rw (ap is_some e, ap (λ k. eqb_ℤ k (pos 0)) left, not_done) refl;
      inv = still_busy s n inv left;
      same = refl;
      keeps = Keeps-refl heap;
    };
    kin = Kin-refl s;
    serves = goes_on c n e (ap (λ o. under_way o (base s).to_serve) e ∙ ap pos_part left) refl;
  }
    where
      not_done : eqb_ℤ (pos (suc n)) (pos 0) ≡ false
      not_done = ground arith

  serve-Follows :
      (current : Option ℕ)
      → (base s).current_client ≡ current
      → luck.granted_push ≡ true
      → length (held s) < 2 ^ 31
      → Follows strict t heap s (serve_client luck heap s now)
  unfolding serve_client server_is_active
  serve-Follows none e granted h =
      let f = set_next-ServesFirst luck.granted_pop heap now t 0 s inv e all in
      record {
        good = record {
          heap' = f.good.heap';
          server' = f.good.server';
          runs = rw (ap is_some e) f.good.runs;
          inv = f.good.inv;
          same = f.good.same;
          keeps = f.good.keeps;
        };
        kin = f.kin;
        serves = begins e (view-next f);
      }
  serve-Follows (some c) e granted h =
      let (n, left, low) = busy_some c inv.based.busy e in busy-Follows c n granted h e left

  -- On a server that is well formed but may be done with its client, with the push granted, all
  -- its clients of known kinds and at most 46340 of them, and at most 46340 ticks counted, one
  -- round of `update_clients` passes without a fault on each of its paths, leaves the server well
  -- formed and keeps its clients and their order. Seen as the clients finished, the one being
  -- served with the ticks to go, and those who wait, it takes a step of the abstract machine: an
  -- idle one takes the next client, with that client's service time; a busy one with a tick or
  -- more to go stays as it is; one whose time is over starts again, or ends the service, puts the
  -- client behind the others finished and takes the next one.
  pub update_server-Follows :
      luck.granted_push ≡ true
      → length (held s) ≤ most
      → t ≤ most
      → Follows strict t heap s (update_server luck heap s now)
  unfolding update_server
  update_server-Follows granted h early =
      let f = serve-Follows (base s).current_client refl granted (omega arith) in
      let k =
        server_update_stat-StatKept f.good.server' now f.good.inv
          (serve-Summed luck heap s now f.good.runs inv.based.sum) early
          (omega (arith, ap length f.good.same)) in
      record {
        good = record {
          heap' = f.good.heap';
          server' = k.server;
          runs = rw (f.good.runs, k.runs) refl;
          inv = k.inv;
          same = k.same ∙ f.good.same;
          keeps = f.good.keeps;
        };
        kin = Kin-trans f.kin k.kin;
        serves = subst (Serves (time_at heap s) (view s)) (sym (view-stat k)) f.serves;
      }
