-- ===== src/System/Kept.antt =====
-- One round of the loop of `update_clients` of src/system.c with every answer of the allocator.
use aca_bsim.System.Rounds.{serve-Summed}
use aca_bsim.Common.{
  ℕ, ◌≡◌, refl, some, true, false, Bool, Result, ok, length, eq-Among, Among-trans, eq-SameItems,
  ◌∙◌, Remains, same_ones, no_others, Remains-trans, ◌≤◌, Remains-Among, arith,
}
use aca_bsim.Common.Int.{pos}
use aca_bsim.Platform.{Platform}
use aca_bsim.Client.{Heap, write, client_finalize}
use aca_bsim.Server.Types.{Server, base}
use aca_bsim.Client.Known.{AllListed, Keeps, Keeps-trans, Keeps-SameKind, AllListed-Among}
use aca_bsim.Server.Held.{held, ServerInv, most}
use aca_bsim.Server.Next.{set_next-Good}
use aca_bsim.Server.Parted.{finalize-Parted}
use aca_bsim.System.Types.{Luck}
use aca_bsim.System.Tick.{finish_service, serve_client, update_server}
use aca_bsim.Server.Stats.{server_update_stat-StatKept}
use aca_bsim.System.Round.{ends, stays, serve_client-Serving, finalize-Keeps, update_server-Good}

-- A step of a server that went through, with the clients that remain.
pub record Kept {p : Platform} (strict : Bool) (t : ℕ) (heap : Heap) (s : Server p)
    (r : Result (Heap × Server p)) : Type 0 where
  pub heap' : Heap
  pub server' : Server p
  pub runs : r ≡ ok (heap', server')
  pub inv : ServerInv strict 1 t server'
  pub remains : Remains strict (held server') (held s)
  pub keeps : Keeps heap heap'

module _ {p : Platform} (luck : Luck) (heap : Heap) (now t : ℕ) (s : Server p)
    (inv : ServerInv false 0 t s) (all : AllListed heap (held s)) (few : length (held s) ≤ most)
    (early : t ≤ most) where
  finish-Kept :
      (c : ℕ)
      → (base s).current_client ≡ some c
      → Kept false t heap s (finish_service luck heap s now)
  unfolding finish_service
  finish-Kept c e =
      let f = finalize-Parted luck.granted_push s c inv e (omega arith) in
      let keeps = finalize-Keeps heap c now in
      let g =
        set_next-Good luck.granted_pop (write heap c (client_finalize (heap c) (pos now))) now t 1
          f.server f.inv f.idle (AllListed-Among f.among (Keeps-SameKind keeps) all) in
      record {
        heap' = g.heap';
        server' = g.server';
        runs = rw f.runs g.runs;
        inv = g.inv;
        remains = no_others (Among-trans (eq-Among g.same) f.among);
        keeps = Keeps-trans keeps g.keeps;
      }

  serve-Kept : Kept false t heap s (serve_client luck heap s now)
  serve-Kept = elim (serve_client-Serving luck heap now t s inv all) [
    | ends c e r ↦
        let k = finish-Kept c e in
        record {
          heap' = k.heap';
          server' = k.server';
          runs = r ∙ k.runs;
          inv = k.inv;
          remains = k.remains;
          keeps = k.keeps;
        }
    | stays g ↦ record {
      heap' = g.heap';
      server' = g.server';
      runs = g.runs;
      inv = g.inv;
      remains = no_others (eq-Among g.same);
      keeps = g.keeps;
    }
  ]

  refused_update_server : Kept false t heap s (update_server luck heap s now)
  unfolding update_server
  refused_update_server =
      let g = serve-Kept in
      let k =
        server_update_stat-StatKept g.server' now g.inv
          (serve-Summed luck heap s now g.runs inv.based.sum) early
          (omega (arith, (Remains-Among g.remains).lengths)) in
      record {
        heap' = g.heap';
        server' = k.server;
        runs = rw (g.runs, k.runs) refl;
        inv = k.inv;
        remains = Remains-trans (no_others (eq-Among k.same)) g.remains;
        keeps = g.keeps;
      }

-- A round at a server, with the push granted or with any answer of the allocator.
pub update_server-Kept :
    {p : Platform} (strict : Bool) (luck : Luck) (heap : Heap) (now t : ℕ) (s : Server p)
    → (strict ≡ true → luck.granted_push ≡ true)
    → ServerInv strict 0 t s
    → AllListed heap (held s)
    → length (held s) ≤ most
    → t ≤ most
    → Kept strict t heap s (update_server luck heap s now)
update_server-Kept true luck heap now t s granted inv all few early =
    let g = update_server-Good luck heap now t s (granted refl) inv all few early in
    record {
      heap' = g.heap';
      server' = g.server';
      runs = g.runs;
      inv = g.inv;
      remains = same_ones (eq-SameItems g.same);
      keeps = g.keeps;
    }
update_server-Kept false luck heap now t s granted inv all few early =
    refused_update_server luck heap now t s inv all few early
