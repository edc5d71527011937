-- ===== src/System/Served.antt =====
-- `update_clients` and `servers_update_serve_time` of src/system.c over all servers.
use aca_bsim.Common.{
  ℕ, suc, ◌+◌, ◌≡◌, refl, ap, List, [], ◌∷◌, ◌++◌, true, Result, ok, arith, length, length-append,
  count-append, SameItems-refl, Bool, Remains, SameItems-Remains, Remains-append, ◌≤◌,
}
use aca_bsim.Platform.{Platform}
use aca_bsim.Client.{Heap}
use aca_bsim.Server.Types.{Server, base, with_base}
use aca_bsim.Client.Known.{AllListed, AllListed-trans, Keeps, Keeps-refl, Keeps-trans}
use aca_bsim.Server.Held.{
  held, ServerInv-lenient, ServerInv, with_base-ServerInv, held-with_base, most,
}
use aca_bsim.Server.Ticked.{server_tick-Ticked}
use aca_bsim.System.Types.{Luck}
use aca_bsim.System.Tick.{tick_servers, update_clients}
use aca_bsim.System.Kept.{update_server-Kept}

-- The clients of several servers, and the invariant of each.
abbrev pub held_all : {p : Platform} → List (Server p) → List ℕ
held_all [] = []
held_all (s ∷ servers) = held s ++ held_all servers

abbrev pub AllInv : {p : Platform} → Bool → ℕ → ℕ → List (Server p) → Type 0
AllInv strict low t [] = Unit
AllInv strict low t (s ∷ servers) = ServerInv strict low t s × AllInv strict low t servers

pub AllInv-lenient :
    {p : Platform} (strict : Bool) (low t : ℕ) (servers : List (Server p))
    → AllInv true low t servers
    → AllInv strict low t servers
AllInv-lenient strict low t [] inv = tt
AllInv-lenient strict low t (s ∷ servers) inv =
    (ServerInv-lenient strict s inv.0, AllInv-lenient strict low t servers inv.1)

pub AllListed-left : {heap : Heap} (xs ys : List ℕ) → AllListed heap (xs ++ ys) → AllListed heap xs
AllListed-left xs ys all c h = all c (omega (arith, count-append c xs ys))

pub AllListed-right : {heap : Heap} (xs ys : List ℕ) → AllListed heap (xs ++ ys) → AllListed heap ys
AllListed-right xs ys all c h = all c (omega (arith, count-append c xs ys))

-- A pass over servers that went through.
pub record GoodAll {p : Platform} (strict : Bool) (low t : ℕ) (heap : Heap)
    (servers : List (Server p)) (r : Result (Heap × List (Server p))) : Type 0 where
  pub heap' : Heap
  pub servers' : List (Server p)
  pub runs : r ≡ ok (heap', servers')
  pub inv : AllInv strict low t servers'
  pub same : held_all servers' ≡ held_all servers
  pub size : length servers' ≡ length servers
  pub keeps : Keeps heap heap'

-- A pass over servers that went through, with the clients that remain.
pub record KeptAll {p : Platform} (strict : Bool) (t : ℕ) (heap : Heap) (servers : List (Server p))
    (r : Result (Heap × List (Server p))) : Type 0 where
  pub heap' : Heap
  pub servers' : List (Server p)
  pub runs : r ≡ ok (heap', servers')
  pub inv : AllInv strict 1 t servers'
  pub remains : Remains strict (held_all servers') (held_all servers)
  pub size : length servers' ≡ length servers
  pub keeps : Keeps heap heap'

pub update_clients-KeptAll :
    {p : Platform} (strict : Bool) (luck : ℕ → Luck) (i : ℕ) (heap : Heap)
    (servers : List (Server p)) (now t : ℕ)
    → ((k : ℕ) → strict ≡ true → (luck k).granted_push ≡ true)
    → AllInv strict 0 t servers
    → AllListed heap (held_all servers)
    → length (held_all servers) ≤ most
    → t ≤ most
    → KeptAll strict t heap servers (update_clients luck i heap servers now)
unfolding update_clients
update_clients-KeptAll strict luck i heap [] now t granted inv all h early = record {
  heap' = heap;
  servers' = [];
  runs = refl;
  inv = tt;
  remains = SameItems-Remains strict (SameItems-refl []);
  size = refl;
  keeps = Keeps-refl heap;
}
update_clients-KeptAll strict luck i heap (s ∷ servers) now t granted inv all h early =
    let few = length-append (held s) (held_all servers) in
    let g =
      update_server-Kept strict (luck i) heap now t s (granted i) inv.0
        (AllListed-left (held s) (held_all servers) all) (omega arith) early in
    let r =
      update_clients-KeptAll strict luck (i + 1) g.heap' servers now t granted inv.1
        (AllListed-trans (SameItems-refl (held_all servers)) g.keeps
          (AllListed-right (held s) (held_all servers) all))
        (omega arith) early in
    record {
      heap' = r.heap';
      servers' = g.server' ∷ r.servers';
      runs = rw (g.runs, r.runs) refl;
      inv = (g.inv, r.inv);
      remains = Remains-append g.remains r.remains;
      size = ap suc r.size;
      keeps = Keeps-trans g.keeps r.keeps;
    }

-- The first pass of a tick: every server counts it as active or as idle.
pub tick_servers_lem :
    {p : Platform} {strict : Bool} (servers : List (Server p)) (t : ℕ)
    → AllInv strict 1 t servers
    → (servers' : List (Server p)) × (tick_servers servers ≡ ok servers')
      × AllInv strict 0 (t + 1) servers'
      × (held_all servers' ≡ held_all servers)
      × (length servers' ≡ length servers)
unfolding tick_servers
tick_servers_lem [] t inv = ([], refl, tt, refl, refl)
tick_servers_lem (s ∷ servers) t inv =
    let (b, ticked, k) = server_tick-Ticked t (base s) inv.0.based in
    let (servers', runs, inv', same, size) = tick_servers_lem servers t inv.1 in
    (
      with_base s b ∷ servers',
      rw (ticked, runs) refl,
      (with_base-ServerInv s b inv.0 k.inv k.table, inv'),
      rw (held-with_base s b, k.finished, k.current, same) refl,
      ap suc size,
    )
