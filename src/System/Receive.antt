-- ===== src/System/Receive.antt =====
-- The server that a client is assigned to by `assign_client` of src/system.c, and its place in the array.
use aca_bsim.Common.{
  ℕ, zero, suc, ◌^◌, ◌<◌, ◌≡◌, refl, ap, List, [], ◌∷◌, ◌++◌, some, Bool, true, false,
  SameItems-move, Result, ok, arith, length, length-append, get_elem?, SameItems-refl, Remains,
  no_others, SameItems-Remains, Remains-append, Remains-trans,
}
use aca_bsim.Platform.{Platform}
use aca_bsim.Client.{Heap}
use aca_bsim.Server.Types.{Server}
use aca_bsim.Server.Held.{held, ServerInv}
use aca_bsim.Server.Refused.{entered, lost, server_assign_client-Assignment}
use aca_bsim.Server.Load.{server_assign_client}
use aca_bsim.System.Assign.{assign_at}
use aca_bsim.System.Served.{held_all, AllInv}

-- A server that was to take a client in, which is then there, or was lost.
record Received {p : Platform} (strict : Bool) (low t : ℕ) (heap : Heap) (s : Server p) (c : ℕ)
    (granted : Bool) : Type 0 where
  server : Server p
  runs : server_assign_client granted heap s c ≡ ok (server, 0)
  inv : ServerInv strict low t server
  remains : Remains strict (held server) (c ∷ held s)

lost-Remains :
    (strict granted : Bool) (c : ℕ) (xs : List ℕ)
    → (strict ≡ true → granted ≡ true)
    → granted ≡ false
    → Remains strict xs (c ∷ xs)
lost-Remains true granted c xs sure denied = let given = sure refl in absurd (cc)
lost-Remains false granted c xs sure denied =
    no_others (record { lengths = omega arith; counts = λ a. ground arith })

received_lem :
    {p : Platform} (strict : Bool) (low t : ℕ) (heap : Heap) (s : Server p) (c : ℕ) (granted : Bool)
    → (strict ≡ true → granted ≡ true)
    → ServerInv strict low t s
    → length (held s) < 2 ^ 31
    → Received strict low t heap s c granted
received_lem strict low t heap s c granted sure inv h =
    elim (server_assign_client-Assignment granted heap s c inv h) [
      | entered s' r inv' same ↦ record {
        server = s';
        runs = r;
        inv = inv';
        remains = SameItems-Remains strict same;
      }
      | lost q denied its full r ↦ record {
        server = s;
        runs = r;
        inv = inv;
        remains = lost-Remains strict granted c (held s) sure denied;
      }
    ]

pub added_behind :
    (strict : Bool) (xs : List ℕ) (c : ℕ) {ys zs : List ℕ}
    → Remains strict ys (c ∷ zs)
    → Remains strict (xs ++ ys) (c ∷ xs ++ zs)
added_behind strict xs c {ys} {zs} r =
    Remains-trans (Remains-append (SameItems-Remains strict (SameItems-refl xs)) r)
      (SameItems-Remains strict (SameItems-move c xs zs))

-- Servers of which one was to take a client in.
pub record TakenIn {p : Platform} (strict : Bool) (low t : ℕ) (servers : List (Server p)) (c : ℕ)
    (r : Result (List (Server p))) : Type 0 where
  pub servers' : List (Server p)
  pub runs : r ≡ ok servers'
  pub inv : AllInv strict low t servers'
  pub remains : Remains strict (held_all servers') (c ∷ held_all servers)
  pub size : length servers' ≡ length servers

module _ {p : Platform} (strict : Bool) (low t : ℕ) (granted : Bool) (heap : Heap) (c : ℕ) where
  pub assign_at-TakenIn :
      (servers : List (Server p)) (i : ℕ) (s : Server p)
      → get_elem? servers i ≡ some s
      → (strict ≡ true → granted ≡ true)
      → AllInv strict low t servers
      → length (held_all servers) < 2 ^ 31
      → TakenIn strict low t servers c (assign_at granted heap servers i c)
  unfolding assign_at
  assign_at-TakenIn [] i s there sure inv h = absurd (cc)
  assign_at-TakenIn (s ∷ servers) zero s' there sure inv h =
      let both = length-append (held s) (held_all servers) in
      let e = received_lem strict low t heap s c granted sure inv.0 (omega arith) in
      record {
        servers' = e.server ∷ servers;
        runs = rw e.runs refl;
        inv = (e.inv, inv.1);
        remains =
            Remains-append e.remains (SameItems-Remains strict (SameItems-refl (held_all servers)));
        size = refl;
      }
  assign_at-TakenIn (s ∷ servers) (suc i) s' there sure inv h =
      let both = length-append (held s) (held_all servers) in
      let r = assign_at-TakenIn servers i s' there sure inv.1 (omega arith) in
      record {
        servers' = s ∷ r.servers';
        size = ap suc r.size;
        runs = rw r.runs refl;
        inv = (inv.0, r.inv);
        remains = added_behind strict (held s) c r.remains;
      }
