-- ===== src/System/Follow/Order.antt =====
-- What ticks of src/system.c do to each server, seen as a machine, and the order in which clients are
-- finished.
use aca_bsim.Common.{
  ℕ, ◌+◌, ◌≡◌, refl, List, [], ◌∷◌, ◌++◌, true, Result, arith, length, Yields-ok, ◌≤◌,
}
use aca_bsim.Platform.{Platform}
use aca_bsim.Client.{Heap}
use aca_bsim.Client.Known.{AllListed}
use aca_bsim.Queue.Layout.{contents}
use aca_bsim.Server.Types.{Server, standard, robotic, invalid, base}
use aca_bsim.Server.Held.{held, most}
use aca_bsim.Server.Kin.{Kin-refl}
use aca_bsim.Server.Machine.{here, Reach-finished, Reach-all_of}
use aca_bsim.System.Types.{System, Tick}
use aca_bsim.System.Simulate.{run_ticks}
use aca_bsim.System.Admit.{everyone, SystemInv, Granted, Passed, SameKind-refl}
use aca_bsim.System.Run.{run_ticks-Passed}
use aca_bsim.System.Follow.Joined.{Reached, AllReached, SystemReached}
use aca_bsim.System.Follow.Run.{run_ticks-Reached}

-- `n` ticks that passed, each server reached by the machine.
pub record Followed {p : Platform} (n t : ℕ) (heap : Heap) (y : System p)
    (r : Result (Heap × System p)) : Type 0 where
  pub passed : Passed true (t + n) heap y r
  pub reached : SystemReached heap n y passed.system'

-- First come, first served at a standard server: those who joined are behind all from before.
abbrev pub HeldInOrder : {p : Platform} → Server p → Server p → Type 0
HeldInOrder (standard s) s' = (joined : List ℕ) × (held s' ≡ held (standard s) ++ joined)
HeldInOrder (robotic s) s' = Unit
HeldInOrder (invalid b) s' = Unit

-- Who was finished at a server is so still, in the same order, before those who were finished later.
pub record InOrder {p : Platform} (s s' : Server p) : Type 0 where
  pub later : List ℕ
  pub finished :
      contents (base s').finished_clients_queue ≡ contents (base s).finished_clients_queue ++ later
  pub in_order : HeldInOrder s s'

abbrev pub AllInOrder : {p : Platform} → List (Server p) → List (Server p) → Type 0
AllInOrder [] [] = Unit
AllInOrder (s ∷ ss) (s' ∷ ss') = InOrder s s' × AllInOrder ss ss'
AllInOrder [] (s' ∷ ss') = ⊥
AllInOrder (s ∷ ss) [] = ⊥

-- `n` ticks that passed, with the clients of each server in order.
pub record Ordered {p : Platform} (n t : ℕ) (heap : Heap) (y : System p)
    (r : Result (Heap × System p)) : Type 0 where
  pub passed : Passed true (t + n) heap y r
  pub standard_order : AllInOrder y.standard_servers passed.system'.standard_servers
  pub robotic_order : AllInOrder y.robotic_servers passed.system'.robotic_servers

module _ {p : Platform} where
  start-AllReached : (heap : Heap) (ss : List (Server p)) → AllReached heap 0 ss ss
  start-AllReached heap [] = tt
  start-AllReached heap (s ∷ ss) =
      (record { kin = Kin-refl s; clients = []; reach = here }, start-AllReached heap ss)

  Reached-HeldInOrder :
      (heap : Heap) (n : ℕ) (s s' : Server p) → Reached heap n s s' → HeldInOrder s s'
  Reached-HeldInOrder heap n (standard s) s' r = (r.clients, Reach-all_of r.reach)
  Reached-HeldInOrder heap n (robotic s) s' r = tt
  Reached-HeldInOrder heap n (invalid b) s' r = tt

  AllReached-AllInOrder :
      (heap : Heap) (n : ℕ) (ss ss' : List (Server p))
      → AllReached heap n ss ss'
      → AllInOrder ss ss'
  AllReached-AllInOrder heap n [] [] all = tt
  AllReached-AllInOrder heap n (s ∷ ss) (s' ∷ ss') all =
      let (ys, e) = Reach-finished all.0.reach in
      (
        record { later = ys; finished = e; in_order = Reached-HeldInOrder heap n s s' all.0 },
        AllReached-AllInOrder heap n ss ss' all.1,
      )
  AllReached-AllInOrder heap n [] (s' ∷ ss') all = absurd all
  AllReached-AllInOrder heap n (s ∷ ss) [] all = absurd all

module _ {p : Platform} (ticks : ℕ → Tick) (n now t : ℕ) (heap : Heap) (y : System p)
    (inv : SystemInv true t y) (granted : (i : ℕ) → Granted (ticks i))
    (listed : AllListed heap (everyone y)) (few : length (everyone y) ≤ most)
    (early : t + n ≤ most) where
  -- From a system well formed after t ticks, with every push granted, all clients of known kinds
  -- and at most 46340 of them, and t + n at most 46340, n ticks pass without a fault and leave a
  -- system well formed after t + n ticks that holds the same clients, each as often. Each server,
  -- seen as the clients finished, the one being served with the ticks to go, and those who wait,
  -- has then taken n rounds of the abstract machine, each a tick less to go and a step, between
  -- which clients may have joined those who wait: behind all of them at a standard server.
  pub run_ticks-Followed : Followed n t heap y (run_ticks ticks n now heap y)
  run_ticks-Followed =
      let a =
        run_ticks-Passed true ticks n now t (t + n) heap y refl inv (λ i e. granted i) listed few
          early in
      record {
        passed = a;
        reached = Yields-ok _ a.runs (
            run_ticks-Reached heap y ticks n 0 n now t heap y (omega arith) inv granted listed few
              early (SameKind-refl heap)
              (record {
                standard_reached = start-AllReached heap y.standard_servers;
                robotic_reached = start-AllReached heap y.robotic_servers;
              }));
      }

  -- From a system well formed after t ticks, with every push granted, all clients of known kinds
  -- and at most 46340 of them, and t + n at most 46340, n ticks pass without a fault and leave a
  -- system well formed after t + n ticks that holds the same clients, each as often. At each
  -- server, the clients finished before are still finished, in the same order, ahead of those
  -- finished later; at a standard server, the finished, then the one being served, then those who
  -- wait are as before the ticks, followed by the clients who have joined.
  pub run_ticks-Ordered : Ordered n t heap y (run_ticks ticks n now heap y)
  run_ticks-Ordered =
      let a = run_ticks-Followed in
      record {
        passed = a.passed;
        standard_order = AllReached-AllInOrder heap n _ _ a.reached.standard_reached;
        robotic_order = AllReached-AllInOrder heap n _ _ a.reached.robotic_reached;
      }
