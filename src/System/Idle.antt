-- ===== src/System/Idle.antt =====
-- Idle servers, and the runs of src/system.c in which nobody arrives any more.
use aca_bsim.Common.{
  ℕ, ◌+◌, ◌≤◌, ◌≡◌, refl, ap₂, ◌∙◌, List, [], ◌∷◌, ◌++◌, append-nil, Option, none, some, Result, ok,
  arith, length, sym, true,
}
use aca_bsim.Platform.{Platform}
use aca_bsim.Client.{Heap}
use aca_bsim.Queue.Layout.{contents}
use aca_bsim.Server.Types.{Server, base}
use aca_bsim.Client.Known.{AllListed}
use aca_bsim.Server.Held.{held, waiting, current_list, ServerInv, most}
use aca_bsim.Server.Left.{left, left_at, under_way}
use aca_bsim.Server.Ticked.{busy_some}
use aca_bsim.System.Types.{System, Tick}
use aca_bsim.System.Simulate.{run_ticks}
use aca_bsim.System.Served.{held_all, AllInv}
use aca_bsim.System.Arrive.{at_servers}
use aca_bsim.System.Reported.{served}
use aca_bsim.System.Within.{AllWithin}
use aca_bsim.System.Drained.{Closing, LuckyTick, run_ticks-Closed}

-- A server that serves nobody and at which nobody waits.
pub record IsIdle {p : Platform} (s : Server p) : Type 0 where
  pub current : (base s).current_client ≡ none
  pub waits : waiting s ≡ []

abbrev pub AllIdle : {p : Platform} → List (Server p) → Type 0
AllIdle [] = Unit
AllIdle (s ∷ servers) = IsIdle s × AllIdle servers

module _ {p : Platform} where
  left-IsIdle :
      (heap : Heap) (t : ℕ) (s : Server p) (o : Option ℕ) (xs : List ℕ)
      → ServerInv true 1 t s
      → (base s).current_client ≡ o
      → waiting s ≡ xs
      → left heap s ≤ 0
      → IsIdle s
  left-IsIdle heap t s none [] inv current waits none_left = record {
    current = current;
    waits = waits;
  }
  left-IsIdle heap t s none (c ∷ xs) inv current waits none_left =
      absurd (
        omega (arith, none_left, ap₂ (λ o ys. left_at heap s o (base s).to_serve ys) current waits))
  left-IsIdle heap t s (some c) xs inv current waits none_left =
      let (n, to_go, low) = busy_some c inv.based.busy current in
      absurd (omega (arith, none_left, low, ap₂ (λ o z. under_way o z) current to_go))

  all_idle :
      (e : p.Double) (heap : Heap) (t : ℕ) (ss : List (Server p))
      → AllInv true 1 t ss
      → AllWithin e heap 0 ss
      → AllIdle ss
  all_idle e heap t [] inv within = tt
  all_idle e heap t (s ∷ ss) inv within = (
    left-IsIdle heap t s (base s).current_client (waiting s) inv.0 refl refl within.1,
    all_idle e heap t ss inv.1 within.2,
  )

  held-IsIdle : (s : Server p) → IsIdle s → held s ≡ contents (base s).finished_clients_queue
  held-IsIdle s idle =
      let fin = contents (base s).finished_clients_queue in
      ap₂ (λ o xs. fin ++ (current_list o ++ xs)) idle.current idle.waits ∙ append-nil fin

  held_all-AllIdle : (ss : List (Server p)) → AllIdle ss → held_all ss ≡ served ss
  held_all-AllIdle [] idle = refl
  held_all-AllIdle (s ∷ ss) idle =
      ap₂ (λ xs ys. xs ++ ys) (held-IsIdle s idle.0) (held_all-AllIdle ss idle.1)

-- All have been served: no server has anybody left, and the clients served are those who were at
-- servers, in order.
pub record AllServed {p : Platform} (y : System p) (r : Result (Heap × System p)) : Type 0 where
  pub heap' : Heap
  pub system' : System p
  pub runs : r ≡ ok (heap', system')
  pub standard_idle : AllIdle system'.standard_servers
  pub robotic_idle : AllIdle system'.robotic_servers
  pub all : served system'.standard_servers ++ served system'.robotic_servers ≡ at_servers y

-- From a well-formed system to which nobody comes any more, at most n ticks from having served
-- the current and waiting clients of each server, where an idle server takes a tick to begin,
-- with all clients of known kinds and at most 46340 of them, at most 46340 ticks in all with
-- those before, every push granted and no service failing, n ticks pass without a fault and leave
-- every server idle with nobody waiting; the clients in the queues of the finished, server by
-- server, are then those who were at servers, in order: first the finished, then the one being
-- served, then those who waited, the disabled before the others.
pub run_ticks-AllServed :
    {p : Platform} (e : p.Double) (ticks : ℕ → Tick) (n now t : ℕ) (heap : Heap) (y : System p)
    → ((i : ℕ) → LuckyTick p e (ticks i))
    → Closing e n t heap y
    → AllListed heap (at_servers y)
    → length (at_servers y) ≤ most
    → t + n ≤ most
    → AllServed y (run_ticks ticks n now heap y)
run_ticks-AllServed e ticks n now t heap y lucky closing at h early =
    let r = run_ticks-Closed e ticks n now t (t + n) heap y refl lucky closing at h early in
    let idle_s =
      all_idle e r.heap' (t + n) r.system'.standard_servers r.closing.standard_inv
        r.closing.standard_within in
    let idle_r =
      all_idle e r.heap' (t + n) r.system'.robotic_servers r.closing.robotic_inv
        r.closing.robotic_within in
    record {
      heap' = r.heap';
      system' = r.system';
      runs = r.runs;
      standard_idle = idle_s;
      robotic_idle = idle_r;
      all =
          sym (
            ap₂ (λ xs ys. xs ++ ys) (held_all-AllIdle r.system'.standard_servers idle_s)
              (held_all-AllIdle r.system'.robotic_servers idle_r))
          ∙ r.same;
    }
