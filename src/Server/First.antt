-- ===== src/Server/First.antt =====
-- `standard_server_set_next_client` of src/server.c, and the client who waits first.
use aca_bsim.Common.{
  ℕ, suc, ◌≡◌, refl, subst, ap₂, List, [], ◌∷◌, ◌++◌, Option, none, some, Bool, Result, ok,
}
use aca_bsim.Common.Int.{ℤ, pos}
use aca_bsim.Platform.{Platform}
use aca_bsim.Client.{Heap}
use aca_bsim.Queue.Layout.{contents}
use aca_bsim.Server.Types.{StandardServer, Server, standard, base}
use aca_bsim.Server.Table.{get_service_time}
use aca_bsim.Server.Serve.{
  start_service, serving, no_client, server_set_next_client, standard_server_set_next_client,
}
use aca_bsim.Client.Known.{IsListed, AllListed, Keeps-refl}
use aca_bsim.Server.Held.{held, waiting, current_list, ServerInv, Good, standard-IsTimely}
use aca_bsim.Server.Kin.{Kin, standard-Kin}
use aca_bsim.Server.Turn.{
  take_next-IsValid, queue_size-zero, start_service-Keeps, AllListed-middle, no_client-BaseInv,
  serving-BaseInv,
}

abbrev pub first_of_list : List ℕ → Option ℕ
first_of_list [] = none
first_of_list (x ∷ xs) = some x

abbrev pub rest_of_list : List ℕ → List ℕ
rest_of_list [] = []
rest_of_list (x ∷ xs) = xs

-- The service time of the first of some clients.
abbrev pub first_time : {p : Platform} → Heap → Server p → List ℕ → Result ℤ
first_time heap s [] = ok (pos 0)
first_time {p} heap s (x ∷ xs) = get_service_time p s (heap x)

-- A good step after which the client that waited first is served, and the others wait as before.
pub record ServesFirst {p : Platform} (strict : Bool) (t : ℕ) (heap : Heap) (s : Server p)
    (r : Result (Heap × Server p)) : Type 0 where
  pub good : Good strict 1 t heap s r
  pub serves : (base good.server').current_client ≡ first_of_list (waiting s)
  pub finished :
      contents (base good.server').finished_clients_queue ≡ contents (base s).finished_clients_queue
  pub others : waiting good.server' ≡ rest_of_list (waiting s)
  pub ticks : first_time heap s (waiting s) ≡ ok (base good.server').to_serve
  pub kin : Kin s good.server'

-- The client who waits first at an idle server is one of those who are of known kinds.
pub first-IsListed :
    {p : Platform} (heap : Heap) (s : Server p) (x : ℕ) (xs : List ℕ)
    → (base s).current_client ≡ none
    → waiting s ≡ x ∷ xs
    → AllListed heap (held s)
    → IsListed (heap x)
first-IsListed heap s x xs idle waits all =
    let finished = contents (base s).finished_clients_queue in
    AllListed-middle heap finished xs x (
      subst (λ ys. AllListed heap (finished ++ ys)) (ap₂ (λ o ys. current_list o ++ ys) idle waits)
        all)

module _ {p : Platform} {strict : Bool} (granted : Bool) (heap : Heap) (now t low : ℕ) where
  pub standard_next :
      (s : StandardServer p)
      → ServerInv strict low t (standard s)
      → s.base.current_client ≡ none
      → AllListed heap (held (standard s))
      → (xs : List ℕ) → contents s.client_queue ≡ xs
      → ServesFirst strict t heap
          (standard s)
          (server_set_next_client p granted heap (standard s) now)
  unfolding server_set_next_client standard_server_set_next_client
  standard_next s inv idle all [] e = record {
    good = record {
      heap' = heap;
      server' = standard (record s { base = no_client p s.base });
      runs = rw (queue_size-zero s.client_queue [] inv.queues e) refl;
      inv = record {
        based = no_client-BaseInv inv.based;
        queues = inv.queues;
        timely = standard-IsTimely s _ refl inv.timely;
      };
      same = rw idle refl;
      keeps = Keeps-refl heap;
    };
    serves = rw e refl;
    others = rw e refl;
    ticks = rw e refl;
    finished = refl;
    kin = standard-Kin s _ refl refl;
  }
  standard_next s inv idle all (x ∷ xs) e =
      let (q', took, v, e') = take_next-IsValid granted s.client_queue x xs inv.queues e in
      let (n, time) = inv.timely (heap x) (first-IsListed heap (standard s) x xs idle e all) in
      record {
        good = record {
          heap' = start_service heap x now;
          server' =
              standard (record s { base = serving p s.base x (pos (suc n)); client_queue = q' });
          runs = rw (queue_size-zero s.client_queue (x ∷ xs) inv.queues e, took, time) refl;
          inv = record {
            based = serving-BaseInv x n inv.based;
            queues = v;
            timely = standard-IsTimely s _ refl inv.timely;
          };
          same = rw (idle, e, e') refl;
          keeps = start_service-Keeps heap x now;
        };
        serves = rw e refl;
        others = rw e e';
        ticks = rw e time;
        finished = refl;
        kin = standard-Kin s _ refl refl;
      }
