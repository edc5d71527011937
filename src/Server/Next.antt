-- ===== src/Server/Next.antt =====
-- `server_set_next_client` of src/server.c, and the order in which clients wait.
use aca_bsim.Common.{ℕ, suc, ◌≡◌, refl, List, [], ◌∷◌, ◌++◌, none, Bool, true, arith}
use aca_bsim.Common.Int.{pos, ltb_ℤ}
use aca_bsim.Platform.{Platform}
use aca_bsim.Client.{Heap}
use aca_bsim.Queue.Layout.{contents}
use aca_bsim.Server.Types.{RoboticServer, Server, standard, robotic, invalid, base}
use aca_bsim.Server.Serve.{
  start_service, serving, no_client, server_set_next_client, robotic_server_set_next_client,
}
use aca_bsim.Client.Known.{AllListed, Keeps-refl}
use aca_bsim.Server.Held.{held, ServerInv, Good, robotic-IsTimely}
use aca_bsim.Server.Kin.{robotic-Kin}
use aca_bsim.Server.Turn.{
  take_next-IsValid, queue_size-zero, start_service-Keeps, no_client-BaseInv, serving-BaseInv,
}
use aca_bsim.Server.First.{ServesFirst, first-IsListed, standard_next}

positive : (n : ℕ) → ltb_ℤ (pos 0) (pos (suc n)) ≡ true
positive n = ground arith

module _ {p : Platform} {strict : Bool} (granted : Bool) (heap : Heap) (now t low : ℕ) where
  -- A robotic server at which nobody waits, at which no disabled client waits, and at which one does.
  robotic_idle :
      (s : RoboticServer p)
      → ServerInv strict low t (robotic s)
      → s.base.current_client ≡ none
      → contents s.disable_client_queue ≡ []
      → contents s.normal_client_queue ≡ []
      → ServesFirst strict t heap
          (robotic s)
          (server_set_next_client p granted heap (robotic s) now)
  unfolding server_set_next_client robotic_server_set_next_client
  robotic_idle s inv idle e f = record {
    good = record {
      heap' = heap;
      server' = robotic (record s { base = no_client p s.base });
      runs =
          rw
            (
              queue_size-zero s.disable_client_queue [] inv.queues.0 e,
              queue_size-zero s.normal_client_queue [] inv.queues.1 f,
            )
            refl;
      inv = record {
        based = no_client-BaseInv inv.based;
        queues = inv.queues;
        timely = robotic-IsTimely s _ refl refl inv.timely;
      };
      same = rw idle refl;
      keeps = Keeps-refl heap;
    };
    serves = rw (e, f) refl;
    others = rw (e, f) refl;
    ticks = rw (e, f) refl;
    finished = refl;
    kin = robotic-Kin s _ refl refl refl;
  }

  robotic_normal :
      (s : RoboticServer p) (x : ℕ) (ns : List ℕ)
      → ServerInv strict low t (robotic s)
      → s.base.current_client ≡ none
      → AllListed heap (held (robotic s))
      → contents s.disable_client_queue ≡ []
      → contents s.normal_client_queue ≡ x ∷ ns
      → ServesFirst strict t heap
          (robotic s)
          (server_set_next_client p granted heap (robotic s) now)
  unfolding server_set_next_client robotic_server_set_next_client
  robotic_normal s x ns inv idle all e f =
      let (q', took, v, f') = take_next-IsValid granted s.normal_client_queue x ns inv.queues.1 f in
      let (n, time) =
        inv.timely (heap x) (first-IsListed heap (robotic s) x ns idle (rw (e, f) refl) all) in
      record {
        good = record {
          heap' = start_service heap x now;
          server' =
              robotic
                (record s { base = serving p s.base x (pos (suc n)); normal_client_queue = q' });
          runs =
              rw
                (
                  queue_size-zero s.disable_client_queue [] inv.queues.0 e,
                  queue_size-zero s.normal_client_queue (x ∷ ns) inv.queues.1 f,
                  took,
                  time,
                  positive n,
                )
                refl;
          inv = record {
            based = serving-BaseInv x n inv.based;
            queues = (inv.queues.0, v);
            timely = robotic-IsTimely s _ refl refl inv.timely;
          };
          same = rw (idle, e, f, f') refl;
          keeps = start_service-Keeps heap x now;
        };
        serves = rw (e, f) refl;
        others = rw (e, f) f';
        ticks = rw (e, f) time;
        finished = refl;
        kin = robotic-Kin s _ refl refl refl;
      }

  robotic_disabled :
      (s : RoboticServer p) (x : ℕ) (ds : List ℕ)
      → ServerInv strict low t (robotic s)
      → s.base.current_client ≡ none
      → AllListed heap (held (robotic s))
      → contents s.disable_client_queue ≡ x ∷ ds
      → ServesFirst strict t heap
          (robotic s)
          (server_set_next_client p granted heap (robotic s) now)
  unfolding server_set_next_client robotic_server_set_next_client
  robotic_disabled s x ds inv idle all e =
      let (q', took, v, e') =
        take_next-IsValid granted s.disable_client_queue x ds inv.queues.0 e in
      let (n, time) = inv.timely (heap x) (
        first-IsListed heap (robotic s) x (ds ++ contents s.normal_client_queue) idle (rw e refl)
          all) in
      record {
        good = record {
          heap' = start_service heap x now;
          server' =
              robotic
                (record s { base = serving p s.base x (pos (suc n)); disable_client_queue = q' });
          runs =
              rw
                (
                  queue_size-zero s.disable_client_queue (x ∷ ds) inv.queues.0 e,
                  took,
                  time,
                  positive n,
                )
                refl;
          inv = record {
            based = serving-BaseInv x n inv.based;
            queues = (v, inv.queues.1);
            timely = robotic-IsTimely s _ refl refl inv.timely;
          };
          same = rw (idle, e, e') refl;
          keeps = start_service-Keeps heap x now;
        };
        serves = rw e refl;
        others = rw (e, e') refl;
        ticks = rw e time;
        finished = refl;
        kin = robotic-Kin s _ refl refl refl;
      }

  robotic_next :
      (s : RoboticServer p)
      → ServerInv strict low t (robotic s)
      → s.base.current_client ≡ none
      → AllListed heap (held (robotic s))
      → (ds ns : List ℕ) → contents s.disable_client_queue ≡ ds
      → contents s.normal_client_queue ≡ ns
      → ServesFirst strict t heap
          (robotic s)
          (server_set_next_client p granted heap (robotic s) now)
  robotic_next s inv idle all [] [] e f = robotic_idle s inv idle e f
  robotic_next s inv idle all [] (x ∷ ns) e f = robotic_normal s x ns inv idle all e f
  robotic_next s inv idle all (x ∷ ds) ns e f = robotic_disabled s x ds inv idle all e

  -- A well-formed server with no current client, all of whose clients are of known kinds, goes
  -- through `server_set_next_client` without a fault: the client waiting first, a disabled one
  -- before all others at a robotic server, becomes the current one, or there is none if none
  -- waits; its service time, or 0, is what the server has to go; the others wait in the same
  -- order; no client is lost, and the server is well formed with a tick or more to go for its
  -- current client, its service times and error probability as before.
  pub set_next-ServesFirst :
      (s : Server p)
      → ServerInv strict low t s
      → (base s).current_client ≡ none
      → AllListed heap (held s)
      → ServesFirst strict t heap s (server_set_next_client p granted heap s now)
  set_next-ServesFirst (standard s) inv idle all =
      standard_next granted heap now t low s inv idle all (contents s.client_queue) refl
  set_next-ServesFirst (robotic s) inv idle all =
      robotic_next s inv idle all (contents s.disable_client_queue) (contents s.normal_client_queue)
        refl refl
  set_next-ServesFirst (invalid b) inv idle all = absurd inv.queues

  pub set_next-Good :
      (s : Server p)
      → ServerInv strict low t s
      → (base s).current_client ≡ none
      → AllListed heap (held s)
      → Good strict 1 t heap s (server_set_next_client p granted heap s now)
  set_next-Good s inv idle all = (set_next-ServesFirst s inv idle all).good
