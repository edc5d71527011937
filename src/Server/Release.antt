-- ===== src/Server/Release.antt =====
-- `server_free` of src/server.c, and the clients that a server holds.
use aca_bsim.Common.{
  reverse, ℕ, ◌≡◌, refl, List, [], ◌∷◌, ◌++◌, Option, none, some, true, Result, ok, arith,
  length-append, count-append, SameItems, SameItems-trans, SameItems-refl, SameItems-append,
  SameItems-reverse, Bool,
}
use aca_bsim.Platform.{Platform}
use aca_bsim.Queue.Ops.{Queue, queue_free}
use aca_bsim.Queue.Layout.{IsValid, contents}
use aca_bsim.Queue.Iterate.{queue_free-Layout}
use aca_bsim.Server.Types.{BaseServer, Server, standard, robotic, invalid}
use aca_bsim.Server.Accounts.{server_base_free, server_free}
use aca_bsim.Server.Held.{held, current_list, ServerInv}

-- A call that frees each client of a list as often as it stands there.
pub record Frees (r : Result (List ℕ)) (xs : List ℕ) : Type 0 where
  pub freed : List ℕ
  pub runs : r ≡ ok freed
  pub same : SameItems freed xs

pub queue_free-Frees : (q : Queue ℕ) → IsValid q → Frees (queue_free (some q) true) (contents q)
queue_free-Frees q v = record {
  freed = reverse (contents q);
  runs = (queue_free-Layout q (contents q) v).0;
  same = SameItems-reverse (contents q);
}

module _ {p : Platform} where
  base_free_at :
      (b : BaseServer p) (current : Option ℕ)
      → b.current_client ≡ current
      → IsValid b.finished_clients_queue
      → Frees (server_base_free b) (contents b.finished_clients_queue ++ current_list current)
  unfolding server_base_free
  base_free_at b none e v =
      let f = queue_free-Frees b.finished_clients_queue v in
      record {
        freed = f.freed;
        runs = rw (f.runs, e) refl;
        same = record {
          lengths =
              omega (arith, f.same.lengths, length-append (contents b.finished_clients_queue) []);
          counts = λ a.
              omega (arith, f.same.counts a, count-append a (contents b.finished_clients_queue) []);
        };
      }
  base_free_at b (some c) e v =
      let f = queue_free-Frees b.finished_clients_queue v in
      record {
        freed = f.freed ++ c ∷ [];
        runs = rw (f.runs, e) refl;
        same = SameItems-append f.same (SameItems-refl (c ∷ []));
      }

  -- On a well-formed server `server_free` returns without a fault and frees the finished, the
  -- current and the waiting clients of the server, each as often as the server holds it.
  pub server_free-Frees :
      {strict : Bool} {low t : ℕ} (s : Server p)
      → ServerInv strict low t s
      → Frees (server_free s) (held s)
  unfolding server_free
  server_free-Frees (standard s) inv =
      let f = base_free_at s.base s.base.current_client refl inv.based.finished in
      let w = queue_free-Frees s.client_queue inv.queues in
      let own = contents s.base.finished_clients_queue in
      let cur = current_list s.base.current_client in
      record {
        freed = f.freed ++ w.freed;
        runs = rw (f.runs, w.runs) refl;
        same = SameItems-trans (SameItems-append f.same w.same) (record {
          lengths = simp length-append (omega arith);
          counts = λ a. simp count-append (omega arith);
        });
      }
  server_free-Frees (robotic s) inv =
      let f = base_free_at s.base s.base.current_client refl inv.based.finished in
      let n = queue_free-Frees s.normal_client_queue inv.queues.1 in
      let d = queue_free-Frees s.disable_client_queue inv.queues.0 in
      record {
        freed = f.freed ++ (n.freed ++ d.freed);
        runs = rw (f.runs, n.runs, d.runs) refl;
        same = SameItems-trans (SameItems-append f.same (SameItems-append n.same d.same)) (record {
          lengths = simp length-append (omega arith);
          counts = λ a. simp count-append (omega arith);
        });
      }
  server_free-Frees (invalid b) inv = absurd inv.queues
