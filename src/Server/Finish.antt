-- ===== src/Server/Finish.antt =====
-- The end of a service and its retry (src/server.c).
use aca_bsim.Common.{
  ℕ, suc, ◌+◌, ◌<◌, ◌^◌, ◌≡◌, refl, sym, ap, ◌∙◌, subst, [], ◌∷◌, ◌++◌, append_assoc, none, some,
  true, Result, inl, inr, ok, arith, length, length-append, Bool,
}
use aca_bsim.Common.Int.{pos}
use aca_bsim.Platform.{Platform}
use aca_bsim.Client.{Client, Heap, write}
use aca_bsim.Queue.Ops.{Queue, push}
use aca_bsim.Queue.Layout.{IsValid, contents}
use aca_bsim.Queue.Refine.{push-IsValid}
use aca_bsim.Server.Types.{BaseServer, Server, base, with_base}
use aca_bsim.Server.Table.{get_service_time}
use aca_bsim.Server.Serve.{
  server_finalize_current_client, retry_client, server_retry, count_failure,
}
use aca_bsim.Client.Known.{IsListed, AllListed}
use aca_bsim.Server.Held.{
  Tally-suc, held, waiting, current_list, ServerInv, Good, with_base-ServerInv, held-with_base,
  base-with_base, Summed-settled,
}
use aca_bsim.Server.Kin.{Kin, with_base-Kin, waiting-with_base}
use aca_bsim.Server.Turn.{write-Keeps, AllListed-middle}

-- The base of a server whose client is finished.
abbrev pub finished_base : {p : Platform} → BaseServer p → Queue ℕ → BaseServer p
finished_base b q = record b {
  stat = record b.stat { client_served = b.stat.client_served + 1 };
  finished_clients_queue = q;
  current_client = none;
}

-- What `server_finalize_current_client` leaves of a server.
pub record Finalized {p : Platform} (strict : Bool) (t : ℕ) (s : Server p) (c : ℕ) : Type 0 where
  pub server : Server p
  pub runs : server_finalize_current_client p true s ≡ ok (server, c)
  pub inv : ServerInv strict 1 t server
  pub idle : (base server).current_client ≡ none
  pub same : held server ≡ held s
  pub finished :
      contents (base server).finished_clients_queue
      ≡ contents (base s).finished_clients_queue ++ c ∷ []
  pub waits : waiting server ≡ waiting s
  pub kin : Kin s server

-- A service that has been started again.
pub record Retried {p : Platform} (strict : Bool) (t : ℕ) (heap : Heap) (s : Server p) (c : ℕ)
    (r : Result (Heap × Server p)) : Type 0 where
  pub good : Good strict 1 t heap s r
  pub kin : Kin s good.server'
  pub finished :
      contents (base good.server').finished_clients_queue ≡ contents (base s).finished_clients_queue
  pub serves : (base good.server').current_client ≡ some c
  pub ticks : get_service_time p s (heap c) ≡ ok (base good.server').to_serve
  pub waits : waiting good.server' ≡ waiting s

IsListed-count_failure : (p : Platform) (k : Client) → IsListed k → IsListed (count_failure p k)
IsListed-count_failure p k l = record { disability = l.disability; destination = l.destination }

module _ {p : Platform} {strict : Bool} {low t : ℕ} where
  finalize_with :
      (s : Server p) (c : ℕ) (q : Queue ℕ)
      → ServerInv strict low t s
      → (base s).current_client ≡ some c
      → push true (base s).finished_clients_queue c ≡ ok (q, true)
      → IsValid q
      → contents q ≡ contents (base s).finished_clients_queue ++ c ∷ []
      → Finalized strict t s c
  unfolding server_finalize_current_client
  finalize_with s c q inv e pushed v grown = record {
    server = with_base s (finished_base (base s) q);
    runs = rw (e, server_finalize_current_client, pushed) refl;
    inv =
        with_base-ServerInv s (finished_base (base s) q) inv
          (record {
            finished = v;
            served =
                Tally-suc _ (base s).stat.client_served
                  (length (contents (base s).finished_clients_queue)) (length (contents q))
                  (omega (
                    arith,
                    ap length grown,
                    length-append (contents (base s).finished_clients_queue) (c ∷ []),
                  ))
                  inv.based.served;
            elapsed = inv.based.elapsed;
            sum = Summed-settled inv.based.sum;
            mean = inv.based.mean;
            busy = inl refl;
          })
          refl;
    idle = ap (λ b. b.current_client) (base-with_base s (finished_base (base s) q));
    same = rw (held-with_base s (finished_base (base s) q), grown, e, append_assoc) refl;
    finished =
        ap (λ b. contents b.finished_clients_queue) (base-with_base s (finished_base (base s) q))
        ∙ grown;
    waits = waiting-with_base s (finished_base (base s) q);
    kin = with_base-Kin s (finished_base (base s) q) inv refl refl;
  }

  -- On a well-formed server with a current client, fewer than 2 ^ 31 clients and the push
  -- granted, `server_finalize_current_client` returns that client and a well-formed server that
  -- is idle and holds the same clients in the same order, with the same clients waiting and its
  -- service times and error probability as before.
  pub finalize_lem :
      (s : Server p) (c : ℕ)
      → ServerInv strict low t s
      → (base s).current_client ≡ some c
      → length (held s) < 2 ^ 31
      → Finalized strict t s c
  finalize_lem s c inv e h =
      let (q, pushed, v, grown) =
        push-IsValid (base s).finished_clients_queue c inv.based.finished (
          omega (
            arith,
            length-append (contents (base s).finished_clients_queue)
                (current_list (base s).current_client ++ waiting s),
          )) in
      finalize_with s c q inv e pushed v grown

  retry_with :
      (heap : Heap) (s : Server p) (c n : ℕ)
      → ServerInv strict low t s
      → (base s).current_client ≡ some c
      → get_service_time p s (count_failure p (heap c)) ≡ ok (pos (suc n))
      → Retried strict t heap s c (server_retry p heap s)
  unfolding server_retry retry_client get_service_time
  retry_with heap s c n inv e time = record {
    good = record {
      heap' = write heap c (count_failure p (heap c));
      server' = with_base s again;
      runs = ap (retry_client p heap s) e ∙ retried;
      inv =
          with_base-ServerInv s again inv
            (record {
              finished = inv.based.finished;
              served = inv.based.served;
              elapsed = inv.based.elapsed;
              sum = Summed-settled inv.based.sum;
              mean = inv.based.mean;
              busy = inr (suc n, refl, omega arith);
            })
            refl;
      same = rw (held-with_base s again) refl;
      keeps = write-Keeps heap c (count_failure p (heap c)) refl refl refl;
    };
    kin = with_base-Kin s again inv refl refl;
    finished = ap (λ b. contents b.finished_clients_queue) (base-with_base s again);
    serves = ap (λ b. b.current_client) (base-with_base s again) ∙ e;
    ticks = time ∙ ap (λ b. ok b.to_serve) (sym (base-with_base s again));
    waits = waiting-with_base s again;
  }
    where
      again : BaseServer p
      again = record (base s) {
        stat = record ((base s).stat) { failure_count = (base s).stat.failure_count + 1 };
        to_serve = pos (suc n);
      }

      retried :
          retry_client p heap s (some c)
          ≡ ok (write heap c (count_failure p (heap c)), with_base s again)
      retried = rw time refl

  pub retry-Retried :
      (heap : Heap) (s : Server p) (c : ℕ)
      → ServerInv strict low t s
      → (base s).current_client ≡ some c
      → AllListed heap (held s)
      → Retried strict t heap s c (server_retry p heap s)
  retry-Retried heap s c inv e all =
      let (n, time) =
        inv.timely (count_failure p (heap c)) (IsListed-count_failure p (heap c) listed) in
      retry_with heap s c n inv e time
    where
      listed : IsListed (heap c)
      listed = AllListed-middle heap (contents (base s).finished_clients_queue) (waiting s) c (
          subst
            (λ ys. AllListed heap (contents (base s).finished_clients_queue ++ (ys ++ waiting s)))
            (ap current_list e) all)
