-- ===== src/Server/Parted.antt =====
-- `server_finalize_current_client` of src/server.c with every answer of the allocator.
use aca_bsim.Common.{
  ℕ, ◌+◌, ◌^◌, ◌≤◌, ◌<◌, ◌≡◌, refl, ap, ◌∷◌, ◌++◌, [], none, some, Bool, true, false, inl, ok,
  arith, length, length-append, count-append, Among, eq-Among, append_assoc,
}
use aca_bsim.Platform.{Platform}
use aca_bsim.Queue.Ops.{Queue, push}
use aca_bsim.Queue.Layout.{IsValid, contents}
use aca_bsim.Queue.Refused.{stored, refused, push-Answered}
use aca_bsim.Server.Types.{Server, base, with_base}
use aca_bsim.Server.Serve.{server_finalize_current_client}
use aca_bsim.Server.Held.{
  held, waiting, current_list, ServerInv, with_base-ServerInv, held-with_base, base-with_base,
  Summed-settled,
}
use aca_bsim.Server.Finish.{finished_base}

-- What is left of a server whose client is finished: the client may not be in its queue of the
-- finished.
pub record Parted {p : Platform} (t : ℕ) (granted : Bool) (s : Server p) (c : ℕ) : Type 0 where
  pub server : Server p
  pub runs : server_finalize_current_client p granted s ≡ ok (server, c)
  pub inv : ServerInv false 1 t server
  pub idle : (base server).current_client ≡ none
  pub among : Among (held server) (held s)

module _ {p : Platform} {low t : ℕ} (granted : Bool) (s : Server p) (c : ℕ)
    (inv : ServerInv false low t s) (serving : (base s).current_client ≡ some c) where
  finalize_to :
      (q : Queue ℕ) (b : Bool)
      → push granted (base s).finished_clients_queue c ≡ ok (q, b)
      → IsValid q
      → length (contents q) ≤ length (contents (base s).finished_clients_queue) + 1
      → Among (contents q ++ waiting s) (held s)
      → Parted t granted s c
  unfolding server_finalize_current_client
  finalize_to q b pushed v few among = record {
    server = with_base s (finished_base (base s) q);
    runs = rw (serving, server_finalize_current_client, pushed) refl;
    inv =
        with_base-ServerInv s (finished_base (base s) q) inv
          (record {
            finished = v;
            served = omega (arith, few, inv.based.served);
            elapsed = inv.based.elapsed;
            sum = Summed-settled inv.based.sum;
            mean = inv.based.mean;
            busy = inl refl;
          })
          refl;
    idle = ap (λ b. b.current_client) (base-with_base s (finished_base (base s) q));
    among = rw (held-with_base s (finished_base (base s) q)) among;
  }

  -- On a well-formed server with a current client and fewer than 2 ^ 31 clients, and whatever the
  -- allocator answers, `server_finalize_current_client` returns that client and a server that is
  -- idle and well formed, but may have counted more clients as served than its queue of the
  -- finished holds, and that holds no client who was not at the server, and none more often.
  pub finalize-Parted : length (held s) < 2 ^ 31 → Parted t granted s c
  finalize-Parted h =
      let f = (base s).finished_clients_queue in
      let size = length-append (contents f) (current_list (base s).current_client ++ waiting s) in
      elim (push-Answered granted f c inv.based.finished (omega arith)) [
        | stored q pushed v grown ↦
            finalize_to q true pushed v
              (omega (arith, ap length grown, length-append (contents f) (c ∷ [])))
              (eq-Among (rw (grown, serving, append_assoc) refl))
        | refused denied full kept ↦
            finalize_to f false kept inv.based.finished (omega arith) (record {
              lengths = simp length-append (omega arith);
              counts = λ a. simp count-append (omega arith);
            })
      ]
