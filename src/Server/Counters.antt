-- ===== src/Server/Counters.antt =====
-- The counters in the statistics of a server of src/server.c through one service step.
use aca_bsim.Common.{
  ℕ, ◌+◌, ◌≤◌, ◌≡◌, refl, sym, ◌∙◌, subst, Option, none, some, Bool, not, ◌==◌, arith, Yields,
  bind-Yields, bind-Yields_from, if-Yields,
}
use aca_bsim.Common.Int.{pos, ltb_ℤ}
use aca_bsim.Platform.{Platform}
use aca_bsim.Queue.Ops.{queue_size, push}
use aca_bsim.Client.{Heap}
use aca_bsim.Server.Types.{
  BaseServer, ServerStat, Server, StandardServer, RoboticServer, standard, robotic, invalid, base,
  with_base,
}
use aca_bsim.Server.Table.{get_service_time}
use aca_bsim.Server.Serve.{
  assert, take_next, server_set_next_client, standard_server_set_next_client,
  robotic_server_set_next_client, server_finalize_current_client, server_retry, retry_client,
  count_failure,
}
use aca_bsim.Server.Held.{base-with_base}

-- At most `n` failures more, and the same queue lengths.
pub record Moves (n : ℕ) (a b : ServerStat) : Type 0 where
  pub failures : b.failure_count ≤ a.failure_count + n
  pub sum : b.sum_queue_lens ≡ a.sum_queue_lens
  pub mean : b.mean_server_queue_len ≡ a.mean_server_queue_len

pub Moves-refl : (a : ServerStat) → Moves 0 a a
Moves-refl a = record { failures = omega arith; sum = refl; mean = refl }

pub Moves-trans : {n : ℕ} {a b c : ServerStat} → Moves 0 a b → Moves n b c → Moves n a c
Moves-trans k l = record {
  failures = omega (arith, k.failures, l.failures);
  sum = l.sum ∙ k.sum;
  mean = l.mean ∙ k.mean;
}

module _ {p : Platform} where
  -- A step that leaves a server with such counters, if it passes.
  abbrev pub After : {A : Type 0} → ℕ → Server p → A × Server p → Type 0
  After n s r = Moves n (base s).stat (base r.1).stat

  standard-After :
      (granted : Bool) (heap : Heap) (s : StandardServer p) (now : ℕ)
      → Yields
          (λ r. Moves 0 s.base.stat r.1.base.stat)
          (standard_server_set_next_client p granted heap s now)
  unfolding standard_server_set_next_client
  standard-After granted heap s now =
      if-Yields _ (not (queue_size (some s.client_queue) == 0)) _ _
        (bind-Yields _ (take_next granted s.client_queue) _ λ r.
          bind-Yields _ (get_service_time p (standard s) (heap r.0)) _
            λ time. Moves-refl s.base.stat)
        (Moves-refl s.base.stat)

  robotic-After :
      (granted : Bool) (heap : Heap) (s : RoboticServer p) (now : ℕ)
      → Yields
          (λ r. Moves 0 s.base.stat r.1.base.stat)
          (robotic_server_set_next_client p granted heap s now)
  unfolding robotic_server_set_next_client
  robotic-After granted heap s now =
      if-Yields _ (not (queue_size (some s.disable_client_queue) == 0)) _ _
        (bind-Yields _ (take_next granted s.disable_client_queue) _ λ r.
          bind-Yields _ (get_service_time p (robotic s) (heap r.0)) _
            λ time. bind-Yields _ (assert (ltb_ℤ (pos 0) time)) _ λ u. Moves-refl s.base.stat)
        (if-Yields _ (not (queue_size (some s.normal_client_queue) == 0)) _ _
          (bind-Yields _ (take_next granted s.normal_client_queue) _ λ r.
            bind-Yields _ (get_service_time p (robotic s) (heap r.0)) _
              λ time. bind-Yields _ (assert (ltb_ℤ (pos 0) time)) _ λ u. Moves-refl s.base.stat)
          (Moves-refl s.base.stat))

  pub set_next-After :
      (granted : Bool) (heap : Heap) (s : Server p) (now : ℕ)
      → Yields (After 0 s) (server_set_next_client p granted heap s now)
  unfolding server_set_next_client
  set_next-After granted heap (standard s) now =
      bind-Yields_from _ _ (standard_server_set_next_client p granted heap s now) _
        (standard-After granted heap s now) (λ r moved. moved)
  set_next-After granted heap (robotic s) now =
      bind-Yields_from _ _ (robotic_server_set_next_client p granted heap s now) _
        (robotic-After granted heap s now) (λ r moved. moved)
  set_next-After granted heap (invalid b) now = tt

  pub with_base-Moves :
      {n : ℕ} (s : Server p) (b : BaseServer p)
      → Moves n (base s).stat b.stat
      → Moves n (base s).stat (base (with_base s b)).stat
  with_base-Moves {n} s b k = subst (λ z. Moves n (base s).stat z.stat) (sym (base-with_base s b)) k

  finalize_at :
      (granted : Bool) (s : Server p) (o : Option ℕ)
      → (base s).current_client ≡ o
      → Yields
          (λ r. Moves 0 (base s).stat (base r.0).stat)
          (server_finalize_current_client p granted s)
  unfolding server_finalize_current_client
  finalize_at granted s none e = rw (e, Yields) tt
  finalize_at granted s (some c) e =
      rw (e, Yields)
        (bind-Yields _ (push granted (base s).finished_clients_queue c) _
          λ r. with_base-Moves s _ (record { failures = omega arith; sum = refl; mean = refl }))

  pub finalize-Moves :
      (granted : Bool) (s : Server p)
      → Yields
          (λ r. Moves 0 (base s).stat (base r.0).stat)
          (server_finalize_current_client p granted s)
  finalize-Moves granted s = finalize_at granted s (base s).current_client refl

  retry_at :
      (heap : Heap) (s : Server p) (o : Option ℕ) → Yields (After 1 s) (retry_client p heap s o)
  unfolding retry_client
  retry_at heap s none = tt
  retry_at heap s (some c) =
      bind-Yields _ (get_service_time p s (count_failure p (heap c))) _
        λ time. with_base-Moves s _ (record { failures = omega arith; sum = refl; mean = refl })

  pub retry-After : (heap : Heap) (s : Server p) → Yields (After 1 s) (server_retry p heap s)
  unfolding server_retry
  retry-After heap s = retry_at heap s (base s).current_client
