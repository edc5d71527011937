-- ===== src/System/Rounds.antt =====
-- The counters of the servers through the parts of a tick of src/system.c.
use aca_bsim.Server.Stats.{quotient}
use aca_bsim.Common.{
  ℕ, ◌+◌, ◌*◌, ◌/◌, ◌≤◌, ◌≡◌, refl, ap, some, Bool, ◌==◌, arith, length, length-append, Yields,
  bind-Yields, bind-Yields_from, if-Yields, map-Yields, ◌%◌, ◌^◌, ◌<◌, ◌∙◌, Yields-ok, ok,
}
use native.Mathlib.Nat.{div-le_of_le-mul}
use aca_bsim.Common.Int.{pos, ltb_ℤ, ◌/ℤ◌, add_size, add_size_small}
use aca_bsim.Platform.{Platform, no_disability}
use aca_bsim.Client.{Heap, write, client_finalize}
use aca_bsim.Queue.Ops.{queue_size, push}
use aca_bsim.Queue.Layout.{contents}
use aca_bsim.Queue.Refine.{queue_size-IsValid}
use aca_bsim.Server.Types.{BaseServer, Server, ServerStat, standard, robotic, invalid, base}
use aca_bsim.Server.Load.{
  assign_client_to_standard_server, assign_client_to_robotic_server, server_assign_client,
}
use aca_bsim.Server.Serve.{
  is_some, assert, server_tick, server_is_active, server_is_service_finished,
  server_is_service_successful, server_finalize_current_client,
}
use aca_bsim.Server.Accounts.{
  server_update_stat, standard_server_update_stat, robotic_server_update_stat, add_queue_len,
}
use aca_bsim.Server.Held.{held, ServerInv, Summed}
use aca_bsim.Server.Enter.{held-parts}
use aca_bsim.Server.Counters.{
  Moves, Moves-refl, Moves-trans, After, set_next-After, finalize-Moves, retry-After,
}
use aca_bsim.System.Types.{Luck}
use aca_bsim.System.Tick.{finish_service, serve_client, update_server}

Moves-more : {a b : ServerStat} → Moves 0 a b → Moves 1 a b
Moves-more k = record { failures = omega (arith, k.failures); sum = k.sum; mean = k.mean }

-- After `t` ticks with `m` clients: no more failures than ticks, and queues no longer than `m`.
pub record IsCounted (t m : ℕ) (stat : ServerStat) : Type 0 where
  pub failures : stat.failure_count ≤ t
  pub sum : (k : ℕ) × (stat.sum_queue_lens ≡ pos k) × (k ≤ t * m)
  pub mean : (k : ℕ) × (stat.mean_server_queue_len ≡ pos k) × (k ≤ m)

pub Moves-IsCounted : {t m : ℕ} {a b : ServerStat} → Moves 0 a b → IsCounted t m a → IsCounted t m b
Moves-IsCounted k c = record {
  failures = omega (arith, k.failures, c.failures);
  sum = let (a, e, h) = c.sum in (a, k.sum ∙ e, h);
  mean = let (a, e, h) = c.mean in (a, k.mean ∙ e, h);
}

one_more : (t m : ℕ) → (t + 1) * m ≡ t * m + m
one_more t m = grind arith

module _ {p : Platform} where
  -- `server_tick` counts the tick and nothing else.
  pub server_tick-Moves :
      (b : BaseServer p) → Yields (λ b'. Moves 0 b.stat b'.stat) (server_tick p b)
  unfolding server_tick
  server_tick-Moves b =
      if-Yields _ (is_some b.current_client) _ _
        (bind-Yields _ (assert (ltb_ℤ (pos 0) b.to_serve)) _
          λ u. record { failures = omega arith; sum = refl; mean = refl })
        (record { failures = omega arith; sum = refl; mean = refl })

  finish-After :
      (luck : Luck) (heap : Heap) (s : Server p) (now : ℕ)
      → Yields (After 0 s) (finish_service luck heap s now)
  unfolding finish_service
  finish-After luck heap s now =
      bind-Yields_from _ _ (server_finalize_current_client p luck.granted_push s) _
        (finalize-Moves luck.granted_push s)
        λ r moved.
          map-Yields (After 0 r.0) _ _ (λ a k. Moves-trans moved k)
            (set_next-After luck.granted_pop (write heap r.1 (client_finalize (heap r.1) (pos now)))
              r.0 now)

  pub serve-After :
      (luck : Luck) (heap : Heap) (s : Server p) (now : ℕ)
      → Yields (After 1 s) (serve_client luck heap s now)
  unfolding serve_client
  serve-After luck heap s now =
      if-Yields _ (server_is_active p s) _ _
        (if-Yields _ (server_is_service_finished p s) _ _
          (if-Yields _ (server_is_service_successful p luck.drawn s) _ _
            (map-Yields (After 0 s) _ _ (λ r k. Moves-more k) (finish-After luck heap s now))
            (retry-After heap s))
          (Moves-more (Moves-refl (base s).stat)))
        (map-Yields (After 0 s) _ _ (λ r k. Moves-more k)
          (set_next-After luck.granted_pop heap s now))

  -- The statistics of a tick find the sum of the queue lengths as the tick before left it.
  pub serve-Summed :
      {low t : ℕ} {heap' : Heap} {s' : Server p} (luck : Luck) (heap : Heap) (s : Server p)
      (now : ℕ)
      → serve_client luck heap s now ≡ ok (heap', s')
      → Summed low t (base s).stat.sum_queue_lens
      → Summed low t (base s').stat.sum_queue_lens
  serve-Summed luck heap s now runs h =
      let moved = Yields-ok _ runs (serve-After luck heap s now) in
      record { size = h.size; is_size = moved.sum ∙ h.is_size; small = h.small }

  -- The number of clients who wait, as the queues count them.
  abbrev pub queued : Server p → ℕ
  queued (standard s) = queue_size (some s.client_queue)
  queued (robotic s) =
      (queue_size (some s.normal_client_queue) + queue_size (some s.disable_client_queue)) % 2 ^ 64
  queued (invalid b) = 0

  -- A round: at most one failure more, and the clients who wait now added to the lengths.
  pub record Rounded (now : ℕ) (s s' : Server p) : Type 0 where
    pub failures : (base s').stat.failure_count ≤ (base s).stat.failure_count + 1
    pub sum : (base s').stat.sum_queue_lens ≡ add_size (base s).stat.sum_queue_lens (queued s')
    pub mean : (base s').stat.mean_server_queue_len ≡ (base s').stat.sum_queue_lens /ℤ (now + 1)

  stat-Rounded :
      (s s1 : Server p) (now : ℕ)
      → Moves 1 (base s).stat (base s1).stat
      → Yields (Rounded now s) (server_update_stat s1 now)
  unfolding server_update_stat standard_server_update_stat robotic_server_update_stat
  stat-Rounded s (standard s1) now k =
      let b = add_queue_len s1.base (queue_size (some s1.client_queue)) now in
      bind-Yields_from (λ s'. Rounded now s (standard s')) _ _ _
        (if-Yields _ (ltb_ℤ b.stat.mean_server_queue_len (pos 0)) _ _ tt (record {
          failures = k.failures;
          sum = ap (λ z. add_size z (queued (standard s1))) k.sum;
          mean = refl;
        }))
        (λ s' rounded. rounded)
  stat-Rounded s (robotic s1) now k = record {
    failures = k.failures;
    sum = ap (λ z. add_size z (queued (robotic s1))) k.sum;
    mean = refl;
  }
  stat-Rounded s (invalid b) now k = tt

  pub update_server-Rounded :
      (luck : Luck) (heap : Heap) (s : Server p) (now : ℕ)
      → Yields (λ r. Rounded now s r.1) (update_server luck heap s now)
  unfolding update_server
  update_server-Rounded luck heap s now =
      bind-Yields_from _ _ (serve_client luck heap s now) _ (serve-After luck heap s now) λ r moved.
        bind-Yields_from _ _ (server_update_stat r.1 now) _ (stat-Rounded s r.1 now moved)
          λ s' rounded. rounded

  -- A client taken in changes no counter.
  pub server_assign_client-Moves :
      (granted : Bool) (heap : Heap) (s : Server p) (c : ℕ)
      → Yields (λ r. Moves 0 (base s).stat (base r.0).stat) (server_assign_client granted heap s c)
  unfolding server_assign_client assign_client_to_standard_server assign_client_to_robotic_server
  server_assign_client-Moves granted heap (standard s) c =
      bind-Yields_from (λ s'. Moves 0 s.base.stat s'.base.stat) _ _ _
        (bind-Yields _ (push granted s.client_queue c) _ λ r. Moves-refl s.base.stat) (λ s' k. k)
  server_assign_client-Moves granted heap (robotic s) c =
      bind-Yields_from (λ s'. Moves 0 s.base.stat s'.base.stat) _ _ _
        (if-Yields _ ((heap c).disability_type == no_disability) _ _
          (bind-Yields _ (push granted s.normal_client_queue c) _ λ r. Moves-refl s.base.stat)
          (bind-Yields _ (push granted s.disable_client_queue c) _ λ r. Moves-refl s.base.stat))
        (λ s' k. k)
  server_assign_client-Moves granted heap (invalid b) c = Moves-refl b.stat

  queued-held :
      {strict : Bool} {low t : ℕ} (s : Server p)
      → ServerInv strict low t s
      → queued s ≤ length (held s)
  queued-held (standard s) inv =
      omega (arith, queue_size-IsValid s.client_queue inv.queues, held-parts (standard s))
  queued-held (robotic s) inv = omega (
    arith,
    queue_size-IsValid s.disable_client_queue inv.queues.0,
    queue_size-IsValid s.normal_client_queue inv.queues.1,
    length-append (contents s.disable_client_queue) (contents s.normal_client_queue),
    held-parts (robotic s),
  )
  queued-held (invalid b) inv = omega arith

  pub Rounded-IsCounted :
      {strict : Bool} {low t : ℕ} (n m : ℕ) (s s' : Server p)
      → Rounded n s s'
      → ServerInv strict low t s'
      → length (held s') ≤ m
      → (n + 1) * m < 2 ^ 31
      → IsCounted n m (base s).stat
      → IsCounted (n + 1) m (base s').stat
  Rounded-IsCounted n m s s' r inv h small c =
      let (k, e, few) = c.sum in
      let top : k + queued s' ≤ (n + 1) * m =
        omega (arith, few, queued-held s' inv, h, one_more n m) in
      let added =
        r.sum
        ∙ ap (λ z. add_size z (queued s')) e
        ∙ add_size_small k (queued s') (omega (arith, top, small)) in
      record {
        failures = omega (arith, r.failures, c.failures);
        sum = (k + queued s', added, top);
        mean = (
          (k + queued s') / (n + 1),
          r.mean ∙ quotient _ (k + queued s') (n + 1) added,
          div-le_of_le-mul (n + 1) top,
        );
      }
