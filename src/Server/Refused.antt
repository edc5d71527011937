-- ===== src/Server/Refused.antt =====
-- `server_assign_client` of src/server.c with every answer of the allocator.
use aca_bsim.Common.{
  ℕ, ◌^◌, ◌≤◌, ◌<◌, ◌≡◌, refl, ap, ◌∙◌, ◌∷◌, Option, none, some, Bool, true, false, inl, inr,
  Result, ok, ◌==◌, Bool-cases, if◌then◌else◌, length, SameItems,
}
use aca_bsim.Platform.{Platform, no_disability}
use aca_bsim.Client.{Client, Heap}
use aca_bsim.Queue.Ops.{Queue, push}
use aca_bsim.Queue.Refine.{push_refused}
use aca_bsim.Queue.Refused.{push-cases}
use aca_bsim.Server.Types.{Server, StandardServer, RoboticServer, standard, robotic, invalid}
use aca_bsim.Server.Load.{
  assign_client_to_standard_server, assign_client_to_robotic_server, server_assign_client,
}
use aca_bsim.Server.Held.{held, ServerInv}
use aca_bsim.Server.Enter.{server_assign_client-Entered}

module _ {p : Platform} where
  -- The queue that a client is pushed to.
  abbrev pub queue_for : Client → Server p → Option (Queue ℕ)
  queue_for client (standard s) = some s.client_queue
  queue_for client (robotic s) = some (
      if client.disability_type == no_disability
      then s.normal_client_queue
      else s.disable_client_queue)
  queue_for client (invalid b) = none

  -- What comes of an assignment: the client is taken in, or no server has it.
  pub data Assignment (strict : Bool) (low t : ℕ) (heap : Heap) (s : Server p) (c : ℕ)
      (granted : Bool) (r : Result (Server p × ℕ)) : Type 0 where
    entered :
        (s' : Server p)
        → r ≡ ok (s', 0)
        → ServerInv strict low t s'
        → SameItems (held s') (c ∷ held s)
        → Assignment strict low t heap s c granted r
    lost :
        (q : Queue ℕ)
        → granted ≡ false
        → queue_for (heap c) s ≡ some q
        → q.capacity ≤ q.size
        → r ≡ ok (s, 0)
        → Assignment strict low t heap s c granted r

  standard_refused :
      (heap : Heap) (s : StandardServer p) (c : ℕ)
      → s.client_queue.capacity ≤ s.client_queue.size
      → server_assign_client false heap (standard s) c ≡ ok (standard s, 0)
  unfolding server_assign_client assign_client_to_standard_server
  standard_refused heap s c full = rw (push_refused s.client_queue c full) refl

  standard_same :
      (granted : Bool) (heap : Heap) (s : StandardServer p) (c : ℕ)
      → push granted s.client_queue c ≡ push true s.client_queue c
      → server_assign_client granted heap (standard s) c
        ≡ server_assign_client true heap (standard s) c
  unfolding server_assign_client assign_client_to_standard_server
  standard_same granted heap s c same = rw same refl

  normal_refused :
      (heap : Heap) (s : RoboticServer p) (c : ℕ)
      → ((heap c).disability_type == no_disability) ≡ true
      → s.normal_client_queue.capacity ≤ s.normal_client_queue.size
      → server_assign_client false heap (robotic s) c ≡ ok (robotic s, 0)
  unfolding server_assign_client assign_client_to_robotic_server
  normal_refused heap s c able full = rw (able, push_refused s.normal_client_queue c full) refl

  disabled_refused :
      (heap : Heap) (s : RoboticServer p) (c : ℕ)
      → ((heap c).disability_type == no_disability) ≡ false
      → s.disable_client_queue.capacity ≤ s.disable_client_queue.size
      → server_assign_client false heap (robotic s) c ≡ ok (robotic s, 0)
  unfolding server_assign_client assign_client_to_robotic_server
  disabled_refused heap s c disabled full =
      rw (disabled, push_refused s.disable_client_queue c full) refl

  normal_same :
      (granted : Bool) (heap : Heap) (s : RoboticServer p) (c : ℕ)
      → ((heap c).disability_type == no_disability) ≡ true
      → push granted s.normal_client_queue c ≡ push true s.normal_client_queue c
      → server_assign_client granted heap (robotic s) c
        ≡ server_assign_client true heap (robotic s) c
  unfolding server_assign_client assign_client_to_robotic_server
  normal_same granted heap s c able same = rw (able, same) refl

  disabled_same :
      (granted : Bool) (heap : Heap) (s : RoboticServer p) (c : ℕ)
      → ((heap c).disability_type == no_disability) ≡ false
      → push granted s.disable_client_queue c ≡ push true s.disable_client_queue c
      → server_assign_client granted heap (robotic s) c
        ≡ server_assign_client true heap (robotic s) c
  unfolding server_assign_client assign_client_to_robotic_server
  disabled_same granted heap s c disabled same = rw (disabled, same) refl

  as_granted :
      {strict : Bool} {low t : ℕ} (granted : Bool) (heap : Heap) (s : Server p) (c : ℕ)
      → ServerInv strict low t s
      → length (held s) < 2 ^ 31
      → server_assign_client granted heap s c ≡ server_assign_client true heap s c
      → Assignment strict low t heap s c granted (server_assign_client granted heap s c)
  as_granted granted heap s c inv h same =
      let e = server_assign_client-Entered heap s c inv h in
      entered e.server (same ∙ e.runs) e.inv e.same

  -- On a well-formed server with fewer than 2 ^ 31 clients and whatever the allocator answers,
  -- `server_assign_client` returns 0 without a fault: either the server is well formed and holds
  -- the clients from before and the new one, or the request was refused, the queue for that
  -- client was full, and the server is as before, so that the client is at no server.
  pub server_assign_client-Assignment :
      {strict : Bool} {low t : ℕ} (granted : Bool) (heap : Heap) (s : Server p) (c : ℕ)
      → ServerInv strict low t s
      → length (held s) < 2 ^ 31
      → Assignment strict low t heap s c granted (server_assign_client granted heap s c)
  server_assign_client-Assignment granted heap (standard s) c inv h =
      elim (push-cases granted s.client_queue c) [
        | inl same ↦
            as_granted granted heap (standard s) c inv h (standard_same granted heap s c same)
        | inr denied ↦ lost s.client_queue denied.0 refl denied.1 (
            ap (λ g. server_assign_client g heap (standard s) c) denied.0
            ∙ standard_refused heap s c denied.1)
      ]
  server_assign_client-Assignment granted heap (robotic s) c inv h =
      elim (Bool-cases ((heap c).disability_type == no_disability)) [
        | inl able ↦ elim (push-cases granted s.normal_client_queue c) [
          | inl same ↦
              as_granted granted heap (robotic s) c inv h (normal_same granted heap s c able same)
          | inr denied ↦ lost s.normal_client_queue denied.0 (rw able refl) denied.1 (
              ap (λ g. server_assign_client g heap (robotic s) c) denied.0
              ∙ normal_refused heap s c able denied.1)
        ]
        | inr disabled ↦ elim (push-cases granted s.disable_client_queue c) [
          | inl same ↦
              as_granted granted heap (robotic s) c inv h
                (disabled_same granted heap s c disabled same)
          | inr denied ↦ lost s.disable_client_queue denied.0 (rw disabled refl) denied.1 (
              ap (λ g. server_assign_client g heap (robotic s) c) denied.0
              ∙ disabled_refused heap s c disabled denied.1)
        ]
      ]
  server_assign_client-Assignment granted heap (invalid b) c inv h = absurd inv.queues
