-- ===== src/Server/Enter.antt =====
-- `server_assign_client` and `server_get_load` of src/server.c on a well-formed server.
use aca_bsim.Common.{
  ℕ, ◌+◌, ◌^◌, ◌≤◌, ◌<◌, ◌≡◌, refl, [], ◌∷◌, ◌++◌, true, false, inl, inr, ok, arith, ◌==◌,
  Bool-cases, if◌then◌else◌, length, length-append, count-append, SameItems, List, Bool,
}
use aca_bsim.Common.Int.{pos, int_of_size_small}
use aca_bsim.Platform.{Platform, DisabilityType, no_disability}
use aca_bsim.Client.{Heap}
use aca_bsim.Queue.Ops.{Queue, push}
use aca_bsim.Queue.Layout.{IsValid, contents}
use aca_bsim.Queue.Refine.{push-IsValid, queue_size-IsValid}
use aca_bsim.Server.Types.{StandardServer, RoboticServer, Server, standard, robotic, invalid, base}
use aca_bsim.Server.Load.{
  get_standard_server_load, get_robotic_server_load, server_get_load,
  assign_client_to_standard_server, assign_client_to_robotic_server, server_assign_client,
}
use aca_bsim.Server.Kin.{Kin, standard-Kin, robotic-Kin}
use aca_bsim.Server.Held.{
  held, waiting, current_list, ServerInv, standard-IsTimely, robotic-IsTimely,
}

module _ {p : Platform} where
  -- The number of clients before a new one of this disability: at a robotic server a disabled client
  -- is before the others.
  abbrev pub load : DisabilityType → Server p → ℕ
  load type (standard s) = length (contents s.client_queue)
  load type (robotic s) =
      if type == no_disability
      then length (contents s.normal_client_queue) + length (contents s.disable_client_queue)
      else length (contents s.disable_client_queue)
  load type (invalid b) = 0

  standard_load :
      (s : StandardServer p) (type : DisabilityType)
      → IsValid s.client_queue
      → length (contents s.client_queue) < 2 ^ 31
      → server_get_load (standard s) type ≡ ok (pos (load type (standard s)))
  unfolding server_get_load get_standard_server_load
  standard_load s type v h =
      rw
        (
          queue_size-IsValid s.client_queue v,
          int_of_size_small (length (contents s.client_queue)) h,
        )
        refl

  robotic_load :
      (s : RoboticServer p) (type : DisabilityType)
      → IsValid s.disable_client_queue
      → IsValid s.normal_client_queue
      → length (contents s.normal_client_queue) + length (contents s.disable_client_queue) < 2 ^ 31
      → server_get_load (robotic s) type ≡ ok (pos (load type (robotic s)))
  unfolding server_get_load get_robotic_server_load
  robotic_load s type v w h = elim (Bool-cases (type == no_disability)) [
    | inl able ↦
        rw
          (
            able,
            queue_size-IsValid s.normal_client_queue w,
            queue_size-IsValid s.disable_client_queue v,
            int_of_size_small
                (length (contents s.normal_client_queue) + length (contents s.disable_client_queue))
                h,
          )
          refl
    | inr disabled ↦
        rw
          (
            disabled,
            queue_size-IsValid s.disable_client_queue v,
            int_of_size_small (length (contents s.disable_client_queue)) (omega arith),
          )
          refl
  ]

  pub held-parts :
      (s : Server p)
      → length (held s)
        ≡ length (contents (base s).finished_clients_queue)
          + (length (current_list (base s).current_client) + length (waiting s))
  held-parts s = simp length-append

  -- On a well-formed server with fewer than 2 ^ 31 clients, `server_get_load` returns without a
  -- fault the number of clients who wait before a new one of the given disability, and the
  -- conversion to `int` does not wrap; the load is at most the number of the server's clients.
  pub server_get_load-load :
      {strict : Bool} {low t : ℕ} (s : Server p) (type : DisabilityType)
      → ServerInv strict low t s
      → length (held s) < 2 ^ 31
      → (server_get_load s type ≡ ok (pos (load type s))) × (load type s ≤ length (held s))
  server_get_load-load (standard s) type inv h =
      let few = held-parts (standard s) in
      (standard_load s type inv.queues (omega arith), omega arith)
  server_get_load-load (robotic s) type inv h =
      let few = held-parts (robotic s) in
      let both = length-append (contents s.disable_client_queue) (contents s.normal_client_queue) in
      (robotic_load s type inv.queues.0 inv.queues.1 (omega arith), ground arith)
  server_get_load-load (invalid b) type inv h = absurd inv.queues

  -- Those who wait once a client has joined them, behind the others of the same kind.
  abbrev pub joined : Heap → Server p → ℕ → List ℕ
  joined heap (standard s) c = contents s.client_queue ++ c ∷ []
  joined heap (robotic s) c =
      if (heap c).disability_type == no_disability
      then contents s.disable_client_queue ++ (contents s.normal_client_queue ++ c ∷ [])
      else (contents s.disable_client_queue ++ c ∷ []) ++ contents s.normal_client_queue
  joined heap (invalid b) c = []

  -- A client that a server has taken in.
  pub record Entered (strict : Bool) (low t : ℕ) (heap : Heap) (s : Server p) (c : ℕ) : Type 0 where
    pub server : Server p
    pub runs : server_assign_client true heap s c ≡ ok (server, 0)
    pub inv : ServerInv strict low t server
    pub same : SameItems (held server) (c ∷ held s)
    pub waits : waiting server ≡ joined heap s c
    pub kept : base server ≡ base s
    pub kin : Kin s server

  standard_enter :
      {strict : Bool} {low t : ℕ} (heap : Heap) (s : StandardServer p) (c : ℕ) (q : Queue ℕ)
      → ServerInv strict low t (standard s)
      → push true s.client_queue c ≡ ok (q, true)
      → IsValid q
      → contents q ≡ contents s.client_queue ++ c ∷ []
      → Entered strict low t heap (standard s) c
  unfolding server_assign_client assign_client_to_standard_server
  standard_enter heap s c q inv pushed v grown = record {
    server = standard (record s { client_queue = q });
    runs = rw pushed refl;
    inv = record { based = inv.based; queues = v; timely = standard-IsTimely s _ refl inv.timely };
    same = rw grown (record {
      lengths = simp length-append (omega arith);
      counts = λ a. simp count-append (omega arith);
    });
    waits = grown;
    kept = refl;
    kin = standard-Kin s _ refl refl;
  }

  robotic_enter_normal :
      {strict : Bool} {low t : ℕ} (heap : Heap) (s : RoboticServer p) (c : ℕ) (q : Queue ℕ)
      → ServerInv strict low t (robotic s)
      → ((heap c).disability_type == no_disability) ≡ true
      → push true s.normal_client_queue c ≡ ok (q, true)
      → IsValid q
      → contents q ≡ contents s.normal_client_queue ++ c ∷ []
      → Entered strict low t heap (robotic s) c
  unfolding server_assign_client assign_client_to_robotic_server
  robotic_enter_normal heap s c q inv able pushed v grown = record {
    server = robotic (record s { normal_client_queue = q });
    runs = rw (able, pushed) refl;
    inv = record {
      based = inv.based;
      queues = (inv.queues.0, v);
      timely = robotic-IsTimely s _ refl refl inv.timely;
    };
    same = rw grown (record {
      lengths = simp length-append (omega arith);
      counts = λ a. simp count-append (omega arith);
    });
    waits = rw (able, grown) refl;
    kept = refl;
    kin = robotic-Kin s _ refl refl refl;
  }

  robotic_enter_disabled :
      {strict : Bool} {low t : ℕ} (heap : Heap) (s : RoboticServer p) (c : ℕ) (q : Queue ℕ)
      → ServerInv strict low t (robotic s)
      → ((heap c).disability_type == no_disability) ≡ false
      → push true s.disable_client_queue c ≡ ok (q, true)
      → IsValid q
      → contents q ≡ contents s.disable_client_queue ++ c ∷ []
      → Entered strict low t heap (robotic s) c
  unfolding server_assign_client assign_client_to_robotic_server
  robotic_enter_disabled heap s c q inv disabled pushed v grown = record {
    server = robotic (record s { disable_client_queue = q });
    runs = rw (disabled, pushed) refl;
    inv = record {
      based = inv.based;
      queues = (v, inv.queues.1);
      timely = robotic-IsTimely s _ refl refl inv.timely;
    };
    same = rw grown (record {
      lengths = simp length-append (omega arith);
      counts = λ a. simp count-append (omega arith);
    });
    waits = rw (disabled, grown) refl;
    kept = refl;
    kin = robotic-Kin s _ refl refl refl;
  }

  -- On a well-formed server with fewer than 2 ^ 31 clients and the push granted,
  -- `server_assign_client` returns 0 and a well-formed server whose clients are those from before
  -- and the new one; at a standard server the new one waits behind all others, at a robotic
  -- server behind the disabled clients if it is disabled and behind the other clients if it is
  -- not; the order of those who wait and the base of the server do not change.
  pub server_assign_client-Entered :
      {strict : Bool} {low t : ℕ} (heap : Heap) (s : Server p) (c : ℕ)
      → ServerInv strict low t s
      → length (held s) < 2 ^ 31
      → Entered strict low t heap s c
  server_assign_client-Entered heap (standard s) c inv h =
      let few = held-parts (standard s) in
      let (q, pushed, v, grown) = push-IsValid s.client_queue c inv.queues (omega arith) in
      standard_enter heap s c q inv pushed v grown
  server_assign_client-Entered heap (robotic s) c inv h =
      let few = held-parts (robotic s) in
      let both = length-append (contents s.disable_client_queue) (contents s.normal_client_queue) in
      elim (Bool-cases ((heap c).disability_type == no_disability)) [
        | inl able ↦
            let (q, pushed, v, grown) =
              push-IsValid s.normal_client_queue c inv.queues.1 (omega arith) in
            robotic_enter_normal heap s c q inv able pushed v grown
        | inr disabled ↦
            let (q, pushed, v, grown) =
              push-IsValid s.disable_client_queue c inv.queues.0 (omega arith) in
            robotic_enter_disabled heap s c q inv disabled pushed v grown
      ]
  server_assign_client-Entered heap (invalid b) c inv h = absurd inv.queues
