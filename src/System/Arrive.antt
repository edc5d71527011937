-- ===== src/System/Arrive.antt =====
-- The arrival of a client at the start of a tick of src/system.c: `get_client` and
-- `assign_client`.
use aca_bsim.System.Receive.{TakenIn, assign_at-TakenIn, added_behind}
use aca_bsim.Common.{
  ℕ, ◌+◌, ◌-◌, ◌^◌, ◌≤◌, ◌<◌, ◌≡◌, refl, sym, ap, ◌∙◌, List, [], ◌∷◌, ◌++◌, Option, none, some,
  Bool, true, inl, inr, ◌⊎◌, ◌≢◌, Result, ok, arith, Bool-cases, length, length-append,
  SameItems-refl, Remains, SameItems-Remains, Remains-append,
}
use aca_bsim.Common.Int.{pos, eqb_ℤ, eqb_ℤ-eq}
use aca_bsim.Platform.{Platform}
use aca_bsim.Client.{Heap, write}
use aca_bsim.Queue.Ops.{Queue, queue_top, queue_pop}
use aca_bsim.Queue.Layout.{IsValid, contents}
use aca_bsim.Queue.Refine.{queue_top-IsValid, queue_top-IsValid-nil, queue_pop-IsValid}
use aca_bsim.Server.Types.{Server}
use aca_bsim.System.Types.{System}
use aca_bsim.System.Assign.{
  get_client, enter_client, zero_service_stat, assign_at, to_standard, to_robotic, assign_client,
}
use aca_bsim.System.Served.{held_all, AllInv}
use aca_bsim.System.Choice.{robot, stand, assign_client-Choice}

-- The client who enters starts with fresh statistics.
abbrev pub fresh : Heap → ℕ → Heap
fresh heap c = write heap c (record (heap c) { service_stat = zero_service_stat })

-- What `get_client` does at time `now` with a queue of clients `xs`.
pub data Arrival (heap : Heap) (q : Queue ℕ) (now : ℕ) (r : Result (Heap × Queue ℕ × Option ℕ))
    : Type 0 where
  nobody : r ≡ ok (heap, q, none) → Arrival heap q now r
  arrives :
      (c : ℕ) (q' : Queue ℕ)
      → r ≡ ok (fresh heap c, q', some c)
      → (heap c).service_stat.arrival_time ≡ pos now
      → IsValid q'
      → contents q ≡ c ∷ contents q'
      → Arrival heap q now r

pub enter_lem :
    (granted : Bool) (heap : Heap) (q q' : Queue ℕ) (now c : ℕ)
    → queue_top q ≡ ok (some c)
    → queue_pop granted q ≡ ok (q', true)
    → eqb_ℤ (heap c).service_stat.arrival_time (pos now) ≡ true
    → get_client granted heap q now ≡ ok (fresh heap c, q', some c)
unfolding get_client enter_client
enter_lem granted heap q q' now c top popped due = rw (top, due, popped) refl

get_client_at :
    (granted : Bool) (heap : Heap) (q : Queue ℕ) (now : ℕ) (xs : List ℕ)
    → IsValid q
    → contents q ≡ xs
    → Arrival heap q now (get_client granted heap q now)
unfolding get_client
get_client_at granted heap q now [] v e = nobody (rw (queue_top-IsValid-nil q v e) refl)
get_client_at granted heap q now (c ∷ xs) v e =
    let top = queue_top-IsValid q c xs v e in
    let (q', popped, v', e') = queue_pop-IsValid granted q c xs v e in
    elim (Bool-cases (eqb_ℤ (heap c).service_stat.arrival_time (pos now))) [
      | inl due ↦
          arrives c q' (enter_lem granted heap q q' now c top popped due) (eqb_ℤ-eq _ _ due) v'
            (e ∙ ap (λ ys. c ∷ ys) (sym e'))
      | inr early ↦ nobody (rw (top, early) refl)
    ]

-- On a well-formed queue `get_client` either changes nothing and returns no client, or returns
-- the oldest client, whose arrival time is now, with that client's statistics set to zero and the
-- client taken off the queue.
pub get_client-Arrival :
    (granted : Bool) (heap : Heap) (q : Queue ℕ) (now : ℕ)
    → IsValid q
    → Arrival heap q now (get_client granted heap q now)
get_client-Arrival granted heap q now v = get_client_at granted heap q now (contents q) v refl

-- All clients at servers.
abbrev pub at_servers : {p : Platform} → System p → List ℕ
at_servers y = held_all y.standard_servers ++ held_all y.robotic_servers

abbrev pub HasServer : {p : Platform} → System p → Type 0
HasServer y = 1 ≤ length y.standard_servers + length y.robotic_servers

pub record Assigned {p : Platform} (strict : Bool) (low t : ℕ) (y : System p) (c : ℕ)
    (r : Result (System p)) : Type 0 where
  pub system : System p
  pub runs : r ≡ ok system
  pub standard_inv : AllInv strict low t system.standard_servers
  pub robotic_inv : AllInv strict low t system.robotic_servers
  pub remains : Remains strict (at_servers system) (c ∷ at_servers y)
  pub clients : system.system_clients ≡ y.system_clients
  pub standard_size : length system.standard_servers ≡ length y.standard_servers
  pub robotic_size : length system.robotic_servers ≡ length y.robotic_servers

some_server :
    {p : Platform} (ss rs : List (Server p)) → 1 ≤ length ss + length rs → (ss ≢ []) ⊎ (rs ≢ [])
some_server [] [] h = absurd (omega arith)
some_server (s ∷ ss) rs h = inl (λ e. cc)
some_server [] (r ∷ rs) h = inr (λ e. cc)

module _ {p : Platform} (strict : Bool) (low t : ℕ) (granted : Bool) (heap : Heap) (y : System p)
    (c : ℕ) where
  to_robotic_lem :
      (k : ℕ) (r : Result (System p))
      → r ≡ to_robotic granted heap y c k
      → TakenIn strict low t y.robotic_servers c (assign_at granted heap y.robotic_servers k c)
      → AllInv strict low t y.standard_servers
      → Assigned strict low t y c r
  unfolding to_robotic
  to_robotic_lem k r e taken inv = record {
    system = record y { robotic_servers = taken.servers' };
    runs = e ∙ rw taken.runs refl;
    standard_inv = inv;
    robotic_inv = taken.inv;
    remains = added_behind strict (held_all y.standard_servers) c taken.remains;
    clients = refl;
    standard_size = refl;
    robotic_size = taken.size;
  }

  to_standard_lem :
      (k : ℕ) (r : Result (System p))
      → r ≡ to_standard granted heap y c k
      → TakenIn strict low t y.standard_servers c (assign_at granted heap y.standard_servers k c)
      → AllInv strict low t y.robotic_servers
      → Assigned strict low t y c r
  unfolding to_standard
  to_standard_lem k r e taken inv = record {
    system = record y { standard_servers = taken.servers' };
    runs = e ∙ rw taken.runs refl;
    standard_inv = taken.inv;
    robotic_inv = inv;
    remains =
        Remains-append taken.remains
          (SameItems-Remains strict (SameItems-refl (held_all y.robotic_servers)));
    clients = refl;
    standard_size = taken.size;
    robotic_size = refl;
  }

  -- With well-formed servers, at least one of them, and fewer than 2 ^ 31 - 1 clients at all of
  -- them, `assign_client` returns a system with as many servers, all well formed; the clients to
  -- come are not touched. If `strict`, where the push must be granted, the clients at servers are
  -- those from before and the new one; otherwise, whatever the allocator answers, no others and
  -- none more often.
  pub assign_client-Assigned :
      (strict ≡ true → granted ≡ true)
      → AllInv strict low t y.standard_servers
      → AllInv strict low t y.robotic_servers
      → length (at_servers y) < 2 ^ 31 - 1
      → HasServer y
      → Assigned strict low t y c (assign_client granted heap y c)
  assign_client-Assigned sure inv_s inv_r few has =
      let both = length-append (held_all y.standard_servers) (held_all y.robotic_servers) in
      elim (assign_client-Choice granted heap y c strict low t inv_s inv_r (omega arith)
        (omega arith) (some_server y.standard_servers y.robotic_servers has)) [
          | robot k m e f least why ↦
              to_robotic_lem k _ e
                (assign_at-TakenIn strict low t granted heap c y.robotic_servers k f.server f.there
                  sure inv_r (omega arith))
                inv_s
          | stand k m e f least why ↦
              to_standard_lem k _ e
                (assign_at-TakenIn strict low t granted heap c y.standard_servers k f.server f.there
                  sure inv_s (omega arith))
                inv_r
        ]
