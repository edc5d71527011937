-- ===== src/System/Admit.antt =====
-- What a system is between ticks, and the start of `system_tick` of src/system.c: the arrival and the
-- assignment of a client.
use aca_bsim.Common.{
  ℕ, ◌-◌, ◌^◌, ◌<◌, ◌≡◌, refl, sym, ap, subst, List, [], ◌∷◌, ◌++◌, Option, none, some, true,
  Result, ok, arith, length, length-append, SameItems, SameItems-refl, SameItems-trans,
  SameItems-append, Bool, SameItems-move, Remains, SameItems-Remains, Remains-append, Remains-trans,
}
use aca_bsim.Platform.{Platform}
use aca_bsim.Client.{Heap}
use aca_bsim.Queue.Ops.{Queue}
use aca_bsim.Queue.Layout.{IsValid, contents}
use aca_bsim.Client.Known.{SameKind}
use aca_bsim.Server.Turn.{field_at}
use aca_bsim.System.Types.{System, Tick}
use aca_bsim.System.Assign.{get_client, assign_client, zero_service_stat}
use aca_bsim.System.Tick.{place, admit}
use aca_bsim.System.Served.{AllInv, AllInv-lenient}
use aca_bsim.System.Arrive.{
  fresh, nobody, arrives, get_client-Arrival, at_servers, HasServer, Assigned,
  assign_client-Assigned,
}

abbrev pub system_list : Option (Queue ℕ) → List ℕ
system_list none = []
system_list (some q) = contents q

-- All clients of a system: those who have not arrived and those at servers.
abbrev pub everyone : {p : Platform} → System p → List ℕ
everyone y = system_list y.system_clients ++ at_servers y

-- A system between ticks, after `t` of them.
pub record SystemInv {p : Platform} (strict : Bool) (t : ℕ) (y : System p) : Type 0 where
  pub queue : Queue ℕ
  pub clients : y.system_clients ≡ some queue
  pub valid : IsValid queue
  pub standard_inv : AllInv strict 1 t y.standard_servers
  pub robotic_inv : AllInv strict 1 t y.robotic_servers
  pub servers : HasServer y

pub SystemInv-lenient :
    {p : Platform} (strict : Bool) (t : ℕ) (y : System p)
    → SystemInv true t y
    → SystemInv strict t y
SystemInv-lenient strict t y inv = record {
  queue = inv.queue;
  clients = inv.clients;
  valid = inv.valid;
  standard_inv = AllInv-lenient strict 1 t y.standard_servers inv.standard_inv;
  robotic_inv = AllInv-lenient strict 1 t y.robotic_servers inv.robotic_inv;
  servers = inv.servers;
}

-- The requests that must be granted for no client to be lost: those of the pushes.
pub record Granted (k : Tick) : Type 0 where
  pub assign : k.granted_assign ≡ true
  pub standard : (i : ℕ) → (k.standard_luck i).granted_push ≡ true
  pub robotic : (i : ℕ) → (k.robotic_luck i).granted_push ≡ true

-- A part of a tick that went through, with the clients that remain.
pub record Passed {p : Platform} (strict : Bool) (t : ℕ) (heap : Heap) (y : System p)
    (r : Result (Heap × System p)) : Type 0 where
  pub heap' : Heap
  pub system' : System p
  pub runs : r ≡ ok (heap', system')
  pub inv : SystemInv strict t system'
  pub remains : Remains strict (everyone system') (everyone y)
  pub kind : SameKind heap heap'

Passed-at :
    {p : Platform} {strict : Bool} {t : ℕ} {heap : Heap} {y : System p}
    {r r' : Result (Heap × System p)}
    → r ≡ r'
    → Passed strict t heap y r'
    → Passed strict t heap y r
Passed-at {p} {strict} {t} {heap} {y} e passed = subst (Passed strict t heap y) (sym e) passed

fresh-SameKind : (heap : Heap) (c : ℕ) → SameKind heap (fresh heap c)
fresh-SameKind heap c = record {
  disability =
      field_at heap c (record (heap c) { service_stat = zero_service_stat })
        (λ k. k.disability_type) refl;
  destination =
      field_at heap c (record (heap c) { service_stat = zero_service_stat }) (λ k. k.destination)
        refl;
}

same_list : {o o' : Option (Queue ℕ)} → o ≡ o' → SameItems (system_list o') (system_list o)
same_list {o} e =
    subst (λ k. SameItems (system_list k) (system_list o)) e (SameItems-refl (system_list o))

pub SameKind-refl : (heap : Heap) → SameKind heap heap
SameKind-refl heap = record { disability = λ c. refl; destination = λ c. refl }

module _ {p : Platform} (strict : Bool) (k : Tick) (heap : Heap) (y : System p) (now t : ℕ)
    (inv : SystemInv strict t y) where
  admit_nobody :
      get_client k.granted_get heap inv.queue now ≡ ok (heap, inv.queue, none)
      → Passed strict t heap y (admit k heap y (some inv.queue) now)
  unfolding admit place
  admit_nobody r = record {
    heap' = heap;
    system' = record y { system_clients = some inv.queue };
    runs = rw r refl;
    inv = record {
      queue = inv.queue;
      clients = refl;
      valid = inv.valid;
      standard_inv = inv.standard_inv;
      robotic_inv = inv.robotic_inv;
      servers = inv.servers;
    };
    remains =
        SameItems-Remains strict
          (SameItems-append (same_list inv.clients) (SameItems-refl (at_servers y)));
    kind = SameKind-refl heap;
  }

  admit_client :
      (c : ℕ) (q : Queue ℕ)
      → get_client k.granted_get heap inv.queue now ≡ ok (fresh heap c, q, some c)
      → IsValid q
      → contents inv.queue ≡ c ∷ contents q
      → Assigned strict 1 t
          (record y { system_clients = some q })
          c
          (assign_client k.granted_assign (fresh heap c) (record y { system_clients = some q }) c)
      → Passed strict t heap y (admit k heap y (some inv.queue) now)
  unfolding admit place
  admit_client c q r v taken a = record {
    heap' = fresh heap c;
    system' = a.system;
    runs = rw (r, a.runs) refl;
    inv = record {
      queue = q;
      clients = a.clients;
      valid = v;
      standard_inv = a.standard_inv;
      robotic_inv = a.robotic_inv;
      servers = omega (arith, inv.servers, a.standard_size, a.robotic_size);
    };
    remains =
        Remains-trans
          (Remains-append (SameItems-Remains strict (same_list (sym a.clients))) a.remains)
          (SameItems-Remains strict (
            SameItems-trans (SameItems-move c (contents q) (at_servers y)) (
              subst (λ zs. SameItems (zs ++ at_servers y) (everyone y)) taken
                (SameItems-append (same_list inv.clients) (SameItems-refl (at_servers y))))));
    kind = fresh-SameKind heap c;
  }

  pub admit-Passed :
      (strict ≡ true → Granted k)
      → length (everyone y) < 2 ^ 31 - 1
      → Passed strict t heap y (admit k heap y y.system_clients now)
  admit-Passed granted h =
      Passed-at (ap (λ o. admit k heap y o now) inv.clients)
        (elim (get_client-Arrival k.granted_get heap inv.queue now inv.valid) [
          | nobody r ↦ admit_nobody r
          | arrives c q r due v taken ↦ admit_client c q r v taken (
              assign_client-Assigned strict 1 t k.granted_assign (fresh heap c)
                (record y { system_clients = some q }) c (λ e. (granted e).assign) inv.standard_inv
                inv.robotic_inv
                (omega (arith, length-append (system_list y.system_clients) (at_servers y)))
                inv.servers)
        ])
