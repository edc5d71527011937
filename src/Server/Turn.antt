-- ===== src/Server/Turn.antt =====
-- Lemmas on the start of a service of src/server.c: what is taken from a queue, what is written to the
-- client, and what of a server stays in order.
use aca_bsim.Common.{
  ℕ, suc, ◌+◌, ◌≡◌, refl, sym, ap, ◌∙◌, List, [], ◌∷◌, ◌++◌, some, Bool, true, false, inl, inr, ok,
  arith, ◌==◌, ==_iff, Bool-cases, count, count-append,
}
use aca_bsim.Common.Int.{pos}
use aca_bsim.Platform.{Platform}
use aca_bsim.Client.{Client, Heap, write, client_set_start_service_time, client_set_wait_time}
use aca_bsim.Queue.Ops.{Queue, queue_size}
use aca_bsim.Queue.Layout.{IsValid, contents}
use aca_bsim.Queue.Refine.{queue_top-IsValid, queue_pop-IsValid}
use aca_bsim.Server.Types.{BaseServer}
use aca_bsim.Server.Serve.{take_next, start_service, serving, no_client}
use aca_bsim.Client.Known.{IsListed, AllListed, Keeps}
use aca_bsim.Server.Held.{BaseInv, Summed-settled}

pub take_next-IsValid :
    (granted : Bool) (q : Queue ℕ) (x : ℕ) (xs : List ℕ)
    → IsValid q
    → contents q ≡ x ∷ xs
    → (q' : Queue ℕ) × (take_next granted q ≡ ok (x, q')) × IsValid q' × (contents q' ≡ xs)
unfolding take_next
take_next-IsValid granted q x xs v e =
    let (q', popped, v', e') = queue_pop-IsValid granted q x xs v e in
    (q', rw (queue_top-IsValid q x xs v e, popped) refl, v', e')

abbrev is_nil : List ℕ → Bool
is_nil [] = true
is_nil (x ∷ xs) = false

-- The test by which a server sees whether a queue is empty.
pub queue_size-zero :
    (q : Queue ℕ) (xs : List ℕ)
    → IsValid q
    → contents q ≡ xs
    → (queue_size (some q) == 0) ≡ is_nil xs
unfolding queue_size
queue_size-zero q [] v e = rw (v.sized, e) refl
queue_size-zero q (x ∷ xs) v e = rw (v.sized, e) (ground arith)

-- A write that keeps a field of one client keeps it of all.
pub field_at :
    {A : Type 0} (heap : Heap) (c : ℕ) (client : Client) (field : Client → A)
    → field client ≡ field (heap c)
    → (d : ℕ) → field (write heap c client d) ≡ field (heap d)
field_at heap c client field e d = elim (Bool-cases (d == c)) [
  | inl same ↦ rw same (e ∙ ap (λ k. field (heap k)) (sym ((==_iff d c).0 same)))
  | inr other ↦ rw other refl
]

pub write-Keeps :
    (heap : Heap) (c : ℕ) (client : Client)
    → client.disability_type ≡ (heap c).disability_type
    → client.destination ≡ (heap c).destination
    → client.service_stat.arrival_time ≡ (heap c).service_stat.arrival_time
    → Keeps heap (write heap c client)
write-Keeps heap c client disability destination arrival = record {
  disability = field_at heap c client (λ k. k.disability_type) disability;
  destination = field_at heap c client (λ k. k.destination) destination;
  arrival = field_at heap c client (λ k. k.service_stat.arrival_time) arrival;
}

pub start_service-Keeps : (heap : Heap) (c now : ℕ) → Keeps heap (start_service heap c now)
unfolding start_service client_set_start_service_time client_set_wait_time
start_service-Keeps heap c now = write-Keeps heap c _ refl refl refl

-- The client found in the middle of a list is one of the list.
pub AllListed-middle :
    (heap : Heap) (xs ys : List ℕ) (c : ℕ) → AllListed heap (xs ++ c ∷ ys) → IsListed (heap c)
AllListed-middle heap xs ys c all = all c (omega (arith, count-append c xs (c ∷ ys), self))
  where
    self : count c (c ∷ ys) ≡ 1 + count c ys
    self = ground arith

module _ {p : Platform} {strict : Bool} {low t : ℕ} {b : BaseServer p} where
  pub no_client-BaseInv : BaseInv strict low t b → BaseInv strict 1 t (no_client p b)
  no_client-BaseInv inv = record {
    finished = inv.finished;
    served = inv.served;
    elapsed = inv.elapsed;
    busy = inl refl;
    sum = Summed-settled inv.sum;
    mean = inv.mean;
  }

  pub serving-BaseInv :
      (c n : ℕ) → BaseInv strict low t b → BaseInv strict 1 t (serving p b c (pos (suc n)))
  serving-BaseInv c n inv = record {
    finished = inv.finished;
    served = inv.served;
    elapsed = inv.elapsed;
    busy = inr (suc n, refl, omega arith);
    sum = Summed-settled inv.sum;
    mean = inv.mean;
  }
