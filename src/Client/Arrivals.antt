-- ===== src/Client/Arrivals.antt =====
-- `clients_init` of src/client.c: the clients of a run and the times at which they arrive.
use aca_bsim.Common.{
  ℕ, zero, suc, ◌+◌, Option, some, Bool, true, false, Result, ok, fault, null_dereference,
  out_of_fuel, ◌>>=◌, if◌then◌else◌,
}
use aca_bsim.Common.Int.{ℤ, pos, ◌+ℤ◌, ltb_ℤ, eqb_ℤ}
use aca_bsim.Platform.{
  Platform, DisabilityType, no_disability, type_1, type_2, type_3, dest_1, dest_2,
}
use aca_bsim.Platform.Sample.{rand_ratio, exponential_sample, uniform_sample}
use aca_bsim.Queue.Ops.{Queue, base_size, queue_init, queue_push}
use aca_bsim.Client.{Client, Heap, write, client_new}

-- What the environment answers in one round of the loop: four draws of `rand`, whether memory is
-- granted for the client and for the queue, and what the client's new memory holds.
pub record Draw : Type 0 where
  pub gap : ℕ
  pub disabled : ℕ
  pub kind : ℕ
  pub far : ℕ
  pub granted_client : Bool
  pub granted_slots : Bool
  pub block : Client

-- The loop's variables. A new client is put at the place `id`, where no client is yet.
pub record Entry : Type 0 where
  pub heap : Heap
  pub clients : Option (Queue ℕ)
  pub id : ℕ
  pub next : ℤ

module _ (p : Platform) where
  -- The `switch`: what is none of 0, 1 and 2 leaves the field as the memory came.
  unfoldable pub choose_type : ℤ → DisabilityType → DisabilityType
  choose_type sample old =
      if eqb_ℤ sample (pos 0)
      then type_1
      else if eqb_ℤ sample (pos 1)
      then type_2
      else if eqb_ℤ sample (pos 2)
      then type_3
      else old

  -- `sizeof (DISABILITY_TYPE) - 2` is 2.
  unfoldable pub new_client : p.Double → p.Double → ℕ → ℤ → Draw → Client
  new_client disability_prob destination_prob id arrival d = record (client_new d.block) {
    id = id;
    service_stat = record ((client_new d.block).service_stat) { arrival_time = arrival };
    disability_type =
        if p.lt (rand_ratio p d.disabled) disability_prob
        then choose_type (uniform_sample p d.kind (pos 0) (pos 2)) d.block.disability_type
        else no_disability;
    destination = if p.lt (rand_ratio p d.far) destination_prob then dest_2 else dest_1;
  }

  -- The body of `while (1)` from round `k` on, with fuel.
  unfoldable pub clients_loop : p.Double → p.Double → ℤ → (ℕ → Draw) → ℕ → ℕ → Entry → Result Entry
  clients_loop disability_prob destination_prob finish_time draws zero k e = fault out_of_fuel
  clients_loop disability_prob destination_prob finish_time draws (suc fuel) k e =
      let next = e.next +ℤ exponential_sample p (draws k).gap in
      let client = new_client disability_prob destination_prob e.id next (draws k) in
      elim (ltb_ℤ next finish_time) [
        | true ↦ elim (draws k).granted_client [
          | true ↦ queue_push (draws k).granted_slots e.clients (some e.id) >>= λ r.
              clients_loop disability_prob destination_prob finish_time draws fuel (k + 1) (record {
                heap = write e.heap e.id client;
                clients = r.0;
                id = e.id + 1;
                next = next;
              })
          | false ↦ fault null_dereference
        ]
        | false ↦ ok (record e { next = next })
      ]

  unfoldable pub clients_init :
      Bool → Bool → p.Double → p.Double → ℤ → (ℕ → Draw) → ℕ → Heap → Result Entry
  clients_init granted granted_items disability_prob destination_prob finish_time draws fuel heap =
      clients_loop disability_prob destination_prob finish_time draws fuel 0 (record {
        heap = heap;
        clients = queue_init granted granted_items base_size;
        id = 0;
        next = pos 0;
      })
