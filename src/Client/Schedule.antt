-- ===== src/Client/Schedule.antt =====
-- The clients of `clients_init` of src/client.c, in the order of their arrival.
use aca_bsim.Common.{
  ℕ, zero, suc, ◌+◌, ◌≤◌, ◌<◌, ◌≡◌, refl, List, [], ◌∷◌, ◌++◌, true, false, inl, inr, ◌⊎◌, arith,
  ◌==◌, Bool-cases, length, length-append,
}
use aca_bsim.Common.Int.{ℤ, pos, ◌+ℤ◌}
use aca_bsim.Platform.{Platform, type_1, type_2, type_3}
use aca_bsim.Platform.Sample.{rand_ratio, exponential_sample, uniform_sample}
use aca_bsim.Client.{Client, Heap, write}
use aca_bsim.Client.Arrivals.{Draw, choose_type, new_client}
use aca_bsim.Client.Known.{IsListed}

-- The first `n` clients, oldest first.
abbrev pub ids : ℕ → List ℕ
ids zero = []
ids (suc n) = ids n ++ n ∷ []

pub length-ids : (n : ℕ) → length (ids n) ≡ n
length-ids zero = refl
length-ids (suc n) = omega (arith, length-append (ids n) (n ∷ []), length-ids n)

-- The first `n` clients arrive one after the other, all before `bound`, and are of known kinds.
abbrev pub Scheduled : Heap → ℕ → ℕ → Type 0
Scheduled heap zero bound = Unit {0}
Scheduled heap (suc n) bound =
    (a : ℕ) × ((heap n).service_stat.arrival_time ≡ pos a)
    × (a < bound)
    × IsListed (heap n)
    × Scheduled heap n a

pub Scheduled-mono : (heap : Heap) (n a b : ℕ) → a ≤ b → Scheduled heap n a → Scheduled heap n b
Scheduled-mono heap zero a b h s = tt
Scheduled-mono heap (suc n) a b h (c, e, less, l, s) = (c, e, omega arith, l, s)

pub Scheduled-write :
    (heap : Heap) (client : Client) (m n bound : ℕ)
    → m ≤ n
    → Scheduled heap m bound
    → Scheduled (write heap n client) m bound
Scheduled-write heap client zero n bound h s = tt
Scheduled-write heap client (suc m) n bound h (a, e, less, l, s) =
    (a, rw other e, less, rw other l, Scheduled-write heap client m n a (omega arith) s)
  where
    other : (m == n) ≡ false
    other = ground arith

pub pos-add : (a b : ℕ) → pos a +ℤ pos b ≡ pos (a + b)
unfolding ◌+ℤ◌
pos-add a b = ground arith

-- What is assumed of the environment: times between arrivals are positive (as `-log` of a number
-- between 0 and 1 is not negative), the samples of a type are 0, 1 or 2, and memory is granted.
pub record Regular (p : Platform) (draws : ℕ → Draw) : Type 0 where
  pub gap : (k : ℕ) → (m : ℕ) × (exponential_sample p (draws k).gap ≡ pos (suc m))
  pub kind : (k : ℕ) → (j : ℕ) × (uniform_sample p (draws k).kind (pos 0) (pos 2) ≡ pos j) × (j ≤ 2)
  pub client : (k : ℕ) → (draws k).granted_client ≡ true
  pub slots : (k : ℕ) → (draws k).granted_slots ≡ true

module _ (p : Platform) (disability_prob destination_prob : p.Double) where
  chosen :
      (j old : ℕ)
      → j ≤ 2
      → (choose_type p (pos j) old ≡ type_1)
        ⊎ (choose_type p (pos j) old ≡ type_2)
        ⊎ (choose_type p (pos j) old ≡ type_3)
  unfolding choose_type
  chosen zero old h = inl refl
  chosen (suc zero) old h = inr (inl refl)
  chosen (suc (suc zero)) old h = inr (inr refl)
  chosen (suc (suc (suc j))) old h = absurd (omega arith)

  -- A client made from a sample of 0, 1 or 2 is of a known kind.
  pub new_client-IsListed :
      (id : ℕ) (arrival : ℤ) (d : Draw) (j : ℕ)
      → uniform_sample p d.kind (pos 0) (pos 2) ≡ pos j
      → j ≤ 2
      → IsListed (new_client p disability_prob destination_prob id arrival d)
  unfolding new_client
  new_client-IsListed id arrival d j e h = record {
    disability = elim (Bool-cases (p.lt (rand_ratio p d.disabled) disability_prob)) [
      | inl yes_disabled ↦ rw (yes_disabled, e) (inr (chosen j d.block.disability_type h))
      | inr able ↦ rw able (inl refl)
    ];
    destination = elim (Bool-cases (p.lt (rand_ratio p d.far) destination_prob)) [
      | inl far ↦ rw far (inr refl)
      | inr near ↦ rw near (inl refl)
    ];
  }
