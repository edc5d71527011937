-- ===== src/Client/Known.antt =====
-- Clients of known kinds on the heap of src/client.c, and what steps of the program keep of them.
use aca_bsim.Common.{ℕ, ◌<◌, ◌≡◌, refl, ◌∙◌, List, ◌⊎◌, arith, count, SameItems, Among}
use aca_bsim.Platform.{no_disability, type_1, type_2, type_3, dest_1, dest_2}
use aca_bsim.Client.{Client, Heap}

-- A client whose disability and destination are constants of the two `enum`s.
pub record IsListed (c : Client) : Type 0 where
  pub disability :
      (c.disability_type ≡ no_disability)
      ⊎ (c.disability_type ≡ type_1)
      ⊎ (c.disability_type ≡ type_2)
      ⊎ (c.disability_type ≡ type_3)
  pub destination : (c.destination ≡ dest_1) ⊎ (c.destination ≡ dest_2)

-- The clients of a list are such.
abbrev pub AllListed : Heap → List ℕ → Type 0
AllListed heap xs = (c : ℕ) → 0 < count c xs → IsListed (heap c)

-- What no server changes of a client: who it is, and when it arrived.
pub record Keeps (heap heap' : Heap) : Type 0 where
  pub disability : (c : ℕ) → (heap' c).disability_type ≡ (heap c).disability_type
  pub destination : (c : ℕ) → (heap' c).destination ≡ (heap c).destination
  pub arrival : (c : ℕ) → (heap' c).service_stat.arrival_time ≡ (heap c).service_stat.arrival_time

pub Keeps-refl : (heap : Heap) → Keeps heap heap
Keeps-refl heap = record { disability = λ c. refl; destination = λ c. refl; arrival = λ c. refl }

pub Keeps-trans : {h i j : Heap} → Keeps h i → Keeps i j → Keeps h j
Keeps-trans a b = record {
  disability = λ c. b.disability c ∙ a.disability c;
  destination = λ c. b.destination c ∙ a.destination c;
  arrival = λ c. b.arrival c ∙ a.arrival c;
}

-- What nothing in a tick changes of a client.
pub record SameKind (heap heap' : Heap) : Type 0 where
  pub disability : (c : ℕ) → (heap' c).disability_type ≡ (heap c).disability_type
  pub destination : (c : ℕ) → (heap' c).destination ≡ (heap c).destination

pub SameKind-trans : {h i j : Heap} → SameKind h i → SameKind i j → SameKind h j
SameKind-trans a b = record {
  disability = λ c. b.disability c ∙ a.disability c;
  destination = λ c. b.destination c ∙ a.destination c;
}

pub Keeps-SameKind : {h i : Heap} → Keeps h i → SameKind h i
Keeps-SameKind k = record { disability = k.disability; destination = k.destination }

pub SameKind-IsListed : {h i : Heap} (c : ℕ) → SameKind h i → IsListed (h c) → IsListed (i c)
SameKind-IsListed {h} {i} c k l = record {
  disability = rw (k.disability c) l.disability;
  destination = rw (k.destination c) l.destination;
}

pub AllListed-Among :
    {h i : Heap} {xs ys : List ℕ} → Among ys xs → SameKind h i → AllListed h xs → AllListed i ys
AllListed-Among among kind all c h =
    SameKind-IsListed c kind (all c (omega (arith, among.counts c)))

pub AllListed-kind :
    {h i : Heap} {xs ys : List ℕ} → SameItems ys xs → SameKind h i → AllListed h xs → AllListed i ys
AllListed-kind same kind all c h = SameKind-IsListed c kind (all c (omega (arith, same.counts c)))

pub AllListed-trans :
    {h i : Heap} {xs ys : List ℕ} → SameItems ys xs → Keeps h i → AllListed h xs → AllListed i ys
AllListed-trans same keeps = AllListed-kind same (Keeps-SameKind keeps)
