-- ===== src/Platform.antt =====
-- What the program takes from elsewhere: the `double` arithmetic of C and its `log`, the bound of
-- `rand`, and the hash map of include/hashmap.h, a copy of another project's library. The types of a
-- client's disability and destination (include/client.h) and `service_t` (include/server.h) stand
-- here since the hash map holds services.
pub mod Sample
pub mod Options
use aca_bsim.Common.{ℕ, ◌≡◌, Option, none, some, Bool, if◌then◌else◌}
use aca_bsim.Common.Int.{ℤ, pos, eqb_ℤ}

-- An `enum` is the number that C stores: `DISABILITY_TYPE` and `DESTINATION`.
abbrev pub DisabilityType : Type 0
DisabilityType = ℕ

abbrev pub Destination : Type 0
Destination = ℕ

abbrev pub no_disability : DisabilityType
no_disability = 0

abbrev pub type_1 : DisabilityType
type_1 = 2

abbrev pub type_2 : DisabilityType
type_2 = 3

abbrev pub type_3 : DisabilityType
type_3 = 4

abbrev pub dest_1 : Destination
dest_1 = 0

abbrev pub dest_2 : Destination
dest_2 = 1

-- `service_t`
pub record Service : Type 0 where
  pub disability_type : DisabilityType
  pub dest : Destination
  pub service_time : ℕ

-- The type of `hash` and of `compare` that a table is made with.
abbrev pub Hash : Type 0
Hash = Service → ℕ → ℕ → ℕ

abbrev pub Compare : Type 0
Compare = Service → Service → ℤ

pub record Platform : Type 1 where
  pub Double : Type 0
  pub of_int : ℤ → Double
  pub to_int : Double → ℤ
  pub sub : Double → Double → Double
  pub mul : Double → Double → Double
  pub div : Double → Double → Double
  pub neg : Double → Double
  pub log : Double → Double
  pub lt : Double → Double → Bool
  pub rand_max : ℕ
  pub Table : Type 0
  pub hashmap_new : Hash → Compare → Table
  pub hashmap_set : Table → Service → Table
  pub hashmap_get : Table → Service → Option Service
  pub hashmap_sip : ℕ → ℕ → ℕ → ℕ → ℕ
  pub hash_of : Table → Hash
  pub compare_of : Table → Compare

-- A hash that agrees on the keys that the comparison takes for equal.
abbrev pub Respects : Hash → Compare → Type 0
Respects hash compare = (a b : Service) (s t : ℕ) → compare a b ≡ pos 0 → hash a s t ≡ hash b s t

-- What include/hashmap.h promises of a table, with memory for each item: it keeps the functions it is
-- made with, and `hashmap_get` finds the item last set under an equal key.
pub record TableLaws (p : Platform) : Type 0 where
  pub hash_of-new : (h : Hash) (c : Compare) → p.hash_of (p.hashmap_new h c) ≡ h
  pub compare_of-new : (h : Hash) (c : Compare) → p.compare_of (p.hashmap_new h c) ≡ c
  pub hash_of-set : (t : p.Table) (s : Service) → p.hash_of (p.hashmap_set t s) ≡ p.hash_of t
  pub compare_of-set :
      (t : p.Table) (s : Service) → p.compare_of (p.hashmap_set t s) ≡ p.compare_of t
  pub get-new : (h : Hash) (c : Compare) (k : Service) → p.hashmap_get (p.hashmap_new h c) k ≡ none
  pub get-set :
      (t : p.Table) (s k : Service)
      → Respects (p.hash_of t) (p.compare_of t)
      → p.hashmap_get (p.hashmap_set t s) k
        ≡ (if eqb_ℤ (p.compare_of t k s) (pos 0) then some s else p.hashmap_get t k)
