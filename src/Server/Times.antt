-- ===== src/Server/Times.antt =====
-- What `init_table` of src/server.c puts into the table of service times, and so how long each service
-- takes. The hash map is that of include/hashmap.h, by its laws.
use aca_bsim.Common.{
  ℕ, suc, ◌-◌, ◌≤◌, ◌≡◌, refl, ap, ap₂, ◌∙◌, List, [], ◌∷◌, Option, none, some, ◌&&◌, inl, inr, ok,
  arith, ◌==◌, if◌then◌else◌,
}
use Prim.Native.Nat.{bit_xor}
use aca_bsim.Common.Int.{pos, eqb_ℤ}
use aca_bsim.Platform.{
  Platform, Service, TableLaws, no_disability, type_1, type_2, type_3, dest_1, dest_2,
}
use aca_bsim.Client.{Client}
use aca_bsim.Server.Types.{StandardServer, RoboticServer, standard, robotic}
use aca_bsim.Server.Table.{
  service_compare, service_hash, entry, init_table, key_of, get_service_time, timed_found, timed,
}
use aca_bsim.Client.Known.{IsListed}

same_keys :
    (a b : Service)
    → service_compare a b ≡ pos 0
    → (a.disability_type ≡ b.disability_type) × (a.dest ≡ b.dest)
unfolding service_compare
same_keys a b e = ground arith

compare-key :
    (k s : Service)
    → eqb_ℤ (service_compare k s) (pos 0)
      ≡ (k.disability_type == s.disability_type && k.dest == s.dest)
unfolding service_compare
compare-key k s = ground arith

-- Two services that `service_compare` takes for equal have the same `service_hash`, whatever the
-- hash of their parts and the seeds.
pub service_hash-Respects :
    (p : Platform) (a b : Service) (s t : ℕ)
    → service_compare a b ≡ pos 0
    → service_hash p a s t ≡ service_hash p b s t
unfolding service_hash
service_hash-Respects p a b s t e =
    let (d, f) = same_keys a b e in
    ap₂ bit_xor (ap (λ k. p.hashmap_sip k 4 s t) d) (ap (λ k. p.hashmap_sip k 4 s t) f)

-- A list of services searched from the front.
unfoldable pub find_entry : Service → List Service → Option Service
find_entry k [] = none
find_entry k (s ∷ services) =
    if k.disability_type == s.disability_type && k.dest == s.dest
    then some s
    else find_entry k services

-- The services of the table, the one set last in front.
abbrev pub services : List Service
services =
    entry type_3 dest_2 16
    ∷ entry type_3 dest_1 18
    ∷ entry type_2 dest_2 14
    ∷ entry type_2 dest_1 10
    ∷ entry type_1 dest_2 10
    ∷ entry type_1 dest_1 8
    ∷ entry no_disability dest_2 6
    ∷ entry no_disability dest_1 4
    ∷ []

-- A service found for a key, of 4 to 18 ticks.
pub record Listed (k : Service) : Type 0 where
  pub service : Service
  pub found : find_entry k services ≡ some service
  pub at_least : 4 ≤ service.service_time
  pub at_most : service.service_time ≤ 18

service_at :
    (d e n : ℕ)
    → find_entry (entry d e 0) services ≡ some (entry d e n)
    → 4 ≤ n
    → n ≤ 18
    → Listed (entry d e 0)
service_at d e n f l m = record { service = entry d e n; found = f; at_least = l; at_most = m }

pub key_of-Listed : (c : Client) → IsListed c → Listed (key_of c)
unfolding find_entry
key_of-Listed c l = elim l.destination [
  | inl e ↦ elim l.disability [
    | inl d ↦ rw (d, e) (service_at 0 0 4 refl (omega arith) (omega arith))
    | inr (inl d) ↦ rw (d, e) (service_at 2 0 8 refl (omega arith) (omega arith))
    | inr (inr (inl d)) ↦ rw (d, e) (service_at 3 0 10 refl (omega arith) (omega arith))
    | inr (inr (inr d)) ↦ rw (d, e) (service_at 4 0 18 refl (omega arith) (omega arith))
  ]
  | inr e ↦ elim l.disability [
    | inl d ↦ rw (d, e) (service_at 0 1 6 refl (omega arith) (omega arith))
    | inr (inl d) ↦ rw (d, e) (service_at 2 1 10 refl (omega arith) (omega arith))
    | inr (inr (inl d)) ↦ rw (d, e) (service_at 3 1 14 refl (omega arith) (omega arith))
    | inr (inr (inr d)) ↦ rw (d, e) (service_at 4 1 16 refl (omega arith) (omega arith))
  ]
]

module _ (p : Platform) (laws : TableLaws p) where
  sets : List Service → p.Table
  sets [] = p.hashmap_new (service_hash p) service_compare
  sets (s ∷ services) = p.hashmap_set (sets services) s

  hash_of-sets : (services : List Service) → p.hash_of (sets services) ≡ service_hash p
  unfolding sets
  hash_of-sets [] = laws.hash_of-new (service_hash p) service_compare
  hash_of-sets (s ∷ services) = laws.hash_of-set (sets services) s ∙ hash_of-sets services

  compare_of-sets : (services : List Service) → p.compare_of (sets services) ≡ service_compare
  unfolding sets
  compare_of-sets [] = laws.compare_of-new (service_hash p) service_compare
  compare_of-sets (s ∷ services) = laws.compare_of-set (sets services) s ∙ compare_of-sets services

  get-sets :
      (k : Service) (services : List Service)
      → p.hashmap_get (sets services) k ≡ find_entry k services
  unfolding sets find_entry
  get-sets k [] = laws.get-new (service_hash p) service_compare k
  get-sets k (s ∷ services) =
      laws.get-set (sets services) s k
        (rw (hash_of-sets services, compare_of-sets services) (service_hash-Respects p))
      ∙ rw (compare_of-sets services, compare-key k s, get-sets k services) refl

  -- With a hash map that keeps its laws, the table made by `init_table` answers every key as a
  -- search of the eight listed services does.
  pub init_table-services : (k : Service) → p.hashmap_get (init_table p) k ≡ find_entry k services
  unfolding init_table sets
  init_table-services k = get-sets k services

  table_found :
      (t : p.Table) (c : Client) (k : Listed (key_of c))
      → t ≡ init_table p
      → p.hashmap_get t (key_of c) ≡ some k.service
  table_found t c k e =
      ap (λ u. p.hashmap_get u (key_of c)) e ∙ init_table-services (key_of c) ∙ k.found

  -- With a hash map that keeps its laws, a standard server that has the table of `init_table`
  -- gives every client of a known kind a positive service time.
  pub standard-table-IsTimely :
      (s : StandardServer p) (c : Client)
      → s.base.service_time_table ≡ init_table p
      → IsListed c
      → (n : ℕ) × (get_service_time p (standard s) c ≡ ok (pos (suc n)))
  unfolding get_service_time timed_found timed
  standard-table-IsTimely s c e listed =
      let k = key_of-Listed c listed in
      (
        k.service.service_time - 1,
        rw (table_found s.base.service_time_table c k e)
            (ap (λ n. ok (pos n)) (omega (arith, k.at_least))),
      )

  -- With a hash map that keeps its laws, a robotic server that has the table of `init_table`, and
  -- whose boost rate leaves at least one tick of each time from 4 to 18, gives every client of a
  -- known kind a positive service time.
  pub robotic-table-IsTimely :
      (s : RoboticServer p) (c : Client)
      → s.base.service_time_table ≡ init_table p
      → ((n : ℕ)
          → 4 ≤ n
          → n ≤ 18
          → (m : ℕ) × (p.to_int (p.div (p.of_int (pos n)) s.boost_rate) ≡ pos (suc m)))
      → IsListed c
      → (n : ℕ) × (get_service_time p (robotic s) c ≡ ok (pos (suc n)))
  unfolding get_service_time timed_found timed
  robotic-table-IsTimely s c e boosted listed =
      let k = key_of-Listed c listed in
      let (m, time) = boosted k.service.service_time k.at_least k.at_most in
      (m, rw (table_found s.base.service_time_table c k e) (ap (λ z. ok z) time))
