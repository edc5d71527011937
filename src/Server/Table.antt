-- ===== src/Server/Table.antt =====
-- The table of service times of src/server.c, and `get_service_time`.
use aca_bsim.Common.{
  ℕ, ◌≡◌, refl, ap, ◌∙◌, Option, none, some, not, ◌||◌, Result, ok, fault, exit_failure,
  null_dereference, ◌==◌, if◌then◌else◌,
}
use Prim.Native.Nat.{bit_xor}
use aca_bsim.Common.Int.{ℤ, pos}
use aca_bsim.Platform.{
  Platform, Service, DisabilityType, Destination, no_disability, type_1, type_2, type_3, dest_1,
  dest_2,
}
use aca_bsim.Client.{Client}
use aca_bsim.Server.Types.{Server, StandardServer, RoboticServer, standard, robotic, invalid, base}

-- `service_compare`: 0 for equal keys.
unfoldable pub service_compare : Service → Service → ℤ
service_compare a b =
    if not (a.disability_type == b.disability_type) || not (a.dest == b.dest) then pos 1 else pos 0

abbrev pub entry : DisabilityType → Destination → ℕ → Service
entry type dest time = record { disability_type = type; dest = dest; service_time = time }

-- The key's `service_time` is 0, as the initialiser leaves it.
abbrev pub key_of : Client → Service
key_of client = entry client.disability_type client.destination 0

module _ (p : Platform) where
  -- `service_hash`; the size of an `enum` is 4.
  unfoldable pub service_hash : Service → ℕ → ℕ → ℕ
  service_hash item seed0 seed1 =
      bit_xor (p.hashmap_sip item.disability_type 4 seed0 seed1)
        (p.hashmap_sip item.dest 4 seed0 seed1)

  -- `init_table`
  unfoldable pub init_table : p.Table
  init_table =
      let t0 = p.hashmap_new service_hash service_compare in
      let t1 = p.hashmap_set t0 (entry no_disability dest_1 4) in
      let t2 = p.hashmap_set t1 (entry no_disability dest_2 6) in
      let t3 = p.hashmap_set t2 (entry type_1 dest_1 8) in
      let t4 = p.hashmap_set t3 (entry type_1 dest_2 10) in
      let t5 = p.hashmap_set t4 (entry type_2 dest_1 10) in
      let t6 = p.hashmap_set t5 (entry type_2 dest_2 14) in
      let t7 = p.hashmap_set t6 (entry type_3 dest_1 18) in
      p.hashmap_set t7 (entry type_3 dest_2 16)

  unfoldable pub timed : Server p → Service → Result ℤ
  timed (standard s) value = ok (pos value.service_time)
  timed (robotic s) value = ok (p.to_int (p.div (p.of_int (pos value.service_time)) s.boost_rate))
  timed (invalid b) value = fault exit_failure

  unfoldable pub timed_found : Server p → Option Service → Result ℤ
  unfolding timed
  timed_found (invalid b) found = fault exit_failure
  timed_found s none = fault null_dereference
  timed_found s (some value) = timed s value

  -- `get_service_time`
  unfoldable pub get_service_time : Server p → Client → Result ℤ
  unfolding timed_found
  get_service_time s client =
      timed_found s (p.hashmap_get (base s).service_time_table (key_of client))

-- The time depends on the kind of the server, its table and its boost rate alone.
module _ {p : Platform} where
  timed_found-standard :
      (s s' : StandardServer p) (found : Option Service)
      → timed_found p (standard s') found ≡ timed_found p (standard s) found
  unfolding timed_found
  timed_found-standard s s' none = refl
  timed_found-standard s s' (some value) = refl

  timed_found-robotic :
      (s s' : RoboticServer p) (found : Option Service)
      → s'.boost_rate ≡ s.boost_rate
      → timed_found p (robotic s') found ≡ timed_found p (robotic s) found
  unfolding timed_found
  timed_found-robotic s s' none e = refl
  timed_found-robotic s s' (some value) e =
      ap (λ boost. ok (p.to_int (p.div (p.of_int (pos value.service_time)) boost))) e

  pub get_service_time-standard :
      (s s' : StandardServer p) (c : Client)
      → s'.base.service_time_table ≡ s.base.service_time_table
      → get_service_time p (standard s') c ≡ get_service_time p (standard s) c
  unfolding get_service_time
  get_service_time-standard s s' c e =
      timed_found-standard s s' (p.hashmap_get s'.base.service_time_table (key_of c))
      ∙ ap (λ table. timed_found p (standard s) (p.hashmap_get table (key_of c))) e

  pub get_service_time-robotic :
      (s s' : RoboticServer p) (c : Client)
      → s'.base.service_time_table ≡ s.base.service_time_table
      → s'.boost_rate ≡ s.boost_rate
      → get_service_time p (robotic s') c ≡ get_service_time p (robotic s) c
  unfolding get_service_time
  get_service_time-robotic s s' c e boost =
      timed_found-robotic s s' (p.hashmap_get s'.base.service_time_table (key_of c)) boost
      ∙ ap (λ table. timed_found p (robotic s) (p.hashmap_get table (key_of c))) e
