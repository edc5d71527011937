-- ===== src/Tests/Samples.antt =====
-- Concrete data for the tests: arithmetic on whole numbers for `double`, a table that is a list, and
-- a small system of one standard and one robotic server.
use aca_bsim.Common.{
  ℕ, ◌+◌, ◌-◌, ◌*◌, ◌/◌, refl, List, [], ◌∷◌, Option, none, some, inl, inr, arith, ◌==◌,
  if◌then◌else◌, ltb,
}
use aca_bsim.Common.Int.{pos, eqb_ℤ, pos_part}
use aca_bsim.Platform.{Platform, Service, Hash, Compare, TableLaws}
use aca_bsim.Client.{ClientServiceStat, Heap}
use aca_bsim.Queue.Ops.{Queue}
use aca_bsim.Queue.Layout.{IsValid, contents}
use aca_bsim.Client.Known.{AllListed}

pub record ListTable : Type 0 where
  pub hash : Hash
  pub compare : Compare
  pub services : List Service

abbrev pub find_service : Compare → List Service → Service → Option Service
find_service compare [] k = none
find_service compare (s ∷ services) k =
    if eqb_ℤ (compare k s) (pos 0) then some s else find_service compare services k

abbrev pub whole : Platform
whole = record {
  Double = ℕ;
  of_int = pos_part;
  to_int = λ n. pos n;
  sub = λ a b. a - b;
  mul = λ a b. a * b;
  div = λ a b. a / b;
  neg = λ a. a;
  log = λ a. a;
  lt = ltb;
  rand_max = 100;
  Table = ListTable;
  hashmap_new = λ h c. record { hash = h; compare = c; services = [] };
  hashmap_set = λ t s. record t { services = s ∷ t.services };
  hashmap_get = λ t k. find_service t.compare t.services k;
  hashmap_sip = λ a len s t. a + s + t;
  hash_of = λ t. t.hash;
  compare_of = λ t. t.compare;
}

pub whole_laws : TableLaws whole
whole_laws = record {
  hash_of-new = λ h c. refl;
  compare_of-new = λ h c. refl;
  hash_of-set = λ t s. refl;
  compare_of-set = λ t s. refl;
  get-new = λ h c k. refl;
  get-set = λ t s k respects. refl;
}

-- Every client is like this one, but for its arrival: client 0 comes at time 0, others at 5.
abbrev pub stat_at : ℕ → ClientServiceStat
stat_at time = record {
  arrival_time = pos time;
  wait_time = pos 0;
  start_service_time = pos 0;
  finish_time = pos 0;
  failure_count = 0;
  total_time = pos 0;
}

abbrev pub people : Heap
people c = record {
  id = c;
  service_stat = stat_at (if c == 0 then 0 else 5);
  disability_type = 0;
  destination = 1;
}

pub people-AllListed : (xs : List ℕ) → AllListed people xs
people-AllListed xs c h = record { disability = inl refl; destination = inr refl }

-- A queue of two, client 0 on top; an empty queue; a queue of client 2.
abbrev pub two_waiting : Queue ℕ
two_waiting = record { items = some 1 ∷ some 0 ∷ none ∷ none ∷ []; size = 2; capacity = 4 }

abbrev pub nobody_waiting : Queue ℕ
nobody_waiting = record { items = none ∷ none ∷ []; size = 0; capacity = 2 }

abbrev pub one_waiting : Queue ℕ
one_waiting = record { items = some 2 ∷ none ∷ []; size = 1; capacity = 2 }

pub two_waiting-IsValid : IsValid two_waiting
unfolding contents
two_waiting-IsValid = record {
  spare = none ∷ none ∷ [];
  slots = refl;
  sized = refl;
  fits = refl;
  room = omega arith;
  word = omega arith;
}

pub nobody_waiting-IsValid : IsValid nobody_waiting
unfolding contents
nobody_waiting-IsValid = record {
  spare = none ∷ none ∷ [];
  slots = refl;
  sized = refl;
  fits = refl;
  room = omega arith;
  word = omega arith;
}

pub one_waiting-IsValid : IsValid one_waiting
unfolding contents
one_waiting-IsValid = record {
  spare = none ∷ [];
  slots = refl;
  sized = refl;
  fits = refl;
  room = omega arith;
  word = omega arith;
}
