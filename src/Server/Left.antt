-- ===== src/Server/Left.antt =====
-- How long a server of src/server.c is from having served all its clients, if no service fails.
use aca_bsim.Common.{
  ℕ, ◌+◌, ◌≡◌, refl, ap, ap₂, ◌∙◌, List, [], ◌∷◌, Option, none, some, Result, ok, fault,
}
use aca_bsim.Common.Int.{ℤ, pos_part}
use aca_bsim.Platform.{Platform}
use aca_bsim.Client.{Heap}
use aca_bsim.Server.Types.{Server, base}
use aca_bsim.Server.Table.{get_service_time, timed_found, key_of}
use aca_bsim.Client.Known.{Keeps, SameKind, Keeps-SameKind}
use aca_bsim.Server.Held.{waiting}
use aca_bsim.Server.Kin.{Kin}

-- The ticks of a service time.
abbrev pub ticks_of : Result ℤ → ℕ
ticks_of (ok z) = pos_part z
ticks_of (fault f) = 0

-- What is left of the service under way.
abbrev pub under_way : Option ℕ → ℤ → ℕ
under_way none to_serve = 0
under_way (some c) to_serve = pos_part to_serve

-- The tick in which an idle server takes the first of those who wait.
abbrev pub start_tick : Option ℕ → List ℕ → ℕ
start_tick none (c ∷ xs) = 1
start_tick none [] = 0
start_tick (some d) xs = 0

module _ {p : Platform} where
  -- The ticks that a server takes for some clients, one after the other.
  abbrev pub ticks_for : Heap → Server p → List ℕ → ℕ
  ticks_for heap s [] = 0
  ticks_for heap s (c ∷ xs) = ticks_of (get_service_time p s (heap c)) + ticks_for heap s xs

  -- The ticks left after the first pass of a tick, and the ticks left between ticks.
  abbrev pub rest_left : Heap → Server p → ℕ
  rest_left heap s =
      under_way (base s).current_client (base s).to_serve + ticks_for heap s (waiting s)

  abbrev pub left_at : Heap → Server p → Option ℕ → ℤ → List ℕ → ℕ
  left_at heap s current to_serve xs =
      start_tick current xs + (under_way current to_serve + ticks_for heap s xs)

  abbrev pub left : Heap → Server p → ℕ
  left heap s = left_at heap s (base s).current_client (base s).to_serve (waiting s)

  -- The time of a service depends only on what nothing changes.
  pub same_time :
      (heap heap' : Heap) (s s' : Server p) (c : ℕ)
      → SameKind heap heap'
      → Kin s s'
      → get_service_time p s' (heap' c) ≡ get_service_time p s (heap c)
  unfolding get_service_time
  same_time heap heap' s s' c keeps kin =
      kin.times (heap' c)
      ∙ ap (λ k. timed_found p s (p.hashmap_get (base s).service_time_table k))
          (same_key heap heap' c keeps)
    where
      same_key :
          (heap heap' : Heap) (c : ℕ) → SameKind heap heap' → key_of (heap' c) ≡ key_of (heap c)
      same_key heap heap' c keeps =
          ap₂ (λ d e. record { disability_type = d; dest = e; service_time = 0 })
            (keeps.disability c) (keeps.destination c)

  pub ticks_for-same :
      (heap heap' : Heap) (s s' : Server p) (xs : List ℕ)
      → Keeps heap heap'
      → Kin s s'
      → ticks_for heap' s' xs ≡ ticks_for heap s xs
  ticks_for-same heap heap' s s' [] keeps kin = refl
  ticks_for-same heap heap' s s' (c ∷ xs) keeps kin =
      ap₂ (λ a b. a + b) (ap ticks_of (same_time heap heap' s s' c (Keeps-SameKind keeps) kin))
        (ticks_for-same heap heap' s s' xs keeps kin)
