-- ===== src/System/Chosen.antt =====
-- Which server `assign_client` of src/system.c chooses.
use aca_bsim.Common.{
  ℕ, suc, ◌+◌, ◌^◌, ◌≤◌, ◌<◌, ◌≡◌, refl, sym, ap, ◌∙◌, List, [], ◌∷◌, Option, some, true, false,
  inl, inr, ◌⊎◌, Result, ok, arith, ltb, Bool-cases, length, length-append, get_elem?, Bool, take,
}
use aca_bsim.Common.Int.{ℤ, pos, ltb_ℤ}
use aca_bsim.Platform.{Platform, DisabilityType}
use aca_bsim.Server.Types.{Server}
use aca_bsim.Server.Load.{server_get_load}
use aca_bsim.Server.Held.{held}
use aca_bsim.Server.Enter.{load, server_get_load-load}
use aca_bsim.System.Assign.{lowest_load}
use aca_bsim.System.Served.{held_all, AllInv}

module _ {p : Platform} (type : DisabilityType) where
  -- No server of a list has a load below `m`.
  abbrev pub NoneBelow : ℕ → List (Server p) → Type 0
  NoneBelow m [] = Unit
  NoneBelow m (s ∷ servers) = (m ≤ load type s) × NoneBelow m servers

  -- The first server with the load `m` or a lower one: it is at place `k` and its load is `m`.
  pub record Found (servers : List (Server p)) (k m : ℕ) : Type 0 where
    pub server : Server p
    pub there : get_elem? servers k ≡ some server
    pub its_load : load type server ≡ m
    pub first : NoneBelow (suc m) (take k servers)

  -- What the loop finds from index `i` on, from `low` and `m` so far.
  pub record Lowest (servers : List (Server p)) (i : ℕ) (low : Option ℕ) (m : ℕ)
      (r : Result (Option ℕ × ℤ)) : Type 0 where
    pub low' : Option ℕ
    pub min : ℕ
    pub runs : r ≡ ok (low', pos min)
    pub below : min ≤ m
    pub least : NoneBelow min servers
    pub chosen :
        ((low' ≡ low) × (min ≡ m))
        ⊎ ((k : ℕ) × (min < m) × (low' ≡ some (i + k)) × Found servers k min)

  -- Behind a server of higher load it is still the first one.
  behind :
      (s : Server p) (servers : List (Server p)) (k m : ℕ)
      → m < load type s
      → Found servers k m
      → Found (s ∷ servers) (suc k) m
  behind s servers k m higher f = record {
    server = f.server;
    there = f.there;
    its_load = f.its_load;
    first = (omega (arith, higher), f.first);
  }

  lower :
      (s : Server p) (servers : List (Server p)) (i m : ℕ) (low : Option ℕ)
      → server_get_load s type ≡ ok (pos (load type s))
      → load type s < m
      → Lowest servers
          (i + 1)
          (some i)
          (load type s)
          (lowest_load type servers (i + 1) (some i) (pos (load type s)))
      → Lowest (s ∷ servers) i low m (lowest_load type (s ∷ servers) i low (pos m))
  unfolding lowest_load
  lower s servers i m low its h l = record {
    low' = l.low';
    min = l.min;
    runs = rw (its, test) l.runs;
    below = omega (arith, l.below);
    least = (l.below, l.least);
    chosen = elim l.chosen [
      | inl (e, f) ↦ inr (
        0,
        omega (arith, f),
        e ∙ ap some (omega arith),
        record { server = s; there = refl; its_load = sym f; first = tt },
      )
      | inr (k, less, e, f) ↦
          inr
            (suc k, omega (arith, less), e ∙ ap some (omega arith), behind s servers k l.min less f)
    ];
  }
    where
      test : ltb_ℤ (pos (load type s)) (pos m) ≡ true
      test = ground arith

  not_lower :
      (s : Server p) (servers : List (Server p)) (i m : ℕ) (low : Option ℕ)
      → server_get_load s type ≡ ok (pos (load type s))
      → m ≤ load type s
      → Lowest servers (i + 1) low m (lowest_load type servers (i + 1) low (pos m))
      → Lowest (s ∷ servers) i low m (lowest_load type (s ∷ servers) i low (pos m))
  unfolding lowest_load
  not_lower s servers i m low its h l = record {
    low' = l.low';
    min = l.min;
    runs = rw (its, test) l.runs;
    below = l.below;
    least = (omega (arith, l.below), l.least);
    chosen = elim l.chosen [
      | inl (e, f) ↦ inl (e, f)
      | inr (k, less, e, f) ↦
          inr (
            suc k,
            less,
            e ∙ ap some (omega arith),
            behind s servers k l.min (omega (arith, less)) f,
          )
    ];
  }
    where
      test : ltb_ℤ (pos (load type s)) (pos m) ≡ false
      test = ground arith

  -- On well-formed servers with fewer than 2 ^ 31 clients, the search loop of `assign_client`,
  -- started from a server or none with a load m, returns what it was started from, if no load is
  -- below m, and otherwise the first server of lowest load, which is below m, with that load.
  pub lowest_load-Lowest :
      (strict : Bool) (low t : ℕ) (servers : List (Server p)) (i m : ℕ) (best : Option ℕ)
      → AllInv strict low t servers
      → length (held_all servers) < 2 ^ 31
      → Lowest servers i best m (lowest_load type servers i best (pos m))
  unfolding lowest_load
  lowest_load-Lowest strict low t [] i m best inv h = record {
    low' = best;
    min = m;
    runs = refl;
    below = omega arith;
    least = tt;
    chosen = inl (refl, refl);
  }
  lowest_load-Lowest strict low t (s ∷ servers) i m best inv h =
      let both = length-append (held s) (held_all servers) in
      let (its, few) = server_get_load-load s type inv.0 (omega arith) in
      elim (Bool-cases (ltb (load type s) m)) [
        | inl less ↦ lower s servers i m best its (ground arith) (
            lowest_load-Lowest strict low t servers (i + 1) (load type s) (some i) inv.1
              (omega arith))
        | inr more ↦
            not_lower s servers i m best its (ground arith)
              (lowest_load-Lowest strict low t servers (i + 1) m best inv.1 (omega arith))
      ]
