-- ===== src/System/Choice.antt =====
-- The choice between the standard and the robotic servers in `assign_client` of src/system.c.
use aca_bsim.Common.{
  ℕ, suc, ◌+◌, ◌-◌, ◌^◌, ◌≤◌, ◌<◌, ◌≡◌, refl, sym, ap, ◌∙◌, subst, List, [], ◌∷◌, none, some, Bool,
  true, false, inl, inr, ◌⊎◌, ◌≢◌, Result, arith, ◌==◌, Bool-cases, length, length-append,
}
use aca_bsim.Common.Int.{pos, ltb_ℤ}
use aca_bsim.Platform.{Platform, DisabilityType, no_disability}
use aca_bsim.Client.{Heap}
use aca_bsim.Server.Types.{Server}
use aca_bsim.Server.Held.{held}
use aca_bsim.Server.Enter.{server_get_load-load}
use aca_bsim.System.Types.{System}
use aca_bsim.System.Assign.{
  lowest_load, to_standard, to_robotic, choose_server, assign_client, int32_max,
}
use aca_bsim.System.Served.{held_all, AllInv}
use aca_bsim.System.Chosen.{NoneBelow, Found, Lowest, lowest_load-Lowest}

module _ {p : Platform} where
  none_found :
      (strict : Bool) (low t : ℕ) (type : DisabilityType) (servers : List (Server p))
      → AllInv strict low t servers
      → length (held_all servers) < 2 ^ 31 - 1
      → NoneBelow type (2 ^ 31 - 1) servers
      → servers ≡ []
  none_found strict low t type [] inv h all = refl
  none_found strict low t type (s ∷ servers) inv h all =
      let both = length-append (held s) (held_all servers) in
      let (its, few) = server_get_load-load s type inv.0 (omega arith) in
      absurd (omega (arith, all.0))

  NoneBelow-mono :
      (type : DisabilityType) (l m : ℕ) (servers : List (Server p))
      → l ≤ m
      → NoneBelow type m servers
      → NoneBelow type l servers
  NoneBelow-mono type l m [] h all = tt
  NoneBelow-mono type l m (s ∷ servers) h all =
      (omega (arith, all.0), NoneBelow-mono type l m servers h all.1)

  -- Where a client of a given disability goes: to the first robotic server of lowest load, if it is
  -- disabled, or there is no standard server, or each of these has a higher load; otherwise to the
  -- first standard server of lowest load.
  pub data Choice (granted : Bool) (heap : Heap) (y : System p) (c : ℕ) (r : Result (System p))
      : Type 0 where
    robot :
        (k m : ℕ)
        → r ≡ to_robotic granted heap y c k
        → Found (heap c).disability_type y.robotic_servers k m
        → NoneBelow (heap c).disability_type m y.robotic_servers
        → (((heap c).disability_type == no_disability) ≡ false)
          ⊎ (y.standard_servers ≡ [])
          ⊎ NoneBelow (heap c).disability_type (suc m) y.standard_servers
        → Choice granted heap y c r
    stand :
        (k m : ℕ)
        → r ≡ to_standard granted heap y c k
        → Found (heap c).disability_type y.standard_servers k m
        → NoneBelow (heap c).disability_type m y.standard_servers
        → (y.robotic_servers ≡ [])
          ⊎ ((((heap c).disability_type == no_disability) ≡ true)
              × NoneBelow (heap c).disability_type m y.robotic_servers)
        → Choice granted heap y c r

zero_add : (n : ℕ) → 0 + n ≡ n
zero_add n = omega arith

module _ {p : Platform} (granted : Bool) (heap : Heap) (y : System p) (c : ℕ) (strict : Bool)
    (low t : ℕ) where
  choose_server_lem :
      (k l m n : ℕ)
      → Found (heap c).disability_type y.standard_servers k m
      → NoneBelow (heap c).disability_type m y.standard_servers
      → Found (heap c).disability_type y.robotic_servers l n
      → NoneBelow (heap c).disability_type n y.robotic_servers
      → Choice granted heap y c (choose_server granted heap y c (some k) (pos m) (some l) (pos n))
  unfolding choose_server
  choose_server_lem k l m n s least_s r least_r =
      elim (Bool-cases ((heap c).disability_type == no_disability)) [
        | inr disabled ↦ robot l n (rw disabled refl) r least_r (inl disabled)
        | inl able ↦ elim (Bool-cases (ltb_ℤ (pos n) (pos m))) [
          | inl less ↦ robot l n (rw (able, less) refl) r least_r (
              inr (
                inr (
                  NoneBelow-mono (heap c).disability_type (suc n) m y.standard_servers
                    (ground arith) least_s)))
          | inr more ↦ stand k m (rw (able, more) refl) s least_s (
              inr (
                able,
                NoneBelow-mono (heap c).disability_type m n y.robotic_servers (ground arith)
                    least_r,
              ))
        ]
      ]

  Choice-at :
      {r r' : Result (System p)} → r ≡ r' → Choice granted heap y c r' → Choice granted heap y c r
  Choice-at e choice = subst (Choice granted heap y c) (sym e) choice

  chosen_both :
      (ls : Lowest
        (heap c).disability_type
        y.standard_servers
        0
        none
        (2 ^ 31 - 1)
        (lowest_load (heap c).disability_type y.standard_servers 0 none int32_max))
      (lr : Lowest
        (heap c).disability_type
        y.robotic_servers
        0
        none
        (2 ^ 31 - 1)
        (lowest_load (heap c).disability_type y.robotic_servers 0 none int32_max))
      → assign_client granted heap y c
        ≡ choose_server granted heap y c ls.low' (pos ls.min) lr.low' (pos lr.min)
  unfolding assign_client
  chosen_both ls lr = rw (ls.runs, lr.runs) refl

  -- With well-formed servers, at least one of them, and fewer than 2 ^ 31 - 1 clients at the
  -- servers of either kind, `assign_client` sends a client to the first robotic server of lowest
  -- load if the client is disabled, or there is no standard server, or each of these has a higher
  -- load; otherwise to the first standard server of lowest load, which happens only if there is
  -- no robotic server, or the client is not disabled and no robotic load is below that lowest
  -- load.
  pub assign_client-Choice :
      AllInv strict low t y.standard_servers
      → AllInv strict low t y.robotic_servers
      → length (held_all y.standard_servers) < 2 ^ 31 - 1
      → length (held_all y.robotic_servers) < 2 ^ 31 - 1
      → (y.standard_servers ≢ []) ⊎ (y.robotic_servers ≢ [])
      → Choice granted heap y c (assign_client granted heap y c)
  unfolding choose_server
  assign_client-Choice inv_s inv_r few_s few_r some_server =
      let type = (heap c).disability_type in
      let ls =
        lowest_load-Lowest type strict low t y.standard_servers 0 (2 ^ 31 - 1) none inv_s
          (omega arith) in
      let lr =
        lowest_load-Lowest type strict low t y.robotic_servers 0 (2 ^ 31 - 1) none inv_r
          (omega arith) in
      Choice-at (chosen_both ls lr) (elim ls.chosen [
        | inl (es, fs) ↦
            let no_standard =
              none_found strict low t type y.standard_servers inv_s few_s
                (subst (λ k. NoneBelow type k y.standard_servers) fs ls.least) in
            elim lr.chosen [
              | inl (er, fr) ↦
                  let no_robotic =
                    none_found strict low t type y.robotic_servers inv_r few_r
                      (subst (λ k. NoneBelow type k y.robotic_servers) fr lr.least) in
                  elim some_server [
                    | inl a ↦ absurd (a no_standard)
                    | inr a ↦ absurd (a no_robotic)
                  ]
              | inr (k, less, er, found) ↦
                  robot k lr.min (rw (es, er ∙ ap some (zero_add k)) refl) found lr.least
                    (inr (inl no_standard))
            ]
        | inr (k, less_s, es, found_s) ↦ elim lr.chosen [
          | inl (er, fr) ↦
              let no_robotic =
                none_found strict low t type y.robotic_servers inv_r few_r
                  (subst (λ k. NoneBelow type k y.robotic_servers) fr lr.least) in
              stand k ls.min (rw (es ∙ ap some (zero_add k), er) refl) found_s ls.least
                (inl no_robotic)
          | inr (l, less_r, er, found_r) ↦
              Choice-at
                {r' = choose_server granted heap y c (some k) (pos ls.min) (some l) (pos lr.min)}
                (rw (es ∙ ap some (zero_add k), er ∙ ap some (zero_add l)) refl)
                (choose_server_lem k l ls.min lr.min found_s ls.least found_r lr.least)
        ]
      ])
