-- ===== src/System/Within.antt =====
-- The two passes of a tick of src/system.c over servers whose services do not fail, and the ticks
-- that the servers have left.
use aca_bsim.Common.{
  ℕ, suc, ◌+◌, ◌-◌, ◌≤◌, ◌≡◌, refl, ap, ◌∙◌, List, [], ◌∷◌, Option, none, some, true, inl, inr, ◌⊎◌,
  Result, ok, arith, length, length-append, SameItems-refl, ap₂, ◌++◌,
}
use aca_bsim.Common.Int.{ℤ, pos_part}
use aca_bsim.Platform.{Platform}
use aca_bsim.Platform.Sample.{rand_ratio}
use aca_bsim.Client.{Heap}
use aca_bsim.Server.Types.{BaseServer, Server, base, with_base}
use aca_bsim.Server.Serve.{server_is_service_successful}
use aca_bsim.Client.Known.{AllListed, AllListed-trans, Keeps, Keeps-refl, Keeps-trans}
use aca_bsim.Server.Held.{
  held, waiting, BaseInv, ServerInv, with_base-ServerInv, held-with_base, base-with_base, most,
}
use aca_bsim.Server.Kin.{Kin-refl, with_base-Kin, waiting-with_base}
use aca_bsim.Server.Left.{ticks_for, under_way, left_at, left, rest_left, ticks_for-same}
use aca_bsim.Server.Ticked.{Ticked, server_tick-Ticked, busy_some}
use aca_bsim.System.Types.{Luck}
use aca_bsim.System.Tick.{tick_servers, update_clients}
use aca_bsim.System.Served.{held_all, AllInv, AllListed-left, AllListed-right, GoodAll}
use aca_bsim.System.Success.{update_server-Drains}

-- Every server fails with probability `e` and has no more than `n` ticks to go: between ticks, and
-- after the first pass of a tick.
abbrev pub AllWithin : {p : Platform} → p.Double → Heap → ℕ → List (Server p) → Type 0
AllWithin e heap n [] = Unit
AllWithin e heap n (s ∷ servers) =
    ((base s).error_prob ≡ e) × (left heap s ≤ n) × AllWithin e heap n servers

abbrev pub AllResting : {p : Platform} → p.Double → Heap → ℕ → List (Server p) → Type 0
AllResting e heap n [] = Unit
AllResting e heap n (s ∷ servers) =
    ((base s).error_prob ≡ e) × (rest_left heap s ≤ n) × AllResting e heap n servers

-- Draws that make every service a success where the error probability is `e`.
pub record Lucky (p : Platform) (e : p.Double) (luck : ℕ → Luck) : Type 0 where
  pub push : (k : ℕ) → (luck k).granted_push ≡ true
  pub success : (k : ℕ) → p.lt e (rand_ratio p (luck k).drawn) ≡ true

module _ {p : Platform} (e : p.Double) where
  left-Keeps : (heap heap' : Heap) (s : Server p) → Keeps heap heap' → left heap' s ≡ left heap s
  left-Keeps heap heap' s keeps =
      omega (arith, ticks_for-same heap heap' s s (waiting s) keeps (Kin-refl s))

  pub AllWithin-Keeps :
      (heap heap' : Heap) (n : ℕ) (ss : List (Server p))
      → Keeps heap heap'
      → AllWithin e heap n ss
      → AllWithin e heap' n ss
  AllWithin-Keeps heap heap' n [] keeps all = tt
  AllWithin-Keeps heap heap' n (s ∷ ss) keeps all = (
    all.0,
    omega (arith, all.1, left-Keeps heap heap' s keeps),
    AllWithin-Keeps heap heap' n ss keeps all.2,
  )

  pub AllResting-Keeps :
      (heap heap' : Heap) (n : ℕ) (ss : List (Server p))
      → Keeps heap heap'
      → AllResting e heap n ss
      → AllResting e heap' n ss
  AllResting-Keeps heap heap' n [] keeps all = tt
  AllResting-Keeps heap heap' n (s ∷ ss) keeps all = (
    all.0,
    omega (arith, all.1, ticks_for-same heap heap' s s (waiting s) keeps (Kin-refl s)),
    AllResting-Keeps heap heap' n ss keeps all.2,
  )

  -- The tick in which an idle server starts is one that it does not serve in.
  started :
      (heap : Heap) (s : Server p) (o : Option ℕ) (z : ℤ) (xs : List ℕ)
      → (o ≡ none) ⊎ (1 ≤ under_way o z)
      → under_way o z - 1 + ticks_for heap s xs ≤ left_at heap s o z xs - 1
  started heap s none z [] h = omega arith
  started heap s none z (c ∷ xs) h = omega arith
  started heap s (some c) z xs (inl e) = cc
  started heap s (some c) z xs (inr h) = omega (arith, h)

  some_way :
      (b : BaseServer p) (o : Option ℕ) (t : ℕ)
      → BaseInv true 1 t b
      → b.current_client ≡ o
      → (o ≡ none) ⊎ (1 ≤ under_way o b.to_serve)
  some_way b none t inv f = inl refl
  some_way b (some c) t inv f =
      let (n, to_go, low) = busy_some c inv.busy f in inr (omega (arith, ap pos_part to_go))

  tick_rest :
      (heap : Heap) (t : ℕ) (s : Server p) (b : BaseServer p)
      → ServerInv true 1 t s
      → Ticked true t (base s) b
      → rest_left heap (with_base s b) ≤ left heap s - 1
  tick_rest heap t s b inv k =
      let low =
        started heap s (base s).current_client (base s).to_serve (waiting s)
          (some_way (base s) (base s).current_client t inv.based refl) in
      omega (
        arith,
        low,
        ap (λ z. under_way z.current_client z.to_serve) (base-with_base s b),
        k.to_go,
        ap (ticks_for heap (with_base s b)) (waiting-with_base s b),
        ticks_for-same heap heap s (with_base s b) (waiting s) (Keeps-refl heap)
            (with_base-Kin s b inv k.table k.prob),
      )

  -- The first pass of a tick.
  pub tick_servers-AllResting :
      (heap : Heap) (n t : ℕ) (ss : List (Server p))
      → AllInv true 1 t ss
      → AllWithin e heap (suc n) ss
      → (ss' : List (Server p)) × (tick_servers ss ≡ ok ss')
        × AllInv true 0 (t + 1) ss'
        × AllResting e heap n ss'
        × (held_all ss' ≡ held_all ss)
        × (length ss' ≡ length ss)
  unfolding tick_servers
  tick_servers-AllResting heap n t [] inv all = ([], refl, tt, tt, refl, refl)
  tick_servers-AllResting heap n t (s ∷ ss) inv all =
      let (b, ticked, k) = server_tick-Ticked t (base s) inv.0.based in
      let (ss', runs, inv', rest, same, size) = tick_servers-AllResting heap n t ss inv.1 all.2 in
      (
        with_base s b ∷ ss',
        rw (ticked, runs) refl,
        (with_base-ServerInv s b inv.0 k.inv k.table, inv'),
        (
          ap (λ z. z.error_prob) (base-with_base s b) ∙ k.prob ∙ all.0,
          omega (arith, tick_rest heap t s b inv.0 k, all.1),
          rest,
        ),
        rw (held-with_base s b, k.finished, k.current, same) refl,
        ap suc size,
      )

  -- The second pass.
  pub record WithinAll (n t : ℕ) (heap : Heap) (ss : List (Server p))
      (r : Result (Heap × List (Server p))) : Type 0 where
    pub good : GoodAll true 1 t heap ss r
    pub within : AllWithin e good.heap' n good.servers'

  pub update_clients-WithinAll :
      (luck : ℕ → Luck) (i : ℕ) (heap : Heap) (ss : List (Server p)) (now n t : ℕ)
      → Lucky p e luck
      → AllInv true 0 t ss
      → AllResting e heap n ss
      → AllListed heap (held_all ss)
      → length (held_all ss) ≤ most
      → t ≤ most
      → WithinAll n t heap ss (update_clients luck i heap ss now)
  unfolding update_clients server_is_service_successful
  update_clients-WithinAll luck i heap [] now n t lucky inv rest all h early = record {
    good = record {
      heap' = heap;
      servers' = [];
      runs = refl;
      inv = tt;
      same = refl;
      size = refl;
      keeps = Keeps-refl heap;
    };
    within = tt;
  }
  update_clients-WithinAll luck i heap (s ∷ ss) now n t lucky inv rest all h early =
      let d =
        update_server-Drains (luck i) heap now t s (lucky.push i)
          (ap (λ z. p.lt z (rand_ratio p (luck i).drawn)) rest.0 ∙ lucky.success i) inv.0
          (AllListed-left (held s) (held_all ss) all)
          (omega (arith, length-append (held s) (held_all ss))) early in
      let g = d.good in
      let r =
        update_clients-WithinAll luck (i + 1) g.heap' ss now n t lucky inv.1
          (AllResting-Keeps heap g.heap' n ss g.keeps rest.2)
          (AllListed-trans (SameItems-refl (held_all ss)) g.keeps
            (AllListed-right (held s) (held_all ss) all))
          (omega (arith, length-append (held s) (held_all ss))) early in
      record {
        good = record {
          heap' = r.good.heap';
          servers' = g.server' ∷ r.good.servers';
          runs = rw (g.runs, r.good.runs) refl;
          inv = (g.inv, r.good.inv);
          same = ap₂ (λ xs ys. xs ++ ys) g.same r.good.same;
          size = ap suc r.good.size;
          keeps = Keeps-trans g.keeps r.good.keeps;
        };
        within = (
          d.kin.prob ∙ rest.0,
          omega (arith, left-Keeps g.heap' r.good.heap' g.server' r.good.keeps, d.ticks, rest.1),
          r.within,
        );
      }
