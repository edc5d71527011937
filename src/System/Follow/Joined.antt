-- ===== src/System/Follow/Joined.antt =====
-- A client who enters the system of src/system.c, on the views of the servers.
use aca_bsim.Common.{
  ℕ, zero, suc, ◌^◌, ◌<◌, ◌≡◌, refl, sym, ap, ◌∙◌, subst, List, [], ◌∷◌, ◌++◌, append-nil,
  append_assoc, Option, none, some, true, inl, inr, not, ◌==◌, Bool-cases, arith, length,
  length-append, Yields, bind-Yields, bind-Yields_from, if-Yields,
}
use aca_bsim.Common.Int.{ℤ, ltb_ℤ}
use aca_bsim.Platform.{Platform, no_disability}
use aca_bsim.Client.{Heap}
use aca_bsim.Queue.Layout.{contents}
use aca_bsim.Server.Types.{Server, standard, robotic, invalid}
use aca_bsim.Server.Held.{held, waiting, QueuesValid}
use aca_bsim.Server.Kin.{Kin, Kin-trans, is_standard}
use aca_bsim.Server.Enter.{Entered, joined, server_assign_client-Entered}
use aca_bsim.Server.Left.{under_way}
use aca_bsim.Server.Machine.{view, time_at, Reach, join}
use aca_bsim.System.Types.{System}
use aca_bsim.System.Assign.{
  lowest_load, assign_at, to_standard, to_robotic, choose_server, assign_client, int32_max,
}
use aca_bsim.System.Served.{held_all, AllInv}

module _ {p : Platform} where
  -- One server after `n` ticks.
  pub record Reached (heap : Heap) (n : ℕ) (s s' : Server p) : Type 0 where
    pub kin : Kin s s'
    pub clients : List ℕ
    pub reach : Reach (time_at heap s) (is_standard s) (view s) n clients (view s')

  -- The servers of an array after `n` ticks, one by one.
  abbrev pub AllReached : Heap → ℕ → List (Server p) → List (Server p) → Type 0
  AllReached heap n [] [] = Unit
  AllReached heap n (s ∷ ss) (s' ∷ ss') = Reached heap n s s' × AllReached heap n ss ss'
  AllReached heap n [] (s' ∷ ss') = ⊥
  AllReached heap n (s ∷ ss) [] = ⊥

  pub record SystemReached (heap : Heap) (n : ℕ) (y y' : System p) : Type 0 where
    pub standard_reached : AllReached heap n y.standard_servers y'.standard_servers
    pub robotic_reached : AllReached heap n y.robotic_servers y'.robotic_servers

  -- Where a client joins those who wait.
  place_joined :
      (heap : Heap) (s : Server p) (c : ℕ)
      → QueuesValid s
      → (xs ys : List ℕ) × (waiting s ≡ xs ++ ys)
        × (joined heap s c ≡ xs ++ c ∷ ys)
        × (is_standard s ≡ true → ys ≡ [])
  place_joined heap (standard s) c v =
      (contents s.client_queue, [], sym (append-nil (contents s.client_queue)), refl, λ e. refl)
  place_joined heap (robotic s) c v =
      let ds = contents s.disable_client_queue in
      let ns = contents s.normal_client_queue in
      elim (Bool-cases ((heap c).disability_type == no_disability)) [
        | inl able ↦ (
          ds ++ ns,
          [],
          sym (append-nil (ds ++ ns)),
          rw able (sym (append_assoc ds ns (c ∷ []))),
          λ e. refl,
        )
        | inr disabled ↦ (ds, ns, refl, rw disabled (append_assoc ds (c ∷ []) ns), λ e. absurd (cc))
      ]
  place_joined heap (invalid b) c v = absurd v

  view-enter :
      {low t c : ℕ} (heap : Heap) (s : Server p) (e : Entered true low t heap s c)
      → view e.server ≡ record (view s) { waiting = joined heap s c }
  view-enter {c} heap s e =
      ap
        (λ b. record {
          finished = contents b.finished_clients_queue;
          current = b.current_client;
          to_go = under_way b.current_client b.to_serve;
          waiting = waiting e.server;
        })
        e.kept
      ∙ ap (λ xs. record (view s) { waiting = xs }) e.waits

  enter-Reached :
      {low t : ℕ} (heap0 heap : Heap) (n : ℕ) (s0 s : Server p) (c : ℕ)
      → QueuesValid s
      → Reached heap0 n s0 s
      → (e : Entered true low t heap s c) → Reached heap0 n s0 e.server
  enter-Reached heap0 heap n s0 s c v r e =
      let (xs, ys, waits, joins, last) = place_joined heap s c v in
      record {
        kin = Kin-trans r.kin e.kin;
        clients = r.clients ++ c ∷ [];
        reach =
            subst (Reach (time_at heap0 s0) (is_standard s0) (view s0) n (r.clients ++ c ∷ []))
              (ap (λ zs. record (view s) { waiting = zs }) (sym joins) ∙ sym (view-enter heap s e))
              (join c xs ys waits (λ k. last (r.kin.kind ∙ k)) r.reach);
      }

  assign_at-AllReached :
      (heap0 heap : Heap) (n t : ℕ) (ss0 ss : List (Server p)) (i c : ℕ)
      → AllInv true 1 t ss
      → length (held_all ss) < 2 ^ 31
      → AllReached heap0 n ss0 ss
      → Yields (AllReached heap0 n ss0) (assign_at true heap ss i c)
  unfolding assign_at
  assign_at-AllReached heap0 heap n t ss0 [] i c inv h all = tt
  assign_at-AllReached heap0 heap n t [] (s ∷ ss) i c inv h all = absurd all
  assign_at-AllReached heap0 heap n t (s0 ∷ ss0) (s ∷ ss) zero c inv h all =
      let few = length-append (held s) (held_all ss) in
      let e = server_assign_client-Entered heap s c inv.0 (omega arith) in
      rw e.runs (enter-Reached heap0 heap n s0 s c inv.0.queues all.0 e, all.1)
  assign_at-AllReached heap0 heap n t (s0 ∷ ss0) (s ∷ ss) (suc i) c inv h all =
      let few = length-append (held s) (held_all ss) in
      bind-Yields_from _ _ (assign_at true heap ss i c) _
        (assign_at-AllReached heap0 heap n t ss0 ss i c inv.1 (omega arith) all.1)
        λ ss' reached. (all.0, reached)

module _ {p : Platform} (heap0 heap : Heap) (n t : ℕ) (y0 y : System p)
    (inv_s : AllInv true 1 t y.standard_servers) (inv_r : AllInv true 1 t y.robotic_servers)
    (few_s : length (held_all y.standard_servers) < 2 ^ 31)
    (few_r : length (held_all y.robotic_servers) < 2 ^ 31)
    (reached : SystemReached heap0 n y0 y) where
  to_standard-Reached : (c i : ℕ) → Yields (SystemReached heap0 n y0) (to_standard true heap y c i)
  unfolding to_standard
  to_standard-Reached c i =
      bind-Yields_from _ _ (assign_at true heap y.standard_servers i c) _
        (assign_at-AllReached heap0 heap n t y0.standard_servers y.standard_servers i c inv_s few_s
          reached.standard_reached)
        λ ss all. record { standard_reached = all; robotic_reached = reached.robotic_reached }

  to_robotic-Reached : (c i : ℕ) → Yields (SystemReached heap0 n y0) (to_robotic true heap y c i)
  unfolding to_robotic
  to_robotic-Reached c i =
      bind-Yields_from _ _ (assign_at true heap y.robotic_servers i c) _
        (assign_at-AllReached heap0 heap n t y0.robotic_servers y.robotic_servers i c inv_r few_r
          reached.robotic_reached)
        λ ss all. record { standard_reached = reached.standard_reached; robotic_reached = all }

  choose_server-Reached :
      (c : ℕ) (s : Option ℕ) (a : ℤ) (r : Option ℕ) (b : ℤ)
      → Yields (SystemReached heap0 n y0) (choose_server true heap y c s a r b)
  unfolding choose_server
  choose_server-Reached c none a none b = tt
  choose_server-Reached c none a (some r) b = to_robotic-Reached c r
  choose_server-Reached c (some s) a none b = to_standard-Reached c s
  choose_server-Reached c (some s) a (some r) b =
      if-Yields _ (not ((heap c).disability_type == no_disability)) _ _ (to_robotic-Reached c r)
        (if-Yields _ (ltb_ℤ b a) _ _ (to_robotic-Reached c r) (to_standard-Reached c s))

  pub assign_client-Reached :
      (c : ℕ) → Yields (SystemReached heap0 n y0) (assign_client true heap y c)
  unfolding assign_client
  assign_client-Reached c =
      bind-Yields _ (lowest_load (heap c).disability_type y.standard_servers 0 none int32_max) _
        λ s.
          bind-Yields _ (lowest_load (heap c).disability_type y.robotic_servers 0 none int32_max) _
            λ r. choose_server-Reached c s.0 s.1 r.0 r.1
