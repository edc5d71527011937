-- ===== src/System/Follow/Rounds.antt =====
-- The two passes of `servers_run` of src/system.c, on the views of the servers.
use aca_bsim.Common.{
  ℕ, suc, ◌+◌, ◌≡◌, subst, List, [], ◌∷◌, true, Result, arith, length, length-append,
  SameItems-refl, Yields, bind-Yields_from, ◌≤◌,
}
use aca_bsim.Platform.{Platform}
use aca_bsim.Client.{Heap}
use aca_bsim.Client.Known.{AllListed, AllListed-trans, SameKind, SameKind-trans, Keeps-SameKind}
use aca_bsim.Server.Types.{BaseServer, Server, base, with_base}
use aca_bsim.Server.Held.{held, ServerInv, most}
use aca_bsim.Server.Kin.{Kin, Kin-trans, is_standard, with_base-Kin}
use aca_bsim.Server.Ticked.{Ticked, server_tick-Ticked}
use aca_bsim.Server.Machine.{View, view, time_at, Reach, tick, ticked, Serves, Serves-time}
use aca_bsim.Server.Views.{time_at-same, view-tick}
use aca_bsim.System.Types.{Luck}
use aca_bsim.System.Tick.{tick_servers, update_clients}
use aca_bsim.System.Served.{held_all, AllInv, AllListed-left, AllListed-right}
use aca_bsim.System.Follow.Served.{Follows, update_server-Follows}
use aca_bsim.System.Follow.Joined.{Reached, AllReached}

module _ {p : Platform} where
  -- One server after `n` ticks and the first pass of another.
  pub record Ready (heap : Heap) (n : ℕ) (s s' : Server p) : Type 0 where
    pub kin : Kin s s'
    pub clients : List ℕ
    pub before : View
    pub reach : Reach (time_at heap s) (is_standard s) (view s) n clients before
    pub counted : view s' ≡ ticked before

  abbrev pub AllReady : Heap → ℕ → List (Server p) → List (Server p) → Type 0
  AllReady heap n [] [] = Unit
  AllReady heap n (s ∷ ss) (s' ∷ ss') = Ready heap n s s' × AllReady heap n ss ss'
  AllReady heap n [] (s' ∷ ss') = ⊥
  AllReady heap n (s ∷ ss) [] = ⊥

  Ticked-Ready :
      (heap0 : Heap) (n t : ℕ) (s0 s : Server p) (b : BaseServer p)
      → ServerInv true 1 t s
      → Ticked true t (base s) b
      → Reached heap0 n s0 s
      → Ready heap0 n s0 (with_base s b)
  Ticked-Ready heap0 n t s0 s b inv k r = record {
    kin = Kin-trans r.kin (with_base-Kin s b inv k.table k.prob);
    clients = r.clients;
    before = view s;
    reach = r.reach;
    counted = view-tick s b k;
  }

  pub tick_servers-AllReady :
      (heap0 : Heap) (n t : ℕ) (ss0 ss : List (Server p))
      → AllInv true 1 t ss
      → AllReached heap0 n ss0 ss
      → Yields (AllReady heap0 n ss0) (tick_servers ss)
  unfolding tick_servers
  tick_servers-AllReady heap0 n t [] [] inv all = tt
  tick_servers-AllReady heap0 n t (s0 ∷ ss0) [] inv all = absurd all
  tick_servers-AllReady heap0 n t [] (s ∷ ss) inv all = absurd all
  tick_servers-AllReady heap0 n t (s0 ∷ ss0) (s ∷ ss) inv all =
      let (b, runs, k) = server_tick-Ticked t (base s) inv.0.based in
      rw runs (
        bind-Yields_from _ _ (tick_servers ss) _
          (tick_servers-AllReady heap0 n t ss0 ss inv.1 all.1)
          λ ss' ready. (Ticked-Ready heap0 n t s0 s b inv.0 k all.0, ready))

  Follows-Reached :
      {t : ℕ} {r : Result (Heap × Server p)} (heap0 heap : Heap) (n : ℕ) (s0 s : Server p)
      → SameKind heap0 heap
      → Ready heap0 n s0 s
      → (f : Follows true t heap s r) → Reached heap0 (suc n) s0 f.good.server'
  Follows-Reached heap0 heap n s0 s known a f = record {
    kin = Kin-trans a.kin f.kin;
    clients = a.clients;
    reach = tick a.reach (
        Serves-time (time_at-same heap0 heap s0 s known a.kin)
          (subst (λ v. Serves (time_at heap s) v (view f.good.server')) a.counted f.serves));
  }

  pub update_clients-AllReached :
      (heap0 : Heap) (n t : ℕ) (ss0 : List (Server p)) (luck : ℕ → Luck) (i : ℕ) (heap : Heap)
      (ss : List (Server p)) (now : ℕ)
      → ((k : ℕ) → (luck k).granted_push ≡ true)
      → AllInv true 0 t ss
      → AllListed heap (held_all ss)
      → length (held_all ss) ≤ most
      → t ≤ most
      → SameKind heap0 heap
      → AllReady heap0 n ss0 ss
      → Yields (λ r. AllReached heap0 (suc n) ss0 r.1) (update_clients luck i heap ss now)
  unfolding update_clients
  update_clients-AllReached heap0 n t [] luck i heap [] now granted inv listed h early known all =
      tt
  update_clients-AllReached heap0 n t (s0 ∷ ss0) luck i heap [] now granted inv listed h early known
        all =
      absurd all
  update_clients-AllReached heap0 n t [] luck i heap (s ∷ ss) now granted inv listed h early known
        all =
      absurd all
  update_clients-AllReached heap0 n t (s0 ∷ ss0) luck i heap (s ∷ ss) now granted inv listed h early
        known all =
      let few = length-append (held s) (held_all ss) in
      let f =
        update_server-Follows (luck i) heap now t s inv.0
          (AllListed-left (held s) (held_all ss) listed) (granted i) (omega arith) early in
      rw f.good.runs (
        bind-Yields_from _ _ (update_clients luck (i + 1) f.good.heap' ss now) _
          (update_clients-AllReached heap0 n t ss0 luck (i + 1) f.good.heap' ss now granted inv.1
            (AllListed-trans (SameItems-refl (held_all ss)) f.good.keeps
              (AllListed-right (held s) (held_all ss) listed))
            (omega arith) early (SameKind-trans known (Keeps-SameKind f.good.keeps)) all.1)
          λ r reached. (Follows-Reached heap0 heap n s0 s known all.0 f, reached))
