-- ===== src/Main/Ended.antt =====
-- A setup of src/main.c from its start to the freeing of its servers.
use aca_bsim.Common.{
  ℕ, zero, suc, ◌≤◌, ◌≡◌, refl, sym, ap, ◌∙◌, subst, List, [], ◌∷◌, ◌++◌, append_assoc, false,
  Option, some, true, inl, inr, Result, ok, arith, ◌==◌, ==_iff, Bool-cases, length, length-append,
  count, count-append, SameItems, SameItems-refl, SameItems-append, Bool, Remains,
  SameItems-Remains, Remains-trans,
}
use aca_bsim.Common.Int.{pos}
use aca_bsim.Platform.{Platform}
use aca_bsim.Client.{Heap}
use aca_bsim.Client.Schedule.{ids, Scheduled}
use aca_bsim.Queue.Ops.{Queue}
use aca_bsim.Queue.Layout.{IsValid, contents}
use aca_bsim.Server.Types.{Server}
use aca_bsim.Client.Known.{IsListed, AllListed}
use aca_bsim.Server.Held.{held, most}
use aca_bsim.Server.Made.{AllGranted}
use aca_bsim.Server.Release.{Frees, server_free-Frees}
use aca_bsim.Stat.{SimStat}
use aca_bsim.System.Types.{System}
use aca_bsim.System.Served.{held_all, AllInv}
use aca_bsim.System.Admit.{system_list, everyone, SystemInv, SystemInv-lenient, Granted}
use aca_bsim.System.Total.{simulate_lem, AllInv-append}
use aca_bsim.Params.{SimParam}
use aca_bsim.Main.{Chance, free_servers, run_setup}

-- Clients that arrive one after the other by `bound` are no more than `bound`, and of known kinds.
pub Scheduled-few : (heap : Heap) (n bound : ℕ) → Scheduled heap n bound → n ≤ bound
Scheduled-few heap zero bound s = omega arith
Scheduled-few heap (suc n) bound (a, e, less, l, s) = omega (arith, Scheduled-few heap n a s)

pub Scheduled-AllListed :
    (heap : Heap) (n bound : ℕ) → Scheduled heap n bound → AllListed heap (ids n)
Scheduled-AllListed heap zero bound s c h = absurd (omega arith)
Scheduled-AllListed heap (suc n) bound (a, e, less, l, s) c h = elim (Bool-cases (c == n)) [
  | inl same ↦ subst (λ k. IsListed (heap k)) (sym ((==_iff c n).0 same)) l
  | inr other ↦
      Scheduled-AllListed heap n a s c (omega (arith, count-append c (ids n) (n ∷ []), one other))
]
  where
    one : (c == n) ≡ false → count c (n ∷ []) ≡ 0
    one other = rw other refl

pub SameItems-swap : (xs ys : List ℕ) → SameItems (xs ++ ys) (ys ++ xs)
SameItems-swap xs ys = record {
  lengths = omega (arith, length-append xs ys, length-append ys xs);
  counts = λ a. omega (arith, count-append a xs ys, count-append a ys xs);
}

-- The pushes of the ticks are granted, or may be refused.
abbrev pub TicksGranted : Bool → Chance → Type 0
TicksGranted true chance = (i : ℕ) → Granted (chance.ticks i)
TicksGranted false chance = Unit

ticks_granted :
    (strict : Bool) (chance : Chance)
    → TicksGranted strict chance
    → (i : ℕ) → strict ≡ true
    → Granted (chance.ticks i)
ticks_granted true chance granted i e = granted i
ticks_granted false chance granted i e = absurd (cc)

-- What the environment must grant for a test to go through.
pub record Fair (strict : Bool) (chance : Chance) : Type 0 where
  pub queue : chance.granted ≡ true
  pub slots : chance.granted_items ≡ true
  pub servers : (i : ℕ) → AllGranted (chance.memory i)
  pub ticks : TicksGranted strict chance

module _ {p : Platform} where
  free_servers-Frees :
      (strict : Bool) (low t : ℕ) (ss : List (Server p))
      → AllInv strict low t ss
      → Frees (free_servers ss) (held_all ss)
  unfolding free_servers
  free_servers-Frees strict low t [] inv = record {
    freed = [];
    runs = refl;
    same = SameItems-refl [];
  }
  free_servers-Frees strict low t (s ∷ ss) inv =
      let f = server_free-Frees s inv.0 in
      let r = free_servers-Frees strict low t ss inv.1 in
      record {
        freed = f.freed ++ r.freed;
        runs = rw (f.runs, r.runs) refl;
        same = SameItems-append f.same r.same;
      }

  held_all-append : (ss rs : List (Server p)) → held_all (ss ++ rs) ≡ held_all ss ++ held_all rs
  held_all-append [] rs = refl
  held_all-append (s ∷ ss) rs =
      ap (λ xs. held s ++ xs) (held_all-append ss rs)
      ∙ sym (append_assoc (held s) (held_all ss) (held_all rs))

-- A setup that came to its end, with the clients of `q` as its clients.
pub record Ended (strict : Bool) (q : Queue ℕ) (r : Result (SimStat × Option (Queue ℕ) × List ℕ))
    : Type 0 where
  pub stat : SimStat
  pub queue : Queue ℕ
  pub freed : List ℕ
  pub runs : r ≡ ok (stat, some queue, freed)
  pub valid : IsValid queue
  pub remains : Remains strict (contents queue ++ freed) (contents q)
  pub total : stat.total_clients ≡ pos (length (contents q))

module _ {p : Platform} where
  -- The run of a setup whose servers hold no client yet.
  pub run_setup-Ended :
      (strict : Bool) (chance : Chance) (heap : Heap) (y : System p) (params : SimParam p) (n : ℕ)
      (s : Server p) (servers : List (Server p)) (q : Queue ℕ)
      → params.simulation_time ≡ pos n
      → y.standard_servers ≡ s ∷ servers
      → y.system_clients ≡ some q
      → everyone y ≡ contents q
      → SystemInv true 0 y
      → Fair strict chance
      → AllListed heap (contents q)
      → length (contents q) ≤ most
      → n ≤ most
      → Ended strict q (run_setup chance heap y params)
  unfolding run_setup
  run_setup-Ended strict chance heap y params n s servers q time first its all inv fair listed h
        early =
      let f =
        simulate_lem strict chance.ticks chance.granted_iterator heap y n chance.stats s servers
          first (SystemInv-lenient strict 0 y inv) (ticks_granted strict chance fair.ticks)
          (subst (AllListed heap) (sym all) listed) (omega (arith, ap length all)) early in
      let ss = f.system'.standard_servers in
      let rs = f.system'.robotic_servers in
      let r =
        free_servers-Frees strict 1 n (ss ++ rs)
          (AllInv-append strict 1 n ss rs f.inv.standard_inv f.inv.robotic_inv) in
      record {
        stat = f.stat';
        queue = f.inv.queue;
        freed = r.freed;
        runs = rw (time, f.runs, r.runs, f.inv.clients) refl;
        valid = f.inv.valid;
        remains =
            Remains-trans
              (SameItems-Remains strict
                (SameItems-append (SameItems-refl (contents f.inv.queue)) r.same))
              (subst (Remains strict (contents f.inv.queue ++ held_all (ss ++ rs))) all (
                subst (λ xs. Remains strict xs (everyone y))
                  (rw (f.inv.clients, held_all-append ss rs) refl) f.remains));
        total = f.clients ∙ ap (λ o. pos (length (system_list o))) its;
      }
