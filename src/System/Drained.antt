-- ===== src/System/Drained.antt =====
-- Ticks of src/system.c in which nobody arrives and no service fails.
use aca_bsim.Server.Held.{most}
use aca_bsim.Common.{
  ℕ, zero, suc, ◌+◌, ◌<◌, ◌≡◌, refl, ap, ◌∙◌, [], some, Result, ok, ◌>>=◌, arith, length,
  length-append, SameItems-refl, eq-SameItems, ap₂, ◌++◌, true, ◌≤◌,
}
use aca_bsim.Platform.{Platform}
use aca_bsim.Client.{Heap}
use aca_bsim.Queue.Ops.{Queue}
use aca_bsim.Queue.Layout.{IsValid, contents}
use aca_bsim.Queue.Refine.{queue_top-IsValid-nil}
use aca_bsim.Client.Known.{
  AllListed, AllListed-kind, AllListed-trans, Keeps-SameKind, SameKind, SameKind-trans,
}
use aca_bsim.System.Types.{System, Tick}
use aca_bsim.System.Assign.{get_client}
use aca_bsim.System.Tick.{servers_update_serve_time, servers_run, place, admit, system_tick}
use aca_bsim.System.Simulate.{run_ticks}
use aca_bsim.System.Served.{held_all, AllInv, AllListed-left, AllListed-right}
use aca_bsim.System.Arrive.{at_servers}
use aca_bsim.System.Admit.{SameKind-refl}
use aca_bsim.System.Within.{
  AllWithin, Lucky, AllWithin-Keeps, AllResting-Keeps, tick_servers-AllResting,
  update_clients-WithinAll,
}

-- A system to which nobody comes any more, with no more than `n` ticks to go at any server.
pub record Closing {p : Platform} (e : p.Double) (n t : ℕ) (heap : Heap) (y : System p)
    : Type 0 where
  pub queue : Queue ℕ
  pub clients : y.system_clients ≡ some queue
  pub valid : IsValid queue
  pub empty : contents queue ≡ []
  pub standard_inv : AllInv true 1 t y.standard_servers
  pub robotic_inv : AllInv true 1 t y.robotic_servers
  pub standard_within : AllWithin e heap n y.standard_servers
  pub robotic_within : AllWithin e heap n y.robotic_servers

-- The draws of a tick with which no service fails.
pub record LuckyTick (p : Platform) (e : p.Double) (k : Tick) : Type 0 where
  pub standard : Lucky p e k.standard_luck
  pub robotic : Lucky p e k.robotic_luck

pub record Closed {p : Platform} (e : p.Double) (n t : ℕ) (heap : Heap) (y : System p)
    (r : Result (Heap × System p)) : Type 0 where
  pub heap' : Heap
  pub system' : System p
  pub runs : r ≡ ok (heap', system')
  pub closing : Closing e n t heap' system'
  pub same : at_servers system' ≡ at_servers y
  pub kind : SameKind heap heap'

module _ {p : Platform} (e : p.Double) where
  servers_run-Closed :
      (k : Tick) (heap : Heap) (y : System p) (n now t : ℕ)
      → LuckyTick p e k
      → Closing e (suc n) t heap y
      → AllListed heap (at_servers y)
      → length (at_servers y) ≤ most
      → t < most
      → Closed e n (t + 1) heap y (servers_run k heap y now)
  unfolding servers_run servers_update_serve_time
  servers_run-Closed k heap y n now t lucky c at h early =
      let ss = y.standard_servers in
      let rs = y.robotic_servers in
      let both = length-append (held_all ss) (held_all rs) in
      let (ss1, ticked_s, inv_s, rest_s, same_s, size_s) =
        tick_servers-AllResting e heap n t ss c.standard_inv c.standard_within in
      let (rs1, ticked_r, inv_r, rest_r, same_r, size_r) =
        tick_servers-AllResting e heap n t rs c.robotic_inv c.robotic_within in
      let g =
        update_clients-WithinAll e k.standard_luck 0 heap ss1 now n (t + 1) lucky.standard inv_s
          rest_s (rw same_s (AllListed-left (held_all ss) (held_all rs) at))
          (omega (arith, ap length same_s)) (omega arith) in
      let w =
        update_clients-WithinAll e k.robotic_luck 0 g.good.heap' rs1 now n (t + 1) lucky.robotic
          inv_r (AllResting-Keeps e heap g.good.heap' n rs1 g.good.keeps rest_r)
          (rw same_r (
            AllListed-trans (SameItems-refl _) g.good.keeps
              (AllListed-right (held_all ss) (held_all rs) at)))
          (omega (arith, ap length same_r)) (omega arith) in
      record {
        heap' = w.good.heap';
        system' = record y {
          standard_servers = g.good.servers';
          robotic_servers = w.good.servers';
        };
        runs = rw (ticked_s, ticked_r, g.good.runs, w.good.runs) refl;
        closing = record {
          queue = c.queue;
          clients = c.clients;
          valid = c.valid;
          empty = c.empty;
          standard_inv = g.good.inv;
          robotic_inv = w.good.inv;
          standard_within =
              AllWithin-Keeps e g.good.heap' w.good.heap' n g.good.servers' w.good.keeps g.within;
          robotic_within = w.within;
        };
        same = ap₂ (λ xs ys. xs ++ ys) (g.good.same ∙ same_s) (w.good.same ∙ same_r);
        kind = SameKind-trans (Keeps-SameKind g.good.keeps) (Keeps-SameKind w.good.keeps);
      }

  admit_nobody :
      (k : Tick) (heap : Heap) (y : System p) (q : Queue ℕ) (now : ℕ)
      → IsValid q
      → contents q ≡ []
      → admit k heap y (some q) now ≡ ok (heap, record y { system_clients = some q })
  unfolding admit place get_client
  admit_nobody k heap y q now v empty = rw (queue_top-IsValid-nil q v empty) refl

  system_tick-Closed :
      (k : Tick) (heap : Heap) (y : System p) (n now t : ℕ)
      → LuckyTick p e k
      → Closing e (suc n) t heap y
      → AllListed heap (at_servers y)
      → length (at_servers y) ≤ most
      → t < most
      → Closed e n (t + 1) heap y (system_tick k heap y now)
  unfolding system_tick
  system_tick-Closed k heap y n now t lucky c at h early =
      let y1 = record y { system_clients = some c.queue } in
      let s =
        servers_run-Closed k heap y1 n now t lucky
          (record {
            queue = c.queue;
            clients = refl;
            valid = c.valid;
            empty = c.empty;
            standard_inv = c.standard_inv;
            robotic_inv = c.robotic_inv;
            standard_within = c.standard_within;
            robotic_within = c.robotic_within;
          })
          at h early in
      record {
        heap' = s.heap';
        system' = s.system';
        runs =
            ap (λ r. r >>= λ z. servers_run k z.0 z.1 now)
              (ap (λ o. admit k heap y o now) c.clients
                ∙ admit_nobody k heap y c.queue now c.valid c.empty)
            ∙ s.runs;
        closing = s.closing;
        same = s.same;
        kind = s.kind;
      }

  pub run_ticks-Closed :
      (ticks : ℕ → Tick) (n now t end : ℕ) (heap : Heap) (y : System p)
      → end ≡ t + n
      → ((i : ℕ) → LuckyTick p e (ticks i))
      → Closing e n t heap y
      → AllListed heap (at_servers y)
      → length (at_servers y) ≤ most
      → end ≤ most
      → Closed e 0 end heap y (run_ticks ticks n now heap y)
  unfolding run_ticks
  run_ticks-Closed ticks zero now t end heap y same_time lucky c at h early = record {
    heap' = heap;
    system' = y;
    runs = refl;
    closing = let same : end ≡ t = omega arith in rw same c;
    same = refl;
    kind = SameKind-refl heap;
  }
  run_ticks-Closed ticks (suc n) now t end heap y same_time lucky c at h early =
      let a = system_tick-Closed (ticks now) heap y n now t (lucky now) c at h (omega arith) in
      let b =
        run_ticks-Closed ticks n (now + 1) (t + 1) end a.heap' a.system' (omega arith) lucky
          a.closing (AllListed-kind (eq-SameItems a.same) a.kind at)
          (omega (arith, ap length a.same)) early in
      record {
        heap' = b.heap';
        system' = b.system';
        runs = rw a.runs b.runs;
        closing = b.closing;
        same = b.same ∙ a.same;
        kind = SameKind-trans a.kind b.kind;
      }
