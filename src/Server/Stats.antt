-- ===== src/Server/Stats.antt =====
-- What `server_update_stat` of src/server.c leaves as it is.
use native.Mathlib.Nat.{div-le_self}
use aca_bsim.Common.{
  ℕ, ◌+◌, ◌/◌, ◌%◌, ◌^◌, ◌≤◌, ◌≡◌, refl, ap, ◌∙◌, some, false, Result, ok, Bool, arith, length,
  length-append,
}
use aca_bsim.Common.Int.{ℤ, pos, ltb_ℤ, ◌/ℤ◌, add_size, add_size_small}
use aca_bsim.Queue.Ops.{queue_size}
use aca_bsim.Queue.Refine.{queue_size-IsValid}
use aca_bsim.Server.Enter.{held-parts}
use aca_bsim.Platform.{Platform}
use aca_bsim.Queue.Layout.{contents}
use aca_bsim.Server.Types.{BaseServer, Server, standard, robotic, invalid, base}
use aca_bsim.Server.Accounts.{
  server_update_stat, standard_server_update_stat, robotic_server_update_stat, add_queue_len,
}
use aca_bsim.Server.Held.{
  held, waiting, BaseInv, ServerInv, with_base-ServerInv, Summed, IsMean, most,
}
use aca_bsim.Server.Kin.{Kin, standard-Kin, robotic-Kin}

-- The sum of the queue lengths with one more length.
record Added (t : ℕ) (z : ℤ) (total now : ℕ) : Type 0 where
  size : ℕ
  adds : add_size z total ≡ pos size
  sum : Summed 1 t (add_size z total)
  mean : IsMean (add_size z total /ℤ (now + 1))
  not_negative : ltb_ℤ (add_size z total /ℤ (now + 1)) (pos 0) ≡ false

pub quotient : (z : ℤ) (k n : ℕ) → z ≡ pos k → z /ℤ n ≡ pos (k / n)
unfolding ◌/ℤ◌
quotient z k n e = rw e refl

pub not_below_zero : (k : ℕ) → ltb_ℤ (pos k) (pos 0) ≡ false
not_below_zero k = ground arith

added_lem :
    (t : ℕ) (z : ℤ) (total now : ℕ) → Summed 0 t z → total ≤ most → t ≤ most → Added t z total now
added_lem t z total now h few early =
    let adds =
      ap (λ y. add_size y total) h.is_size ∙ add_size_small h.size total (omega (arith, h.small)) in
    let mean = quotient (add_size z total) (h.size + total) (now + 1) adds in
    record {
      size = h.size + total;
      adds = adds;
      sum = record { size = h.size + total; is_size = adds; small = omega (arith, h.small) };
      mean = record {
        size = (h.size + total) / (now + 1);
        is_size = mean;
        small = omega (arith, h.small, div-le_self (h.size + total) (now + 1));
      };
      not_negative = ap (λ y. ltb_ℤ y (pos 0)) mean ∙ not_below_zero ((h.size + total) / (now + 1));
    }

stat-BaseInv :
    {p : Platform} {strict : Bool} {t : ℕ} (b : BaseServer p) (total now : ℕ)
    → BaseInv strict 1 t b
    → Added t b.stat.sum_queue_lens total now
    → BaseInv strict 1 t (add_queue_len b total now)
stat-BaseInv b total now inv a = record {
  finished = inv.finished;
  served = inv.served;
  elapsed = inv.elapsed;
  busy = inv.busy;
  sum = a.sum;
  mean = a.mean;
}

-- The statistics of a server change nothing else.
pub record StatKept {p : Platform} (strict : Bool) (low t : ℕ) (s : Server p)
    (r : Result (Server p)) : Type 0 where
  pub server : Server p
  pub runs : r ≡ ok server
  pub inv : ServerInv strict low t server
  pub same : held server ≡ held s
  pub kin : Kin s server
  pub current : (base server).current_client ≡ (base s).current_client
  pub to_serve : (base server).to_serve ≡ (base s).to_serve
  pub finished :
      contents (base server).finished_clients_queue ≡ contents (base s).finished_clients_queue
  pub waits : waiting server ≡ waiting s

pub server_update_stat-StatKept :
    {p : Platform} {strict : Bool} {t : ℕ} (s : Server p) (now : ℕ)
    → ServerInv strict 1 t s
    → Summed 0 t (base s).stat.sum_queue_lens
    → t ≤ most
    → length (held s) ≤ most
    → StatKept strict 1 t s (server_update_stat s now)
unfolding server_update_stat standard_server_update_stat robotic_server_update_stat
server_update_stat-StatKept {t = t} (standard s) now inv sum early few =
    let total = queue_size (some s.client_queue) in
    let a =
      added_lem t s.base.stat.sum_queue_lens total now sum
        (omega (arith, queue_size-IsValid s.client_queue inv.queues, held-parts (standard s)))
        early in
    record {
      server = standard (record s { base = add_queue_len s.base total now });
      runs = rw a.not_negative refl;
      inv = with_base-ServerInv (standard s) _ inv (stat-BaseInv s.base total now inv.based a) refl;
      same = refl;
      kin = standard-Kin s _ refl refl;
      current = refl;
      to_serve = refl;
      finished = refl;
      waits = refl;
    }
server_update_stat-StatKept {t = t} (robotic s) now inv sum early few =
    let total =
      (queue_size (some s.normal_client_queue) + queue_size (some s.disable_client_queue))
      % 2 ^ 64 in
    let a =
      added_lem t s.base.stat.sum_queue_lens total now sum
        (omega (
          arith,
          queue_size-IsValid s.disable_client_queue inv.queues.0,
          queue_size-IsValid s.normal_client_queue inv.queues.1,
          length-append (contents s.disable_client_queue) (contents s.normal_client_queue),
          held-parts (robotic s),
        ))
        early in
    record {
      server = robotic (robotic_server_update_stat s now);
      runs = refl;
      inv = with_base-ServerInv (robotic s) _ inv (stat-BaseInv s.base total now inv.based a) refl;
      same = refl;
      kin = robotic-Kin s _ refl refl refl;
      current = refl;
      to_serve = refl;
      finished = refl;
      waits = refl;
    }
server_update_stat-StatKept (invalid b) now inv sum early few = absurd inv.queues
