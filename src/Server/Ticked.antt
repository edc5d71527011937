-- ===== src/Server/Ticked.antt =====
-- `server_tick` of src/server.c.
use aca_bsim.Common.{
  ℕ, ◌+◌, ◌-◌, ◌≤◌, ◌≡◌, refl, sym, ap, ◌∙◌, Option, none, some, true, inl, inr, ◌⊎◌, ok, arith,
  Bool,
}
use aca_bsim.Common.Int.{pos_part, ℤ, pos, ◌-ℤ◌, ltb_ℤ}
use aca_bsim.Platform.{Platform}
use aca_bsim.Server.Types.{BaseServer}
use aca_bsim.Server.Serve.{is_some, server_tick}
use aca_bsim.Server.Held.{BaseInv, Summed}
use aca_bsim.Server.Left.{under_way}

pos-sub_one : (n : ℕ) → 1 ≤ n → pos n -ℤ pos 1 ≡ pos (n - 1)
unfolding ◌-ℤ◌
pos-sub_one n h = ground arith

pos-ltb : (n : ℕ) → 1 ≤ n → ltb_ℤ (pos 0) (pos n) ≡ true
pos-ltb n h = ground arith

-- A tick that is counted, with its statistics to come.
due : {t : ℕ} {sum : ℤ} → Summed 1 t sum → Summed 0 (t + 1) sum
due h = record { size = h.size; is_size = h.is_size; small = omega (arith, h.small) }

-- What is left to serve, where a client is being served.
pub busy_some :
    {low : ℕ} {current : Option ℕ} {to_serve : ℤ} (c : ℕ)
    → (current ≡ none) ⊎ ((n : ℕ) × (to_serve ≡ pos n) × (low ≤ n))
    → current ≡ some c
    → (n : ℕ) × (to_serve ≡ pos n) × (low ≤ n)
busy_some c (inl idle) e = absurd (cc (sym idle ∙ e))
busy_some c (inr left) e = left

-- What a tick leaves alone.
pub record Ticked {p : Platform} (strict : Bool) (t : ℕ) (b b' : BaseServer p) : Type 0 where
  pub inv : BaseInv strict 0 (t + 1) b'
  pub current : b'.current_client ≡ b.current_client
  pub finished : b'.finished_clients_queue ≡ b.finished_clients_queue
  pub table : b'.service_time_table ≡ b.service_time_table
  pub prob : b'.error_prob ≡ b.error_prob
  pub to_go : under_way b'.current_client b'.to_serve ≡ under_way b.current_client b.to_serve - 1

module _ {p : Platform} {strict : Bool} (t : ℕ) where
  tick_at :
      (b : BaseServer p) (current : Option ℕ)
      → b.current_client ≡ current
      → BaseInv strict 1 t b
      → (b' : BaseServer p) × (server_tick p b ≡ ok b') × Ticked strict t b b'
  unfolding server_tick
  tick_at b none e inv = (
    record b { stat = record b.stat { idle_time = b.stat.idle_time + 1 } },
    rw e refl,
    record {
      inv = record {
        finished = inv.finished;
        served = inv.served;
        elapsed = omega (arith, inv.elapsed);
        sum = due inv.sum;
        mean = inv.mean;
        busy = inl e;
      };
      current = refl;
      finished = refl;
      table = refl;
      prob = refl;
      to_go = omega (arith, ap (λ o. under_way o b.to_serve) e);
    },
  )
  tick_at b (some c) e inv =
      let (n, left, more) = busy_some c inv.busy e in
      (
        record b {
          stat = record b.stat { active_time = b.stat.active_time + 1 };
          to_serve = b.to_serve -ℤ pos 1;
        },
        ticked e (rw left (pos-ltb n more)),
        record {
          inv = record {
            finished = inv.finished;
            served = inv.served;
            elapsed = omega (arith, inv.elapsed);
            sum = due inv.sum;
            mean = inv.mean;
            busy = inr (n - 1, ap (λ k. k -ℤ pos 1) left ∙ pos-sub_one n more, omega arith);
          };
          current = refl;
          finished = refl;
          table = refl;
          prob = refl;
          to_go = omega (
            arith,
            ap (λ o. under_way o (b.to_serve -ℤ pos 1)) e,
            ap (λ o. under_way o b.to_serve) e,
            ap pos_part (ap (λ k. k -ℤ pos 1) left ∙ pos-sub_one n more),
            ap pos_part left,
          );
        },
      )
    where
      ticked :
          b.current_client ≡ some c
          → ltb_ℤ (pos 0) b.to_serve ≡ true
          → server_tick p b
            ≡ ok (record b {
              stat = record b.stat { active_time = b.stat.active_time + 1 };
              to_serve = b.to_serve -ℤ pos 1;
            })
      ticked e positive = rw (ap is_some e, positive) refl

  pub server_tick-Ticked :
      (b : BaseServer p)
      → BaseInv strict 1 t b
      → (b' : BaseServer p) × (server_tick p b ≡ ok b') × Ticked strict t b b'
  server_tick-Ticked b inv = tick_at b b.current_client refl inv
