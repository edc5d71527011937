-- ===== src/System/Waits.antt =====
-- What the waiting and service times of src/system.c measure.
use aca_bsim.Common.{ℕ, ◌≡◌, ap, ◌∙◌, List, ◌∷◌, some, Bool, ok, arith}
use aca_bsim.Common.Int.{pos, ◌-ℤ◌, sub-zero_ℤ, eqb_ℤ_refl}
use aca_bsim.Client.{
  Client, Heap, write, client_set_start_service_time, client_set_wait_time, client_set_finish_time,
  client_set_total_service_time, client_finalize,
}
use aca_bsim.Queue.Ops.{Queue}
use aca_bsim.Queue.Layout.{IsValid, contents}
use aca_bsim.Queue.Refine.{queue_top-IsValid, queue_pop-IsValid}
use aca_bsim.Server.Serve.{start_service}
use aca_bsim.System.Assign.{get_client}
use aca_bsim.System.Arrive.{fresh, enter_lem}

-- The entry of a client, and what is recorded of it later.
pub record Recorded (granted : Bool) (heap : Heap) (q : Queue ℕ) (now c : ℕ) (xs : List ℕ)
    : Type 0 where
  pub heap' : Heap
  pub queue' : Queue ℕ
  pub enters : get_client granted heap q now ≡ ok (heap', queue', some c)
  pub valid : IsValid queue'
  pub left : contents queue' ≡ xs
  pub wait_time : (start : ℕ) → (start_service heap' c start c).service_stat.wait_time ≡ pos start
  pub total_time :
      (end : ℕ) → (client_finalize (heap' c) (pos end)).service_stat.total_time ≡ pos end

written : (heap : Heap) (c : ℕ) (client : Client) → write heap c client c ≡ client
written heap c client = ground arith

pub start-wait_time :
    (heap : Heap) (c start : ℕ)
    → (start_service heap c start c).service_stat.wait_time
      ≡ pos start -ℤ (heap c).service_stat.arrival_time
unfolding start_service client_set_start_service_time client_set_wait_time
start-wait_time heap c start = ap (λ k. k.service_stat.wait_time) (written heap c _)

-- A client on top of a well-formed queue whose arrival time is now is let in by `get_client` and
-- taken off the queue; afterwards the waiting time recorded when its service starts is that start
-- time itself, and the service time recorded at its end is that end time itself, whatever its
-- arrival time was.
pub get_client-Recorded :
    (granted : Bool) (heap : Heap) (q : Queue ℕ) (now c : ℕ) (xs : List ℕ)
    → IsValid q
    → contents q ≡ c ∷ xs
    → (heap c).service_stat.arrival_time ≡ pos now
    → Recorded granted heap q now c xs
unfolding client_finalize client_set_finish_time client_set_total_service_time
get_client-Recorded granted heap q now c xs v e due =
    let top = queue_top-IsValid q c xs v e in
    let (q', popped, v', e') = queue_pop-IsValid granted q c xs v e in
    record {
      heap' = fresh heap c;
      queue' = q';
      enters = enter_lem granted heap q q' now c top popped (rw due (eqb_ℤ_refl (pos now)));
      valid = v';
      left = e';
      wait_time = λ start.
          start-wait_time (fresh heap c) c start
          ∙ ap (λ k. pos start -ℤ k.service_stat.arrival_time) (written heap c _)
          ∙ sub-zero_ℤ start;
      total_time = λ end.
          ap (λ k. pos end -ℤ k.service_stat.arrival_time) (written heap c _) ∙ sub-zero_ℤ end;
    }
