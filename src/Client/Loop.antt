-- ===== src/Client/Loop.antt =====
-- The loop of `clients_init` of src/client.c, round by round.
use aca_bsim.Common.{
  ℕ, zero, suc, ◌+◌, ◌^◌, ◌≤◌, ◌<◌, ◌≡◌, refl, sym, ap, ◌∙◌, subst, [], ◌∷◌, ◌++◌, some, Bool, true,
  lt→ltb, le→ltb, ltb→lt, inl, inr, Result, ok, arith, ltb, Bool-cases, length,
}
use aca_bsim.Common.Int.{ℤ, pos, ◌+ℤ◌, ltb_ℤ}
use aca_bsim.Platform.{Platform}
use aca_bsim.Platform.Sample.{exponential_sample}
use aca_bsim.Queue.Ops.{Queue, base_size, queue_push, push}
use aca_bsim.Queue.Layout.{IsValid, contents, init-Layout, Layout-IsValid, Layout-contents}
use aca_bsim.Queue.Refine.{push-IsValid}
use aca_bsim.Client.{Client, Heap, write}
use aca_bsim.Client.Arrivals.{Draw, Entry, new_client, clients_loop, clients_init}
use aca_bsim.Client.Schedule.{
  ids, length-ids, Scheduled, Scheduled-mono, Scheduled-write, pos-add, Regular,
  new_client-IsListed,
}

-- The outcome of `clients_init`: a well-formed queue of the clients made, in the order in which they
-- arrive, all before `bound`.
pub record Arranged (bound : ℕ) (r : Result Entry) : Type 0 where
  pub entry : Entry
  pub queue : Queue ℕ
  pub runs : r ≡ ok entry
  pub clients : entry.clients ≡ some queue
  pub valid : IsValid queue
  pub order : contents queue ≡ ids entry.id
  pub schedule : Scheduled entry.heap entry.id bound

Arranged-at : {bound : ℕ} {r r' : Result Entry} → r ≡ r' → Arranged bound r' → Arranged bound r
Arranged-at {bound} e a = subst (Arranged bound) (sym e) a

pos-ltb_ℤ : (a b : ℕ) → ltb_ℤ (pos a) (pos b) ≡ ltb a b
pos-ltb_ℤ a b = ground arith

written : (heap : Heap) (c : ℕ) (client : Client) → write heap c client c ≡ client
written heap c client = ground arith

-- The loop's variables after a round.
abbrev entry_at : Heap → Queue ℕ → ℕ → ℤ → Entry
entry_at heap q id next = record { heap = heap; clients = some q; id = id; next = next }

module _ (p : Platform) (disability_prob destination_prob : p.Double) (draws : ℕ → Draw) (bound : ℕ)
    (regular : Regular p draws) where
  advance :
      (k now : ℕ) → (m : ℕ) × (pos now +ℤ exponential_sample p (draws k).gap ≡ pos (now + suc m))
  advance k now = let (m, e) = regular.gap k in (m, ap (λ z. pos now +ℤ z) e ∙ pos-add now (suc m))

  -- A round, where `next` is any time.
  abbrev after : ℕ → ℕ → ℕ → ℕ → Heap → Queue ℕ → ℤ → Result Entry
  after fuel k id id' heap q' next =
      clients_loop p disability_prob destination_prob (pos bound) draws fuel (k + 1) (
        entry_at (write heap id (new_client p disability_prob destination_prob id next (draws k)))
          q' id' next)

  abbrev before : ℕ → ℕ → ℕ → ℕ → Heap → Queue ℕ → Result Entry
  before fuel k id now heap q =
      clients_loop p disability_prob destination_prob (pos bound) draws (suc fuel) k
        (entry_at heap q id (pos now))

  queue_push-some :
      (q q' : Queue ℕ) (id : ℕ) (granted : Bool)
      → granted ≡ true
      → push true q id ≡ ok (q', true)
      → queue_push granted (some q) (some id) ≡ ok (some q', true)
  unfolding queue_push
  queue_push-some q q' id granted e pushed = rw (e, pushed) refl

  goes_on :
      (fuel k id now : ℕ) (heap : Heap) (q q' : Queue ℕ)
      → ltb_ℤ (pos now +ℤ exponential_sample p (draws k).gap) (pos bound) ≡ true
      → push true q id ≡ ok (q', true)
      → before fuel k id now heap q
        ≡ after fuel k id (id + 1) heap q' (pos now +ℤ exponential_sample p (draws k).gap)
  unfolding clients_loop
  goes_on fuel k id now heap q q' test pushed =
      rw (test, clients_loop)
        (simp (
          regular.client k,
          queue_push-some q q' id (draws k).granted_slots (regular.slots k) pushed,
        ))

  loop_goes :
      (fuel k id now next : ℕ) (heap : Heap) (q q' : Queue ℕ)
      → pos now +ℤ exponential_sample p (draws k).gap ≡ pos next
      → next < bound
      → push true q id ≡ ok (q', true)
      → before fuel k id now heap q ≡ after fuel k id (suc id) heap q' (pos next)
  loop_goes fuel k id now next heap q q' e less pushed =
      goes_on fuel k id now heap q q'
        (ap (λ z. ltb_ℤ z (pos bound)) e ∙ pos-ltb_ℤ next bound ∙ lt→ltb next bound less) pushed
      ∙ ap (after fuel k id (id + 1) heap q') e
      ∙ ap (λ i. after fuel k id i heap q' (pos next)) (omega arith)

  loop_ends :
      (fuel k id now next : ℕ) (heap : Heap) (q : Queue ℕ)
      → pos now +ℤ exponential_sample p (draws k).gap ≡ pos next
      → bound ≤ next
      → before fuel k id now heap q ≡ ok (entry_at heap q id (pos next))
  unfolding clients_loop
  loop_ends fuel k id now next heap q e late =
      rw
        (
          ap (λ z. ltb_ℤ z (pos bound)) e ∙ pos-ltb_ℤ next bound ∙ le→ltb next bound late,
          clients_loop,
        )
        (ap (λ z. ok (entry_at heap q id z)) e)

  entered :
      (k id now next : ℕ) (heap : Heap)
      → now < next
      → Scheduled heap id (suc now)
      → (b : ℕ) → next < b
      → Scheduled
          (write heap id (new_client p disability_prob destination_prob id (pos next) (draws k)))
          (suc id)
          b
  unfolding new_client
  entered k id now next heap later s b less =
      let client = new_client p disability_prob destination_prob id (pos next) (draws k) in
      let (j, sample, small) = regular.kind k in
      (
        next,
        ap (λ c. c.service_stat.arrival_time) (written heap id client),
        less,
        rw (written heap id client) (
            new_client-IsListed p disability_prob destination_prob id (pos next) (draws k) j sample
              small),
        Scheduled-write heap client id id next (omega arith)
            (Scheduled-mono heap id (suc now) next later s),
      )

  loop-Arranged :
      (fuel k id now : ℕ) (heap : Heap) (q : Queue ℕ)
      → bound < 2 ^ 31
      → now ≤ bound
      → bound < now + fuel
      → id ≤ now
      → IsValid q
      → contents q ≡ ids id
      → Scheduled heap id (suc now)
      → Scheduled heap id bound
      → Arranged bound (
          clients_loop p disability_prob destination_prob
            (pos bound)
            draws
            fuel
            k
            (entry_at heap q id (pos now)))
  loop-Arranged zero k id now heap q small within enough few v order s t = absurd (omega arith)
  loop-Arranged (suc fuel) k id now heap q small within enough few v order s t =
      let (m, e) = advance k now in
      elim (Bool-cases (ltb (now + suc m) bound)) [
        | inl less ↦
            let soon = ltb→lt (now + suc m) bound less in
            let (q', pushed, v', order') =
              push-IsValid q id v (omega (arith, ap length order, length-ids id)) in
            Arranged-at (loop_goes fuel k id now (now + suc m) heap q q' e soon pushed) (
              loop-Arranged fuel (k + 1) (suc id) (now + suc m) _ q' small (omega arith)
                (omega arith) (omega arith) v' (order' ∙ ap (λ xs. xs ++ id ∷ []) order)
                (entered k id now (now + suc m) heap (omega arith) s (suc (now + suc m))
                  (omega arith))
                (entered k id now (now + suc m) heap (omega arith) s bound soon))
        | inr more ↦
            Arranged-at (loop_ends fuel k id now (now + suc m) heap q e (ground arith)) (record {
              entry = entry_at heap q id (pos (now + suc m));
              queue = q;
              runs = refl;
              clients = refl;
              valid = v;
              order = order;
              schedule = t;
            })
      ]

  pub clients_init-Arranged :
      (fuel : ℕ) (heap : Heap)
      → bound < 2 ^ 31
      → bound < fuel
      → Arranged bound
          (clients_init p true true disability_prob destination_prob (pos bound) draws fuel heap)
  unfolding clients_init
  clients_init-Arranged fuel heap small enough =
      let (q, made, w) = init-Layout base_size (omega arith) (omega arith) in
      Arranged-at (rw made refl) (
        loop-Arranged fuel 0 0 0 heap q small (omega arith) (omega arith) (omega arith)
          (Layout-IsValid w) (Layout-contents w) tt tt)
