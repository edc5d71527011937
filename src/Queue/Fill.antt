-- ===== src/Queue/Fill.antt =====
-- Pushing a list of items with `queue_push` of src/queue.c, and taking them with `queue_top` and
-- `queue_pop`.
use aca_bsim.Common.{
  ℕ, zero, suc, ◌+◌, ◌^◌, ◌<◌, ◌≡◌, refl, sym, ap, ◌∙◌, List, [], ◌∷◌, ◌++◌, append_assoc,
  append-nil, Option, some, Bool, true, Result, ok, ◌>>=◌, arith, length, length-append,
}
use aca_bsim.Queue.Ops.{Queue, push, queue_top, queue_pop}
use aca_bsim.Queue.Layout.{IsValid, contents}
use aca_bsim.Queue.Refine.{push-IsValid, queue_top-IsValid, queue_pop-IsValid}

module _ {ℓ} {A : Type ℓ} where
  -- A push of each item, with its growth granted.
  unfoldable pub fill : List A → Queue A → Result (Queue A)
  fill [] q = ok q
  fill (x ∷ xs) q = do r ← push true q x; fill xs r.0

  -- `n` times the item on top, if there is one, and a pop.
  unfoldable pub drain : (ℕ → Bool) → ℕ → Queue A → Result (Queue A × List (Option A))
  drain granted zero q = ok (q, [])
  drain granted (suc n) q = do
    top ← queue_top q
    r ← queue_pop (granted n) q
    rest ← drain granted n r.0
    ok (rest.0, top ∷ rest.1)

  abbrev pub all_some : List A → List (Option A)
  all_some [] = []
  all_some (x ∷ xs) = some x ∷ all_some xs

  drain_at :
      (granted : ℕ → Bool) (q : Queue A) (xs : List A)
      → IsValid q
      → contents q ≡ xs
      → (q' : Queue A) × (drain granted (length xs) q ≡ ok (q', all_some xs))
        × IsValid q'
        × (contents q' ≡ [])
  unfolding drain
  drain_at granted q [] v e = (q, refl, v, e)
  drain_at granted q (x ∷ xs) v e =
      let (q1, popped, v1, e1) = queue_pop-IsValid (granted (length xs)) q x xs v e in
      let (q2, runs, v2, e2) = drain_at granted q1 xs v1 e1 in
      (q2, rw (queue_top-IsValid q x xs v e, popped, runs) refl, v2, e2)

  fill_at :
      (q : Queue A) (xs : List A)
      → IsValid q
      → length (contents q) + length xs < 2 ^ 31
      → (q' : Queue A) × (fill xs q ≡ ok q') × IsValid q' × (contents q' ≡ contents q ++ xs)
  unfolding fill
  fill_at q [] v h = (q, refl, v, sym (append-nil (contents q)))
  fill_at q (x ∷ xs) v h =
      let (q1, pushed, v1, e1) = push-IsValid q x v (omega arith) in
      let (q2, runs, v2, e2) =
        fill_at q1 xs v1 (omega (arith, ap length e1, length-append (contents q) (x ∷ []))) in
      (q2, rw pushed runs, v2, e2 ∙ ap (λ ys. ys ++ xs) e1 ∙ append_assoc (contents q) (x ∷ []) xs)

  -- On a well-formed queue that with the items pushed has fewer than 2 ^ 31, and with every
  -- growth granted, pushing a list of items and then taking the item on top and popping, as often
  -- as there are items, runs without a fault and gives the items of the queue and then those of
  -- the list, in order; it leaves a well-formed empty queue, whatever the allocator answers to
  -- the pops.
  pub drain-fill :
      (granted : ℕ → Bool) (q : Queue A) (xs : List A)
      → IsValid q
      → length (contents q) + length xs < 2 ^ 31
      → (q' : Queue A) × ((fill xs q >>= λ z. drain granted (length (contents q ++ xs)) z)
          ≡ ok (q', all_some (contents q ++ xs)))
        × IsValid q'
        × (contents q' ≡ [])
  drain-fill granted q xs v h =
      let (q1, filled, v1, e1) = fill_at q xs v h in
      let (q2, drained, v2, e2) = drain_at granted q1 (contents q ++ xs) v1 e1 in
      (q2, rw filled drained, v2, e2)
