-- ===== src/Queue/Script.antt =====
-- Sequences of calls on a queue of src/queue.c, and the same calls on a FIFO list.
use aca_bsim.Common.{
  ℕ, ◌+◌, ◌^◌, ◌<◌, ◌≡◌, refl, List, [], ◌∷◌, ◌++◌, Option, none, some, Bool, true, false, Result,
  ok, arith, length, length-append, ◌>>=◌,
}
use aca_bsim.Queue.Ops.{Queue, queue_top, queue_pop, push, queue_size}
use aca_bsim.Queue.Layout.{Layout, IsValid, contents}
use aca_bsim.Queue.Refine.{
  push-Pushed, queue_top-Layout, queue_top-Layout-nil, queue_pop-Layout, queue_pop-Layout-nil,
}

module _ {ℓ} (A : Type ℓ) where
  -- A call of a client, and what it sees of it. The answer to a pop's request may be any.
  pub data Call : Type ℓ where
    pushes : A → Call
    pops : Bool → Call
    tops sizes : Call

  pub data Reply : Type ℓ where
    done : Bool → Reply
    item : Option A → Reply
    count : ℕ → Reply

module _ {ℓ} {A : Type ℓ} where
  -- The calls on the queue of src/queue.c.
  unfoldable pub answers : Queue A → List (Call A) → Result (List (Reply A))
  answers q [] = ok []
  answers q (pushes x ∷ calls) = do
    r ← push true q x
    replies ← answers r.0 calls
    ok (done r.1 ∷ replies)
  answers q (pops granted ∷ calls) = do
    r ← queue_pop granted q
    replies ← answers r.0 calls
    ok (done r.1 ∷ replies)
  answers q (tops ∷ calls) = do
    top ← queue_top q
    replies ← answers q calls
    ok (item top ∷ replies)
  answers q (sizes ∷ calls) = do
    replies ← answers q calls
    ok (count (queue_size (some q)) ∷ replies)

  -- The same calls on a list.
  unfoldable pub fifo : List A → List (Call A) → List (Reply A)
  fifo xs [] = []
  fifo xs (pushes x ∷ calls) = done true ∷ fifo (xs ++ x ∷ []) calls
  fifo [] (pops granted ∷ calls) = done false ∷ fifo [] calls
  fifo (x ∷ xs) (pops granted ∷ calls) = done true ∷ fifo xs calls
  fifo [] (tops ∷ calls) = item none ∷ fifo [] calls
  fifo (x ∷ xs) (tops ∷ calls) = item (some x) ∷ fifo (x ∷ xs) calls
  fifo xs (sizes ∷ calls) = count (length xs) ∷ fifo xs calls

  answers-Layout :
      (calls : List (Call A)) (q : Queue A) (xs : List A)
      → Layout q xs
      → length xs + length calls < 2 ^ 31
      → answers q calls ≡ ok (fifo xs calls)
  unfolding answers fifo queue_size
  answers-Layout [] q xs v h = refl
  answers-Layout (pushes x ∷ calls) q xs v h =
      let (q', e, w) = push-Pushed q xs x v (omega arith) in
      rw (e, answers-Layout calls q' (xs ++ x ∷ []) w (omega (arith, length-append xs (x ∷ []))))
        refl
  answers-Layout (pops granted ∷ calls) q [] v h =
      rw (queue_pop-Layout-nil granted q v, answers-Layout calls q [] v (omega arith)) refl
  answers-Layout (pops granted ∷ calls) q (x ∷ xs) v h =
      let (q', e, w) = queue_pop-Layout granted q x xs v in
      rw (e, answers-Layout calls q' xs w (omega arith)) refl
  answers-Layout (tops ∷ calls) q [] v h =
      rw (queue_top-Layout-nil q v, answers-Layout calls q [] v (omega arith)) refl
  answers-Layout (tops ∷ calls) q (x ∷ xs) v h =
      rw (queue_top-Layout q x xs v, answers-Layout calls q (x ∷ xs) v (omega arith)) refl
  answers-Layout (sizes ∷ calls) q xs v h =
      rw (answers-Layout calls q xs v (omega arith), v.sized) refl

  -- On a well-formed queue whose items and calls together number less than 2 ^ 31, and with every
  -- growth granted, any sequence of pushes, pops, tops and sizes runs without a fault and is
  -- answered as by the FIFO list of its contents. A pop may be refused its smaller block.
  pub answers_refine :
      (calls : List (Call A)) (q : Queue A)
      → IsValid q
      → length (contents q) + length calls < 2 ^ 31
      → answers q calls ≡ ok (fifo (contents q) calls)
  answers_refine calls q v h = answers-Layout calls q (contents q) v h
