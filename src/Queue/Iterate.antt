-- ===== src/Queue/Iterate.antt =====
-- Walking over a queue with the iterator of src/queue.c, and `queue_free`.
use aca_bsim.Common.{
  ℕ, zero, suc, ◌+◌, ◌%◌, ◌^◌, ◌<◌, ◌≡◌, refl, ◌∙◌, List, [], ◌∷◌, ◌++◌, append_assoc, map,
  map-append, reverse, Option, none, some, true, false, Result, ok, fault, out_of_fuel,
  null_dereference, arith, length, length-append, ◌>>=◌, lt→ltb, le→ltb, length-map, length-reverse,
}
use mathlib.Core.List.{foldl}
use aca_bsim.Queue.Array.{load, load-at}
use aca_bsim.Queue.Ops.{
  Queue, QueueIterator, queue_iterator_create, queue_iterator_has_next, queue_iterator_next,
  queue_free, free_from,
}
use aca_bsim.Queue.Layout.{Layout}

module _ {ℓ κ} {A : Type ℓ} {S : Type κ} (body : S → A → S) where
  -- `while (queue_iterator_has_next (it)) { x = queue_iterator_next (it); body }`, where the body
  -- reads through `x`.
  unfoldable pub iterate : ℕ → Option (QueueIterator A) → S → Result S
  iterate zero it s = fault out_of_fuel
  iterate (suc fuel) it s = elim (queue_iterator_has_next it) [
    | true ↦ queue_iterator_next it >>= λ r. elim r.0 [
      | none ↦ fault null_dereference
      | some x ↦ iterate fuel r.1 (body s x)
    ]
    | false ↦ ok s
  ]

  next_found :
      (q : Queue A) (index : ℕ) (x : A)
      → index < q.size
      → load q.items index ≡ ok (some x)
      → queue_iterator_next (some (record { queue = q; index = index }))
        ≡ ok (some x, some (record { queue = q; index = (index + 1) % 2 ^ 32 }))
  unfolding queue_iterator_next
  next_found q index x within found = rw (lt→ltb index q.size within, found) refl

  iterate-from :
      (q : Queue A) (before after : List A) (spare : List (Option A)) (s : S) (index : ℕ)
      → q.items ≡ map some before ++ (map some after ++ spare)
      → q.size ≡ length before + length after
      → q.size < 2 ^ 32
      → index ≡ length before
      → iterate (suc (length after)) (some (record { queue = q; index = index })) s
        ≡ ok (foldl body s after)
  unfolding iterate queue_iterator_has_next
  iterate-from q before [] spare s index slots sized word at =
      rw (le→ltb index q.size (omega arith), iterate) refl
  iterate-from q before (x ∷ after) spare s index slots sized word at =
      rw (lt→ltb index q.size (omega arith), next_found q index x (omega arith) found, iterate)
        (iterate-from q (before ++ x ∷ []) after spare (body s x) ((index + 1) % 2 ^ 32)
          (slots ∙ regroup) (omega (arith, length-append before (x ∷ []))) word
          (omega (arith, length-append before (x ∷ []))))
    where
      found : load q.items index ≡ ok (some x)
      found =
          rw (slots, at, ← length-map before (λ (y : A). some y))
            (load-at (map some before) (some x) (map some after ++ spare))

      regroup :
          map (λ y. some y) before ++ (map some (x ∷ after) ++ spare)
          ≡ map some (before ++ x ∷ []) ++ (map some after ++ spare)
      regroup = simp (map-append, append_assoc)

  create_occupied :
      (q : Queue A) (n : ℕ)
      → q.size ≡ suc n
      → queue_iterator_create true (some q) ≡ some (record { queue = q; index = 0 })
  unfolding queue_iterator_create
  create_occupied q n sized = ground arith

  -- A `while` loop over a granted iterator of a queue laid out with the items xs ends within one
  -- round more than there are items, without a fault, and runs its body once on each item, the
  -- newest first.
  pub iterate-Layout :
      (q : Queue A) (xs : List A) (s : S)
      → Layout q xs
      → iterate (suc (length xs)) (queue_iterator_create true (some q)) s
        ≡ ok (foldl body s (reverse xs))
  unfolding queue_iterator_create iterate queue_iterator_has_next
  iterate-Layout q [] s v = rw (v.sized, iterate) refl
  iterate-Layout q (x ∷ xs) s v =
      rw (create_occupied q (length xs) v.sized, ← length-reverse (x ∷ xs))
        (iterate-from q [] (reverse (x ∷ xs)) v.spare s 0 v.slots
          (omega (arith, v.sized, length-reverse (x ∷ xs))) (omega (arith, v.sized, v.fits)) refl)

module _ {ℓ} {A : Type ℓ} where
  free_from-slots :
      (before after : List A) (spare : List (Option A)) (index : ℕ)
      → index ≡ length before
      → free_from (length after) index (map some before ++ (map some after ++ spare)) ≡ ok after
  unfolding free_from
  free_from-slots before [] spare index at = refl
  free_from-slots before (x ∷ after) spare index at =
      rw
        (
          at,
          found,
          regroup,
          free_from-slots (before ++ x ∷ []) after spare (length before + 1)
              (omega (arith, length-append before (x ∷ []))),
        )
        refl
    where
      found :
          load (map some before ++ (map some (x ∷ after) ++ spare)) (length before) ≡ ok (some x)
      found =
          rw (← length-map before (λ (y : A). some y))
            (load-at (map some before) (some x) (map some after ++ spare))

      regroup :
          map (λ y. some y) before ++ (map some (x ∷ after) ++ spare)
          ≡ map some (before ++ x ∷ []) ++ (map some after ++ spare)
      regroup = simp (map-append, append_assoc)

  -- On a queue laid out with the items xs, `queue_free` hands each item to `free_func` once, the
  -- newest first, and hands out none if there is no `free_func`.
  pub queue_free-Layout :
      (q : Queue A) (xs : List A)
      → Layout q xs
      → (queue_free (some q) true ≡ ok (reverse xs)) × (queue_free (some q) false ≡ ok [])
  unfolding queue_free
  queue_free-Layout q xs v = (
    rw (v.slots, v.sized, ← length-reverse xs) (free_from-slots [] (reverse xs) v.spare 0 refl),
    refl,
  )
