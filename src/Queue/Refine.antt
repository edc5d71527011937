-- ===== src/Queue/Refine.antt =====
-- `queue_push`, `queue_top` and `queue_pop` of src/queue.c against a FIFO list, oldest item first.
use aca_bsim.Common.{
  ℕ, suc, ◌+◌, ◌-◌, ◌*◌, ◌%◌, ◌^◌, ◌≤◌, ◌<◌, ◌≡◌, refl, subst, List, [], ◌∷◌, ◌++◌, reverse, map,
  map-append, append_assoc, reverse-cons, Option, none, some, Bool, true, false, Result, ok, arith,
  length, length-append, leb, ◌==◌, Bool-cases, inl, inr, leb→le,
}
use mathlib.Core.List.{reverse-append}
use aca_bsim.Queue.Array.{store, load-at, store-at, enter_lem}
use aca_bsim.Queue.Ops.{
  Queue, shrink, push_front, push, queue_is_empty, queue_top, queue_pop, queue_size,
}
use aca_bsim.Queue.Layout.{Layout, IsValid, contents, length-slots, Layout-contents, Layout-IsValid}
use aca_bsim.Queue.Resize.{resize-Layout, shrink-Layout}

suc-eq-zero : (n : ℕ) → (suc n == 0) ≡ false
suc-eq-zero n = ground arith

suc-sub-one : (n : ℕ) → suc n - 1 ≡ n
suc-sub-one n = omega arith

module _ {ℓ} {A : Type ℓ} where
  -- The outcome of a push that went through.
  abbrev pub Pushed : Result (Queue A × Bool) → List A → Type ℓ
  Pushed r xs = (q : Queue A) × (r ≡ ok (q, true)) × Layout q xs

  newest_first :
      (xs : List A) (x : A)
      → map (λ y. some y) (reverse (xs ++ x ∷ [])) ≡ some x ∷ map some (reverse xs)
  newest_first xs x = rw (reverse-append xs (x ∷ []))

  push_front_slots :
      (q : Queue A) (xs : List A) (x : A) (spare : List (Option A))
      → q.items ≡ map some (reverse xs) ++ spare
      → q.size ≡ length xs
      → q.capacity ≡ length xs + length spare
      → q.capacity < 2 ^ 32
      → 1 ≤ length spare
      → Pushed (push_front q x) (xs ++ x ∷ [])
  unfolding push_front
  push_front_slots q xs x [] slots sized fits word free = absurd (omega arith)
  push_front_slots q xs x (s ∷ spare) slots sized fits word free = (
    record q { items = some x ∷ map some (reverse xs) ++ spare; size = (q.size + 1) % 2 ^ 32 },
    rw (slots, sized, ← length-slots xs, enter_lem (map some (reverse xs)) s spare (some x)) refl,
    record {
      spare = spare;
      slots = rw (newest_first xs x) refl;
      sized = omega (arith, length-append xs (x ∷ []));
      fits = omega (arith, length-append xs (x ∷ []));
      room = omega arith;
      word = word;
    },
  )

  push_front-Pushed :
      (q : Queue A) (xs : List A) (x : A)
      → Layout q xs
      → length xs < q.capacity
      → Pushed (push_front q x) (xs ++ x ∷ [])
  push_front-Pushed q xs x v h =
      push_front_slots q xs x v.spare v.slots v.sized v.fits v.word (omega arith)

  store_first :
      (q : Queue A) (x : A) (spare : List (Option A))
      → q.items ≡ spare
      → q.capacity ≡ length spare
      → 1 ≤ q.capacity
      → q.capacity < 2 ^ 32
      → (items : List (Option A)) × (store q.items 0 (some x) ≡ ok items)
        × Layout (record q { items = items; size = 1 }) (x ∷ [])
  store_first q x [] slots fits room word = absurd (omega arith)
  store_first q x (s ∷ spare) slots fits room word = (
    some x ∷ spare,
    rw slots (store-at [] s (some x) spare),
    record {
      spare = spare;
      slots = refl;
      sized = refl;
      fits = omega arith;
      room = room;
      word = word;
    },
  )

  push_first :
      (q : Queue A) (xs : List A) (x : A)
      → Layout q xs
      → queue_is_empty q ≡ true
      → leb q.capacity q.size ≡ false
      → Pushed (push true q x) (xs ++ x ∷ [])
  unfolding queue_is_empty push
  push_first q [] x v empty roomy =
      let (items, e, w) = store_first q x v.spare v.slots (omega (arith, v.fits)) v.room v.word in
      (record q { items = items; size = 1 }, rw (roomy, empty, e) refl, w)
  push_first q (y ∷ ys) x v empty roomy = absurd (ground (arith, v.sized))

  -- A push stores the item behind all the others, growing the block if it is full and the allocator
  -- grants that.
  pub push-Pushed :
      (q : Queue A) (xs : List A) (x : A)
      → Layout q xs
      → length xs < 2 ^ 31
      → Pushed (push true q x) (xs ++ x ∷ [])
  unfolding push
  push-Pushed q xs x v h = elim (Bool-cases (leb q.capacity q.size)) [
    | inl full ↦ rw full (
        push_front-Pushed _ xs x
          (resize-Layout q xs (q.capacity * 2 % 2 ^ 32) v
            (omega (arith, leb→le q.capacity q.size full))
            (omega (arith, leb→le q.capacity q.size full)) (omega arith))
          (omega (arith, leb→le q.capacity q.size full)))
    | inr roomy ↦ elim (Bool-cases (queue_is_empty q)) [
      | inl empty ↦ push_first q xs x v empty roomy
      | inr more ↦ rw (roomy, more) (push_front-Pushed q xs x v (ground arith))
    ]
  ]

  -- With no further block granted a full queue is left as it was, and the push reports it.
  pub push_refused : (q : Queue A) (x : A) → q.capacity ≤ q.size → push false q x ≡ ok (q, false)
  unfolding push
  push_refused q x h = ground arith

  pub queue_top-Layout-nil : (q : Queue A) → Layout q [] → queue_top q ≡ ok none
  unfolding queue_top
  queue_top-Layout-nil q v = rw v.sized

  slots_oldest :
      (x : A) (xs : List A) (spare : List (Option A))
      → map (λ y. some y) (reverse (x ∷ xs)) ++ spare ≡ map some (reverse xs) ++ some x ∷ spare
  slots_oldest x xs spare = simp (reverse-cons, map-append, append_assoc)

  -- The item on top is the oldest one.
  pub queue_top-Layout :
      (q : Queue A) (x : A) (xs : List A) → Layout q (x ∷ xs) → queue_top q ≡ ok (some x)
  unfolding queue_top
  queue_top-Layout q x xs v =
      rw
        (
          v.sized,
          suc-eq-zero (length xs),
          suc-sub-one (length xs),
          v.slots,
          slots_oldest x xs v.spare,
          ← length-slots xs,
        )
        (load-at (map some (reverse xs)) (some x) v.spare)

  abbrev pub Popped : Result (Queue A × Bool) → List A → Type ℓ
  Popped r xs = (q : Queue A) × (r ≡ ok (q, true)) × Layout q xs

  -- A pop takes the oldest item away, whatever the allocator answers to the smaller request.
  pub queue_pop-Layout :
      (granted : Bool) (q : Queue A) (x : A) (xs : List A)
      → Layout q (x ∷ xs)
      → Popped (queue_pop granted q) xs
  unfolding queue_pop
  queue_pop-Layout granted q x xs v = (
    shrink granted popped,
    rw (v.sized, suc-eq-zero (length xs), suc-sub-one (length xs), stored) refl,
    shrink-Layout granted popped xs (record {
      spare = none ∷ v.spare;
      slots = refl;
      sized = refl;
      fits = omega (arith, v.fits);
      room = v.room;
      word = v.word;
    }),
  )
    where
      popped : Queue A
      popped = record q { items = map some (reverse xs) ++ none ∷ v.spare; size = length xs }

      stored : store q.items (length xs) none ≡ ok popped.items
      stored =
          rw (v.slots, slots_oldest x xs v.spare, ← length-slots xs)
            (store-at (map some (reverse xs)) (some x) none v.spare)

  pub queue_pop-Layout-nil :
      (granted : Bool) (q : Queue A) → Layout q [] → queue_pop granted q ≡ ok (q, false)
  unfolding queue_pop
  queue_pop-Layout-nil granted q v = rw v.sized

module _ {ℓ} {A : Type ℓ} where
  -- On a well-formed queue of fewer than 2 ^ 31 items, a push with its growth granted succeeds,
  -- leaves the queue well formed and adds the item behind all others.
  pub push-IsValid :
      (q : Queue A) (x : A)
      → IsValid q
      → length (contents q) < 2 ^ 31
      → (q' : Queue A) × (push true q x ≡ ok (q', true))
        × IsValid q'
        × (contents q' ≡ contents q ++ x ∷ [])
  push-IsValid q x v h =
      let (q', e, w) = push-Pushed q (contents q) x v h in
      (q', e, Layout-IsValid w, Layout-contents w)

  -- On a well-formed queue that is not empty, a pop succeeds, leaves the queue well formed and
  -- takes the oldest item away, whatever the allocator answers to the request for a smaller
  -- block.
  pub queue_pop-IsValid :
      (granted : Bool) (q : Queue A) (x : A) (xs : List A)
      → IsValid q
      → contents q ≡ x ∷ xs
      → (q' : Queue A) × (queue_pop granted q ≡ ok (q', true)) × IsValid q' × (contents q' ≡ xs)
  queue_pop-IsValid granted q x xs v e =
      let (q', done, w) = queue_pop-Layout granted q x xs (subst (Layout q) e v) in
      (q', done, Layout-IsValid w, Layout-contents w)

  pub queue_top-IsValid :
      (q : Queue A) (x : A) (xs : List A)
      → IsValid q
      → contents q ≡ x ∷ xs
      → queue_top q ≡ ok (some x)
  queue_top-IsValid q x xs v e = queue_top-Layout q x xs (subst (Layout q) e v)

  pub queue_top-IsValid-nil : (q : Queue A) → IsValid q → contents q ≡ [] → queue_top q ≡ ok none
  queue_top-IsValid-nil q v e = queue_top-Layout-nil q (subst (Layout q) e v)

  pub queue_size-IsValid : (q : Queue A) → IsValid q → queue_size (some q) ≡ length (contents q)
  unfolding queue_size
  queue_size-IsValid q v = v.sized
