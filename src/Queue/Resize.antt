-- ===== src/Queue/Resize.antt =====
-- `queue_resize` and the resizing of `queue_pop` of src/queue.c, and the items of a queue.
use aca_bsim.Common.{
  ℕ, zero, suc, ◌-◌, ◌/◌, ◌^◌, ◌≤◌, ◌<◌, ◌≡◌, ap, List, [], ◌∷◌, ◌++◌, reverse, map, Option, none,
  some, Bool, true, false, arith, length, ltb, Bool-cases, length-replicate, le→ltb, inl, inr,
  ltb→lt,
}
use aca_bsim.Queue.Ops.{Queue, realloc, resize, shrink}
use aca_bsim.Queue.Layout.{Layout, length-slots}

pub suc-sub-suc : (a b : ℕ) → suc a - suc b ≡ a - b
suc-sub-suc a b = omega arith

module _ {ℓ} {A : Type ℓ} where
  realloc-append :
      (held spare : List (Option A)) (capacity : ℕ)
      → length held ≤ capacity
      → realloc (held ++ spare) capacity ≡ held ++ realloc spare (capacity - length held)
  realloc-append [] spare capacity h = rw minus_zero
    where
      minus_zero : capacity - 0 ≡ capacity
      minus_zero = omega arith
  realloc-append (x ∷ held) spare zero h = absurd (omega arith)
  realloc-append (x ∷ held) spare (suc capacity) h =
      rw (suc-sub-suc capacity (length (held ++ spare)), suc-sub-suc capacity (length held))
        (ap (λ ys. x ∷ ys) (realloc-append held spare capacity (omega arith)))

  length-realloc :
      (slots : List (Option A)) (capacity : ℕ) → length (realloc slots capacity) ≡ capacity
  length-realloc slots zero =
      omega (arith, length-replicate {ℓ} {A = Option A} (0 - length slots) none)
  length-realloc [] (suc capacity) =
      omega (arith, length-replicate {ℓ} {A = Option A} (suc capacity - 0) none)
  length-realloc (x ∷ slots) (suc capacity) =
      rw (suc-sub-suc capacity (length slots)) (ap suc (length-realloc slots capacity))

  -- A granted request of at least `size` slots.
  pub resize-Layout :
      (q : Queue A) (xs : List A) (capacity : ℕ)
      → Layout q xs
      → length xs ≤ capacity
      → 1 ≤ capacity
      → capacity < 2 ^ 32
      → Layout (resize true q capacity).0 xs
  unfolding resize
  resize-Layout q xs capacity v h room word = record {
    spare = realloc v.spare (capacity - length xs);
    slots = rw (
      v.slots,
      realloc-append (map some (reverse xs)) v.spare capacity (rw (length-slots xs) h),
      length-slots xs,
    );
    sized = rw (le→ltb capacity q.size (omega (arith, v.sized))) v.sized;
    fits = omega (arith, length-realloc v.spare (capacity - length xs));
    room = room;
    word = word;
  }

  -- The resizing at the end of `queue_pop` keeps the items of a queue, their order and its shape,
  -- whatever the allocator answers.
  pub shrink-Layout :
      (granted : Bool) (q : Queue A) (xs : List A) → Layout q xs → Layout (shrink granted q) xs
  unfolding shrink resize
  shrink-Layout true q xs v = elim (Bool-cases (ltb q.size (q.capacity / 2))) [
    | inl small ↦ rw small (
        resize-Layout q xs (q.capacity / 2) v (omega (arith, ltb→lt q.size (q.capacity / 2) small))
          (omega (arith, ltb→lt q.size (q.capacity / 2) small)) (omega arith))
    | inr large ↦ rw large v
  ]
  shrink-Layout false q xs v = elim (Bool-cases (ltb q.size (q.capacity / 2))) [
    | inl small ↦ rw small v
    | inr large ↦ rw large v
  ]
