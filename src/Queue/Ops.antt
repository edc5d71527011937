-- ===== src/Queue/Ops.antt =====
-- The operations of src/queue.c. A `queue_t *` that a function tests for NULL is an option here.
-- `granted` is the answer of the allocator to the one request that the call may make; it is read only
-- if the call makes it. An `unsigned` is a number below 2 ^ 32, and its sums wrap.
use aca_bsim.Common.{
  ℕ, zero, suc, ◌+◌, ◌-◌, ◌*◌, ◌/◌, ◌%◌, ◌^◌, List, [], ◌∷◌, ◌++◌, Option, none, some, Bool, true,
  false, not, Result, ok, ◌>>=◌, length, take, replicate, ltb, leb, ◌==◌, if◌then◌else◌,
}
use aca_bsim.Queue.Array.{load, store, enter}

-- `struct queue`
pub record Queue {ℓ} (A : Type ℓ) : Type ℓ where
  pub items : List (Option A)
  pub size : ℕ
  pub capacity : ℕ

-- `QUEUE_BASE_SIZE`
abbrev pub base_size : ℕ
base_size = 128

module _ {ℓ} {A : Type ℓ} where
  -- The two requests of `queue_init`: the structure and the block of slots.
  unfoldable pub queue_init : Bool → Bool → ℕ → Option (Queue A)
  queue_init granted granted_items capacity =
      if granted
      then (if granted_items
          then some (record { items = replicate capacity none; size = 0; capacity = capacity })
          else none)
      else none

  unfoldable pub queue_size : Option (Queue A) → ℕ
  queue_size none = 0
  queue_size (some q) = q.size

  unfoldable pub queue_is_empty : Queue A → Bool
  queue_is_empty q = q.size == 0

  -- `realloc`: the slots that fit are kept, further ones are not yet written.
  abbrev pub realloc : List (Option A) → ℕ → List (Option A)
  realloc items capacity = take capacity items ++ replicate (capacity - length items) none

  -- `queue_resize` after its test for NULL.
  unfoldable pub resize : Bool → Queue A → ℕ → Queue A × Bool
  resize granted q capacity =
      if granted
      then (
        record {
          items = realloc q.items capacity;
          size = if ltb capacity q.size then capacity else q.size;
          capacity = capacity;
        },
        true,
      )
      else (q, false)

  unfoldable pub queue_resize : Bool → Option (Queue A) → ℕ → Option (Queue A) × Bool
  unfolding resize
  queue_resize granted none capacity = (none, false)
  queue_resize granted (some q) capacity =
      let (q', done) = resize granted q capacity in (some q', done)

  -- The end of `queue_push`: every item moves up by one slot, and the new one enters slot 0.
  unfoldable pub push_front : Queue A → A → Result (Queue A × Bool)
  push_front q x = do
    items ← enter q.items q.size (some x)
    ok (record q { items = items; size = (q.size + 1) % 2 ^ 32 }, true)

  -- `queue_push` after its test for NULL.
  unfoldable pub push : Bool → Queue A → A → Result (Queue A × Bool)
  unfolding resize push_front queue_is_empty
  push granted q x =
      if leb q.capacity q.size
      then (let (q', done) = resize granted q (q.capacity * 2 % 2 ^ 32) in
          if done then push_front q' x else ok (q', false))
      else if queue_is_empty q
      then (do items ← store q.items 0 (some x); ok (record q { items = items; size = 1 }, true))
      else push_front q x

  unfoldable pub queue_push : Bool → Option (Queue A) → Option A → Result (Option (Queue A) × Bool)
  unfolding push
  queue_push granted none item = ok (none, false)
  queue_push granted (some q) none = ok (some q, false)
  queue_push granted (some q) (some x) = do r ← push granted q x; ok (some r.0, r.1)

  unfoldable pub queue_top : Queue A → Result (Option A)
  unfolding queue_is_empty
  queue_top q = if not (queue_is_empty q) then load q.items (q.size - 1) else ok none

  -- The end of `queue_pop`. The answer of `queue_resize` is not read.
  unfoldable pub shrink : Bool → Queue A → Queue A
  unfolding resize
  shrink granted q =
      if ltb q.size (q.capacity / 2) then (resize granted q (q.capacity / 2)).0 else q

  -- `size -= 1` runs only on a queue that is not empty.
  unfoldable pub queue_pop : Bool → Queue A → Result (Queue A × Bool)
  unfolding shrink queue_is_empty
  queue_pop granted q = if queue_is_empty q then ok (q, false) else (do
    items ← store q.items (q.size - 1) none
    ok (shrink granted (record q { items = items; size = q.size - 1 }), true))

  -- The loop of `queue_free` from slot `i` on: the items handed to `free_func`, in order.
  unfoldable pub free_from : ℕ → ℕ → List (Option A) → Result (List A)
  free_from zero i items = ok []
  free_from (suc n) i items = do
    slot ← load items i
    rest ← free_from n (i + 1) items
    ok (elim slot [ none ↦ rest | some x ↦ x ∷ rest ])

  -- `queue_free`: what it hands to `free_func`; the block and the structure are gone after it.
  unfoldable pub queue_free : Option (Queue A) → Bool → Result (List A)
  unfolding free_from
  queue_free none free_func = ok []
  queue_free (some q) free_func = if free_func then free_from q.size 0 q.items else ok []

-- `queue_iterator_t`. The queue does not change while the program iterates over it.
pub record QueueIterator {ℓ} (A : Type ℓ) : Type ℓ where
  pub queue : Queue A
  pub index : ℕ

module _ {ℓ} {A : Type ℓ} where
  unfoldable pub queue_iterator_create : Bool → Option (Queue A) → Option (QueueIterator A)
  unfolding queue_is_empty
  queue_iterator_create granted none = none
  queue_iterator_create granted (some q) =
      if queue_is_empty q
      then none
      else if granted
      then some (record { queue = q; index = 0 })
      else none

  unfoldable pub queue_iterator_has_next : Option (QueueIterator A) → Bool
  queue_iterator_has_next none = false
  queue_iterator_has_next (some it) = ltb it.index it.queue.size

  unfoldable pub queue_iterator_next :
      Option (QueueIterator A) → Result (Option A × Option (QueueIterator A))
  unfolding queue_iterator_has_next
  queue_iterator_next none = ok (none, none)
  queue_iterator_next (some it) =
      if queue_iterator_has_next (some it)
      then (do
        item ← load it.queue.items it.index
        ok (item, some (record it { index = (it.index + 1) % 2 ^ 32 })))
      else ok (none, some it)
