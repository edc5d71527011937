-- ===== src/Queue/Array.antt =====
-- The block of slots behind a queue, `const void **items` of src/queue.c. A slot is `none` while it
-- holds NULL or has never been written. An access outside the block is a fault.
use aca_bsim.Common.{
  ℕ, zero, suc, ◌+◌, ◌<◌, ◌≡◌, refl, ap, List, [], ◌∷◌, ◌++◌, append_assoc, Option, none, some,
  Result, ok, fault, out_of_bounds, ◌>>=◌, arith, length, length-append, get_elem?, set, take,
  take-append, drop, ltb, if◌then◌else◌,
}

module _ {ℓ} {S : Type ℓ} where
  read : Option S → Result S
  read none = fault out_of_bounds
  read (some s) = ok s

  -- `items[i]`
  unfoldable pub load : List S → ℕ → Result S
  unfolding read
  load items i = read (get_elem? items i)

  -- `items[i] = v`
  unfoldable pub store : List S → ℕ → S → Result (List S)
  store items i v = if ltb i (length items) then ok (set items i v) else fault out_of_bounds

  -- The loop of `queue_push`: from slot `i` on, `n` slots move up by one, the first taking `last`.
  unfoldable pub shift : ℕ → ℕ → S → List S → Result (List S)
  shift zero i last items = ok items
  shift (suc n) i last items = do
    next ← load items i
    items' ← store items i last
    shift n (i + 1) next items'

  -- `n` slots move up by one and `v` enters slot 0.
  unfoldable pub enter : List S → ℕ → S → Result (List S)
  unfolding load store shift
  enter items n v = do last ← load items 0; items' ← shift n 1 last items; store items' 0 v

  pub load-at : (pre : List S) (y : S) (post : List S) → load (pre ++ y ∷ post) (length pre) ≡ ok y
  unfolding load
  load-at [] y post = refl
  load-at (x ∷ pre) y post = load-at pre y post

  set-at :
      (pre : List S) (y v : S) (post : List S)
      → set (pre ++ y ∷ post) (length pre) v ≡ pre ++ v ∷ post
  set-at [] y v post = refl
  set-at (x ∷ pre) y v post = ap (λ zs. x ∷ zs) (set-at pre y v post)

  pub store-at :
      (pre : List S) (y v : S) (post : List S)
      → store (pre ++ y ∷ post) (length pre) v ≡ ok (pre ++ v ∷ post)
  unfolding store
  store-at pre y v post = ground (arith, length-append pre (y ∷ post), set-at pre y v post)

  -- What the loop leaves: `last` and the slots below the final one, each a place further up.
  pub shift_lem :
      (n i : ℕ) (last : S) (pre rest : List S)
      → i ≡ length pre
      → n < length rest + 1
      → shift n i last (pre ++ rest) ≡ ok (pre ++ (take n (last ∷ rest) ++ drop n rest))
  unfolding shift
  shift_lem zero i last pre rest e h = refl
  shift_lem (suc n) i last pre [] e h = absurd (omega arith)
  shift_lem (suc n) i last pre (r ∷ rest) e h =
      rw (e, load-at pre r rest, store-at pre r last rest)
        (simp append_assoc at (
          shift_lem n (length pre + 1) r (pre ++ last ∷ []) rest
            (omega (arith, length-append pre (last ∷ []))) (omega arith)))

  drop-suc : (xs : List S) (y : S) (ys : List S) → drop (suc (length xs)) (xs ++ y ∷ ys) ≡ ys
  drop-suc [] y ys = refl
  drop-suc (x ∷ xs) y ys = drop-suc xs y ys

  -- Slot 0 takes the new item, the items above it keep their order, one free slot is used up.
  pub enter_lem :
      (held : List S) (free : S) (spare : List S) (v : S)
      → enter (held ++ free ∷ spare) (length held) v ≡ ok (v ∷ held ++ spare)
  unfolding enter
  enter_lem [] free spare v = store-at [] free v spare
  enter_lem (y ∷ held) free spare v =
      rw
        (
          shift_lem (suc (length held)) 1 y (y ∷ []) (held ++ free ∷ spare) refl
              (omega (arith, length-append held (free ∷ spare))),
          take-append held (free ∷ spare),
          drop-suc held free spare,
        )
        (store-at [] y v ((y ∷ held) ++ spare))
