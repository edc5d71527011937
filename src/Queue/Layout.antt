-- ===== src/Queue/Layout.antt =====
-- What a queue of src/queue.c holds, oldest item first, and the shape of a well-formed one.
use aca_bsim.Common.{
  ℕ, ◌+◌, ◌^◌, ◌≤◌, ◌<◌, ◌≡◌, refl, ap, ◌∙◌, List, [], ◌∷◌, ◌++◌, reverse, map, Option, none, some,
  true, arith, length, length-map, length-reverse, take, take-append, replicate, length-replicate,
}
use mathlib.Core.List.{reverse-reverse}
use aca_bsim.Queue.Ops.{Queue, queue_init}

module _ {ℓ} {A : Type ℓ} where
  -- The items in slots that hold one.
  abbrev pub occupied : List (Option A) → List A
  occupied [] = []
  occupied (none ∷ slots) = occupied slots
  occupied (some x ∷ slots) = x ∷ occupied slots

  -- The items of a queue, oldest first: slot 0 holds the newest.
  unfoldable pub contents : Queue A → List A
  contents q = reverse (occupied (take q.size q.items))

  -- The block holds `xs`, newest in slot 0, and then slots that hold no item yet.
  pub record Layout (q : Queue A) (xs : List A) : Type ℓ where
    pub spare : List (Option A)
    pub slots : q.items ≡ map some (reverse xs) ++ spare
    pub sized : q.size ≡ length xs
    pub fits : q.capacity ≡ length xs + length spare
    pub room : 1 ≤ q.capacity
    pub word : q.capacity < 2 ^ 32

  -- A well-formed queue: its slots below `size` hold items, and `size ≤ capacity` lies in the block.
  abbrev pub IsValid : Queue A → Type ℓ
  IsValid q = Layout q (contents q)

  occupied-some : (xs : List A) → occupied (map some xs) ≡ xs
  occupied-some [] = refl
  occupied-some (x ∷ xs) = ap (λ ys. x ∷ ys) (occupied-some xs)

  pub length-slots : (xs : List A) → length (map (λ x. some x) (reverse xs)) ≡ length xs
  length-slots xs = length-map (reverse xs) some ∙ length-reverse xs

  pub Layout-contents : {q : Queue A} {xs : List A} → Layout q xs → contents q ≡ xs
  unfolding contents
  Layout-contents {q} {xs} v =
      rw
        (
          v.slots,
          v.sized,
          ← length-slots xs,
          take-append (map some (reverse xs)) v.spare,
          occupied-some (reverse xs),
        )
        (reverse-reverse xs)

  pub Layout-IsValid : {q : Queue A} {xs : List A} → Layout q xs → IsValid q
  Layout-IsValid v = rw (Layout-contents v) v

  pub init-Layout :
      (capacity : ℕ)
      → 1 ≤ capacity
      → capacity < 2 ^ 32
      → (q : Queue A) × (queue_init true true capacity ≡ some q) × Layout q []
  unfolding queue_init
  init-Layout capacity h w = (
    record { items = replicate capacity none; size = 0; capacity = capacity },
    refl,
    record {
      spare = replicate capacity none;
      slots = refl;
      sized = refl;
      fits = omega (arith, length-replicate {ℓ} {A = Option A} capacity none);
      room = h;
      word = w;
    },
  )
