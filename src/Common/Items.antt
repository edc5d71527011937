-- ===== src/Common/Items.antt =====
-- Lists compared by what they hold, whatever the order.
use Prim.Native.Nat.{ℕ, ◌≤◌}
use mathlib.Core.Path.{◌≡◌, refl, ◌∙◌, subst}
use mathlib.Core.Bool.{Bool, true, false}
use mathlib.Core.List.{List, ◌∷◌, ◌++◌, reverse}
use native.Mathlib.Omega.{arith}
use aca_bsim.Common.Lists.{
  length, length-append, length-reverse, count, count-append, count-reverse,
}

-- Two lists hold the same numbers, as often.
pub record SameItems (xs ys : List ℕ) : Type 0 where
  pub lengths : length xs ≡ length ys
  pub counts : (a : ℕ) → count a xs ≡ count a ys

pub SameItems-refl : (xs : List ℕ) → SameItems xs xs
SameItems-refl xs = record { lengths = refl; counts = λ a. refl }

pub eq-SameItems : {xs ys : List ℕ} → xs ≡ ys → SameItems xs ys
eq-SameItems {xs} e = subst (SameItems xs) e (SameItems-refl xs)

pub SameItems-trans : {xs ys zs : List ℕ} → SameItems xs ys → SameItems ys zs → SameItems xs zs
SameItems-trans h k = record {
  lengths = h.lengths ∙ k.lengths;
  counts = λ a. h.counts a ∙ k.counts a;
}

pub SameItems-append :
    {xs xs' ys ys' : List ℕ}
    → SameItems xs xs'
    → SameItems ys ys'
    → SameItems (xs ++ ys) (xs' ++ ys')
SameItems-append {xs} {xs'} {ys} {ys'} h k = record {
  lengths = omega (arith, length-append xs ys, length-append xs' ys', h.lengths, k.lengths);
  counts = λ a. omega (arith, count-append a xs ys, count-append a xs' ys', h.counts a, k.counts a);
}

pub SameItems-reverse : (xs : List ℕ) → SameItems (reverse xs) xs
SameItems-reverse xs = record { lengths = length-reverse xs; counts = λ a. count-reverse a xs }

pub SameItems-move : (c : ℕ) (xs ys : List ℕ) → SameItems (xs ++ c ∷ ys) (c ∷ xs ++ ys)
SameItems-move c xs ys = record {
  lengths = omega (arith, length-append xs (c ∷ ys), length-append xs ys);
  counts = λ a. omega (arith, count-append a xs (c ∷ ys), count-append a xs ys);
}

-- The first list holds nothing but items of the second, none of them more often.
pub record Among (xs ys : List ℕ) : Type 0 where
  pub lengths : length xs ≤ length ys
  pub counts : (a : ℕ) → count a xs ≤ count a ys

pub SameItems-Among : {xs ys : List ℕ} → SameItems xs ys → Among xs ys
SameItems-Among h = record {
  lengths = omega (arith, h.lengths);
  counts = λ a. omega (arith, h.counts a);
}

pub eq-Among : {xs ys : List ℕ} → xs ≡ ys → Among xs ys
eq-Among e = SameItems-Among (eq-SameItems e)

pub Among-trans : {xs ys zs : List ℕ} → Among xs ys → Among ys zs → Among xs zs
Among-trans h k = record {
  lengths = omega (arith, h.lengths, k.lengths);
  counts = λ a. omega (arith, h.counts a, k.counts a);
}

pub Among-append :
    {xs xs' ys ys' : List ℕ} → Among xs xs' → Among ys ys' → Among (xs ++ ys) (xs' ++ ys')
Among-append {xs} {xs'} {ys} {ys'} h k = record {
  lengths = omega (arith, length-append xs ys, length-append xs' ys', h.lengths, k.lengths);
  counts = λ a. omega (arith, count-append a xs ys, count-append a xs' ys', h.counts a, k.counts a);
}

-- What is left of a list: the same items, or, where some may have been lost, no others and none more
-- often.
pub data Remains : Bool → List ℕ → List ℕ → Type 0 where
  same_ones : {xs ys : List ℕ} → SameItems xs ys → Remains true xs ys
  no_others : {xs ys : List ℕ} → Among xs ys → Remains false xs ys

pub SameItems-Remains : (strict : Bool) {xs ys : List ℕ} → SameItems xs ys → Remains strict xs ys
SameItems-Remains true same = same_ones same
SameItems-Remains false same = no_others (SameItems-Among same)

pub Remains-SameItems : {xs ys : List ℕ} → Remains true xs ys → SameItems xs ys
Remains-SameItems (same_ones same) = same

pub Remains-Among : {strict : Bool} {xs ys : List ℕ} → Remains strict xs ys → Among xs ys
Remains-Among (same_ones same) = SameItems-Among same
Remains-Among (no_others among) = among

pub Remains-trans :
    {strict : Bool} {xs ys zs : List ℕ}
    → Remains strict xs ys
    → Remains strict ys zs
    → Remains strict xs zs
Remains-trans (same_ones a) (same_ones b) = same_ones (SameItems-trans a b)
Remains-trans (no_others a) (no_others b) = no_others (Among-trans a b)

pub Remains-append :
    {strict : Bool} {xs xs' ys ys' : List ℕ}
    → Remains strict xs xs'
    → Remains strict ys ys'
    → Remains strict (xs ++ ys) (xs' ++ ys')
Remains-append (same_ones a) (same_ones b) = same_ones (SameItems-append a b)
Remains-append (no_others a) (no_others b) = no_others (Among-append a b)
