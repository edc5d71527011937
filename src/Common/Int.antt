-- ===== src/Common/Int.antt =====
-- Signed integers over the native numbers, under the library's names. A C `int` is such an integer.
use aca_bsim.Common.Tests.{ltb, leb, if◌then◌else◌}
use Prim.Native.Nat.{ℕ, suc, ◌+◌, ◌-◌, ◌/◌, ◌%◌, ◌^◌, ◌≤◌, ◌<◌}
use mathlib.Core.Path.{◌≡◌, ap, ◌∙◌}
use mathlib.Core.Bool.{Bool, true, false}
use native.Mathlib.Omega.{arith}

-- `negsuc n` is -(n + 1).
pub data ℤ : Type 0 where
  pos : ℕ → ℤ
  negsuc : ℕ → ℤ

abbrev pub pos_part : ℤ → ℕ
pos_part (pos n) = n
pos_part (negsuc n) = 0

abbrev pub neg_part : ℤ → ℕ
neg_part (pos n) = 0
neg_part (negsuc n) = suc n

-- a - b, as an integer.
abbrev pub sub_ℕ : ℕ → ℕ → ℤ
sub_ℕ a b = if leb b a then pos (a - b) else negsuc (b - a - 1)

infixl 65 ◌+ℤ◌ ◌-ℤ◌
infixl 70 ◌/ℤ◌
infix 50 ◌≤ℤ◌
unfoldable pub ◌+ℤ◌ : ℤ → ℤ → ℤ
a +ℤ b = sub_ℕ (pos_part a + pos_part b) (neg_part a + neg_part b)

unfoldable pub ◌-ℤ◌ : ℤ → ℤ → ℤ
a -ℤ b = sub_ℕ (pos_part a + neg_part b) (neg_part a + pos_part b)

-- The quotient by a positive number, rounded towards zero as in C.
unfoldable pub ◌/ℤ◌ : ℤ → ℕ → ℤ
pos a /ℤ n = pos (a / n)
negsuc a /ℤ n = sub_ℕ 0 (suc a / n)

abbrev pub ◌≤ℤ◌ : ℤ → ℤ → Type 0
a ≤ℤ b = pos_part a + neg_part b ≤ pos_part b + neg_part a

abbrev pub ltb_ℤ : ℤ → ℤ → Bool
ltb_ℤ a b = ltb (pos_part a + neg_part b) (pos_part b + neg_part a)

abbrev pub eqb_ℤ : ℤ → ℤ → Bool
eqb_ℤ a b = if ltb_ℤ a b then false else if ltb_ℤ b a then false else true

-- The conversion of a `size_t` to `int`: the low 32 bits, as two's complement.
unfoldable pub int_of_size : ℕ → ℤ
int_of_size n =
    if ltb (n % 2 ^ 32) (2 ^ 31) then pos (n % 2 ^ 32) else negsuc (2 ^ 32 - 1 - n % 2 ^ 32)

-- The conversion of an `int` to `size_t`, of 64 bits.
unfoldable pub size_of_int : ℤ → ℕ
size_of_int (pos n) = n
size_of_int (negsuc n) = 2 ^ 64 - 1 - n

-- `int += size_t`: the sum is one of `size_t`, converted back.
unfoldable pub add_size : ℤ → ℕ → ℤ
unfolding int_of_size size_of_int
add_size z n = int_of_size ((size_of_int z + n) % 2 ^ 64)

-- `int / size_t`, converted to `int`.
unfoldable pub div_size : ℤ → ℕ → ℤ
unfolding int_of_size size_of_int
div_size z n = int_of_size (size_of_int z / n)

pub int_of_size_small : (n : ℕ) → n < 2 ^ 31 → int_of_size n ≡ pos n
unfolding int_of_size
int_of_size_small n h = ground arith

pub add_size_small : (k n : ℕ) → k + n < 2 ^ 31 → add_size (pos k) n ≡ pos (k + n)
unfolding add_size size_of_int
add_size_small k n h = ap int_of_size small ∙ int_of_size_small (k + n) h
  where
    small : (k + n) % 2 ^ 64 ≡ k + n
    small = omega (arith, h)

pub add_size_large :
    (k n : ℕ) → 2 ^ 31 ≤ k + n → k + n < 2 ^ 32 → add_size (pos k) n ≡ negsuc (2 ^ 32 - 1 - (k + n))
unfolding add_size size_of_int int_of_size
add_size_large k n low h = ap int_of_size small ∙ wraps (k + n) low h
  where
    small : (k + n) % 2 ^ 64 ≡ k + n
    small = omega (arith, h)

    wraps : (m : ℕ) → 2 ^ 31 ≤ m → m < 2 ^ 32 → int_of_size m ≡ negsuc (2 ^ 32 - 1 - m)
    wraps m low h = ground arith

pub div_size_small : (k n : ℕ) → k / n < 2 ^ 31 → div_size (pos k) n ≡ pos (k / n)
unfolding div_size size_of_int
div_size_small k n h = int_of_size_small (k / n) h

pub sub-zero_ℤ : (t : ℕ) → pos t -ℤ pos 0 ≡ pos t
unfolding ◌-ℤ◌
sub-zero_ℤ t = ground arith

pub eqb_ℤ-eq : (a b : ℤ) → eqb_ℤ a b ≡ true → a ≡ b
eqb_ℤ-eq a b h = ground arith

pub eqb_ℤ_refl : (a : ℤ) → eqb_ℤ a a ≡ true
eqb_ℤ_refl a = ground arith

-- What `omega` needs of a sum while `◌+ℤ◌` stays shut.
pub +ℤ_parts :
    (a b : ℤ)
    → pos_part (a +ℤ b) + neg_part a + neg_part b ≡ neg_part (a +ℤ b) + pos_part a + pos_part b
unfolding ◌+ℤ◌
+ℤ_parts a b = ground arith

pub eq_of_parts : (a b : ℤ) → pos_part a + neg_part b ≡ pos_part b + neg_part a → a ≡ b
eq_of_parts a b h = ground arith

pub ruleset int_laws = (arith, +ℤ_parts, eq_of_parts)

pub add_assoc_ℤ : (a b c : ℤ) → (a +ℤ b) +ℤ c ≡ a +ℤ (b +ℤ c)
add_assoc_ℤ a b c = omega int_laws

pub swap_ℤ : (a b c : ℤ) → (a +ℤ b) +ℤ c ≡ a +ℤ (c +ℤ b)
swap_ℤ a b c = omega int_laws
