-- ===== src/Common/Results.antt =====
-- Results of code that can stop the program or leave what C defines: a failed `assert`, a call of
-- `exit (EXIT_FAILURE)`, an access through NULL, and an array access outside the allocated block.
-- `out_of_fuel` is no behaviour of the program: a loop of the model met the bound on its rounds.
use mathlib.Core.Path.{◌≡◌, subst}
use mathlib.Core.Bool.{Bool, true, false}
use aca_bsim.Common.Tests.{if◌then◌else◌}

pub data Fault : Type 0 where
  assertion_failed exit_failure null_dereference out_of_bounds out_of_fuel : Fault

pub data Result {ℓ} (A : Type ℓ) : Type ℓ where
  ok : A → Result A
  fault : Fault → Result A

infixl 5 ◌>>=◌ ◌>>◌
abbrev pub ◌>>=◌ {ℓ κ} : {A : Type ℓ} {B : Type κ} → Result A → (A → Result B) → Result B
ok a >>= f = f a
fault e >>= f = fault e

abbrev pub ◌>>◌ {ℓ} : {B : Type ℓ} → Result (Unit {0}) → Result B → Result B
m >> k = m >>= λ _. k

-- What holds of a result, if there is one.
abbrev pub Yields : {A : Type 0} → (A → Type 0) → Result A → Type 0
Yields P (ok a) = P a
Yields P (fault f) = Unit

pub bind-Yields :
    {A B : Type 0} (P : B → Type 0) (r : Result A) (f : A → Result B)
    → ((a : A) → Yields P (f a))
    → Yields P (r >>= f)
bind-Yields P (ok a) f h = h a
bind-Yields P (fault e) f h = tt

pub bind-Yields_from :
    {A B : Type 0} (Q : A → Type 0) (P : B → Type 0) (r : Result A) (f : A → Result B)
    → Yields Q r
    → ((a : A) → Q a → Yields P (f a))
    → Yields P (r >>= f)
bind-Yields_from Q P (ok a) f q h = h a q
bind-Yields_from Q P (fault e) f q h = tt

pub if-Yields :
    {A : Type 0} (P : A → Type 0) (b : Bool) (x y : Result A)
    → Yields P x
    → Yields P y
    → Yields P (if b then x else y)
if-Yields P true x y hx hy = hx
if-Yields P false x y hx hy = hy

pub Yields-ok : {A : Type 0} (P : A → Type 0) {r : Result A} {a : A} → r ≡ ok a → Yields P r → P a
Yields-ok P e h = subst (Yields P) e h

pub map-Yields :
    {A : Type 0} (P Q : A → Type 0) (r : Result A) → ((a : A) → P a → Q a) → Yields P r → Yields Q r
map-Yields P Q (ok a) f h = f a h
map-Yields P Q (fault e) f h = tt
