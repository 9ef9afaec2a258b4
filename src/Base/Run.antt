-- ===== src/Base/Run.antt =====
-- The outcome of kernel code: it returns, it panics (`PANIC_IF`, `exit`, or an access behind what it may
-- access, after which nothing is promised), or it has not come to an end within the fuel of the model.
use ko.Base.Tests.{if◌then◌else◌}
use mathlib.Core.Bool.{Bool}

pub data Run {ℓ} (A : Type ℓ) : Type ℓ where
  done : A → Run A
  panic : Run A
  out_of_fuel : Run A

infixl 5 ◌>>=◌
abbrev pub ◌>>=◌ {ℓ κ} : {A : Type ℓ} {B : Type κ} → Run A → (A → Run B) → Run B
done a >>= f = f a
panic >>= f = panic
out_of_fuel >>= f = out_of_fuel

-- `PANIC_IF (b, …)` in front of the rest.
abbrev pub panic_if {ℓ} : {A : Type ℓ} → Bool → Run A → Run A
panic_if b rest = if b then panic else rest

-- Total correctness: the code returns, with a result that satisfies `P`.
abbrev pub Returns {ℓ} : {A : Type ℓ} → (A → Type 0) → Run A → Type 0
Returns P (done a) = P a
Returns P panic = ⊥
Returns P out_of_fuel = ⊥

pub Returns-weaken {ℓ} :
    {A : Type ℓ} (P Q : A → Type 0) (r : Run A) → Returns P r → ((a : A) → P a → Q a) → Returns Q r
Returns-weaken P Q (done a) p k = k a p
Returns-weaken P Q panic p k = elim p [ ]
Returns-weaken P Q out_of_fuel p k = elim p [ ]

pub Returns-bind {ℓ κ} :
    {A : Type ℓ} {B : Type κ} (P : A → Type 0) (Q : B → Type 0) (r : Run A) (f : A → Run B)
    → Returns P r
    → ((a : A) → P a → Returns Q (f a))
    → Returns Q (r >>= f)
Returns-bind P Q (done a) f p k = k a p
Returns-bind P Q panic f p k = elim p [ ]
Returns-bind P Q out_of_fuel f p k = elim p [ ]
