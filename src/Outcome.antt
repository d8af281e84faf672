-- ===== src/Outcome.antt =====
-- How a call of the program ends: with a value, in the dereference of a null pointer (undefined
-- behaviour), in a division by zero (likewise), or blocked for good on a `std::mutex` that the calling
-- thread holds already.
use multi_constraint_iot_edg.Common.{Option, none, some}

pub data Outcome {ℓ} (A : Type ℓ) : Type ℓ where
  returns : A → Outcome A
  null_dereference : Outcome A
  deadlock : Outcome A
  division_by_zero : Outcome A

infixl 5 ◌>>=◌
abbrev pub ◌>>=◌ {ℓ κ} : {A : Type ℓ} {B : Type κ} → Outcome A → (A → Outcome B) → Outcome B
returns a >>= f = f a
null_dereference >>= f = null_dereference
deadlock >>= f = deadlock
division_by_zero >>= f = division_by_zero

-- `*p`, where `none` is the null pointer.
abbrev pub dereference {ℓ} : {A : Type ℓ} → Option A → Outcome A
dereference none = null_dereference
dereference (some a) = returns a

-- The call returns, and what it returns has the property.
abbrev pub Returns {ℓ} : {A : Type ℓ} → (A → Type 0) → Outcome A → Type 0
Returns P (returns a) = P a
Returns P null_dereference = ⊥
Returns P deadlock = ⊥
Returns P division_by_zero = ⊥

-- What a call returns is handed to a function that cannot fail.
pub Returns-map {ℓ κ} :
    {A : Type ℓ} {B : Type κ} (P : A → Type 0) (Q : B → Type 0) (f : A → B) (m : Outcome A)
    → ((a : A) → P a → Q (f a))
    → Returns P m
    → Returns Q (m >>= λ a. returns (f a))
Returns-map P Q f (returns a) g p = g a p
Returns-map P Q f null_dereference g p = p
Returns-map P Q f deadlock g p = p
Returns-map P Q f division_by_zero g p = p

-- The rule of sequence.
pub Returns-bind {ℓ κ} :
    {A : Type ℓ} {B : Type κ} (P : A → Type 0) (Q : B → Type 0) (f : A → Outcome B) (m : Outcome A)
    → ((a : A) → P a → Returns Q (f a))
    → Returns P m
    → Returns Q (m >>= f)
Returns-bind P Q f (returns a) g p = g a p
Returns-bind P Q f null_dereference g p = absurd p
Returns-bind P Q f deadlock g p = absurd p
Returns-bind P Q f division_by_zero g p = absurd p

pub Returns-weaken {ℓ} :
    {A : Type ℓ} (P Q : A → Type 0) (m : Outcome A)
    → ((a : A) → P a → Q a)
    → Returns P m
    → Returns Q m
Returns-weaken P Q (returns a) g p = g a p
Returns-weaken P Q null_dereference g p = p
Returns-weaken P Q deadlock g p = p
Returns-weaken P Q division_by_zero g p = p

pub Returns-both {ℓ} :
    {A : Type ℓ} (P Q : A → Type 0) (m : Outcome A)
    → Returns P m
    → Returns Q m
    → Returns (λ a. P a × Q a) m
Returns-both P Q (returns a) p q = (p, q)
Returns-both P Q null_dereference p q = p
Returns-both P Q deadlock p q = p
Returns-both P Q division_by_zero p q = p
