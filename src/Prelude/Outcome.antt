-- ===== src/Prelude/Outcome.antt =====
-- What a C function of the program does: it returns a value, it returns its error code (-1, NULL
-- or false), or it reads or writes outside an object, which C leaves undefined.
use mathlib.Core.Path.{◌≡◌, refl}
use mathlib.Core.Bool.{Bool, true, false}

pub data Outcome {ℓ} (A : Type ℓ) : Type ℓ where
  ok : A → Outcome A
  failed : Outcome A
  fault : Outcome A

infixl 5 ◌>>=◌ ◌>>◌
abbrev pub ◌>>=◌ {ℓ κ} : {A : Type ℓ} {B : Type κ} → Outcome A → (A → Outcome B) → Outcome B
ok a >>= f = f a
failed >>= f = failed
fault >>= f = fault

abbrev pub ◌>>◌ {ℓ} : {B : Type ℓ} → Outcome (Unit {0}) → Outcome B → Outcome B
m >> k = m >>= λ _. k

-- `if (c) return -1;`
abbrev pub fail_if : Bool → Outcome (Unit {0})
fail_if true = failed
fail_if false = ok tt

-- No fault, and `P` of what is returned.
abbrev pub Safe {ℓ} : {A : Type ℓ} → (A → Type 0) → Outcome A → Type 0
Safe P (ok a) = P a
Safe P failed = Unit {0}
Safe P fault = ⊥

pub Safe-bind {ℓ κ} :
    {A : Type ℓ} {B : Type κ} (P : A → Type 0) (Q : B → Type 0) (m : Outcome A) (f : A → Outcome B)
    → Safe P m
    → ((a : A) → P a → Safe Q (f a))
    → Safe Q (m >>= f)
Safe-bind P Q (ok a) f h k = k a h
Safe-bind P Q failed f h k = tt
Safe-bind P Q fault f h k = absurd h

pub Safe-map {ℓ} :
    {A : Type ℓ} (P Q : A → Type 0) (m : Outcome A) → Safe P m → ((a : A) → P a → Q a) → Safe Q m
Safe-map P Q (ok a) h k = k a h
Safe-map P Q failed h k = tt
Safe-map P Q fault h k = absurd h

pub Safe-fail_if :
    {B : Type 0} (Q : B → Type 0) (b : Bool) (k : Outcome B)
    → (b ≡ false → Safe Q k)
    → Safe Q (fail_if b >> k)
Safe-fail_if Q true k h = tt
Safe-fail_if Q false k h = h refl

abbrev pub map_ok {ℓ κ} : {A : Type ℓ} {B : Type κ} → (A → B) → Outcome A → Outcome B
map_ok f (ok a) = ok (f a)
map_ok f failed = failed
map_ok f fault = fault

-- A value is returned, and `P` of it.
abbrev pub Returns {ℓ} : {A : Type ℓ} → (A → Type 0) → Outcome A → Type 0
Returns P (ok a) = P a
Returns P failed = ⊥
Returns P fault = ⊥

pub Returns-bind {ℓ κ} :
    {A : Type ℓ} {B : Type κ} (P : A → Type 0) (Q : B → Type 0) (m : Outcome A) (f : A → Outcome B)
    → Returns P m
    → ((a : A) → P a → Returns Q (f a))
    → Returns Q (m >>= f)
Returns-bind P Q (ok a) f h k = k a h
Returns-bind P Q failed f h k = absurd h
Returns-bind P Q fault f h k = absurd h

pub Returns-value :
    {A : Type 0} (P : A → Type 0) (m : Outcome A) → Returns P m → (a : A) × (m ≡ ok a) × P a
Returns-value P (ok a) h = (a, refl, h)
Returns-value P failed h = absurd h
Returns-value P fault h = absurd h
