-- ===== src/Prelude/Run.antt =====
-- How a call of the C++ code ends, and the rules for calls that end well.
use mathlib.Core.Path.{◌≡◌, ◌∙◌, refl, sym}
use mathlib.Core.Bool.{Bool, true, false}
use redis_database_basic_imp.Prelude.Tests.{if◌then◌else◌}
use mathlib.Core.Option.{Option, none, some}

-- A returned value; a failed assertion or an access outside an object, which the language leaves
-- undefined; or the fuel of a loop running out in the model.
pub data Run {ℓ} (A : Type ℓ) : Type ℓ where
  ok : A → Run A
  fault out_of_fuel : Run A

infixl 5 ◌>>=◌ ◌>>◌
abbrev pub ◌>>=◌ {ℓ κ} : {A : Type ℓ} {B : Type κ} → Run A → (A → Run B) → Run B
ok a >>= f = f a
fault >>= f = fault
out_of_fuel >>= f = out_of_fuel

abbrev pub ◌>>◌ {ℓ} : {B : Type ℓ} → Run (Unit {0}) → Run B → Run B
m >> k = m >>= λ _. k

-- `assert(b)`
abbrev pub check : Bool → Run (Unit {0})
check true = ok tt
check false = fault

-- A read through a pointer or an index that may lie outside its object.
abbrev pub or_fault {ℓ} : {A : Type ℓ} → Option A → Run A
or_fault (some a) = ok a
or_fault none = fault

-- The call returns normally, with a value that satisfies `P`.
abbrev pub Returns {ℓ κ} : {A : Type ℓ} → (A → Type κ) → Run A → Type (ℓ ⊔ κ)
Returns {A} P r = (a : A) × (r ≡ ok a) × P a

pub Returns-bind {ℓ κ μ ν} :
    {A : Type ℓ} {B : Type μ} {P : A → Type κ} {Q : B → Type ν} {r : Run A} {f : A → Run B}
    → Returns P r
    → ((a : A) → P a → Returns Q (f a))
    → Returns Q (r >>= f)
Returns-bind (a, e, p) k = rw e (k a p)

-- If the call returns normally, then with a value that satisfies `P`.
abbrev pub Ensures {ℓ} : {A : Type ℓ} → (A → Type 0) → Run A → Type 0
Ensures P (ok a) = P a
Ensures P fault = Unit
Ensures P out_of_fuel = Unit

pub Ensures-bind {ℓ κ} :
    {A : Type ℓ} {B : Type κ} (P : A → Type 0) (Q : B → Type 0) (r : Run A) (f : A → Run B)
    → Ensures P r
    → ((a : A) → P a → Ensures Q (f a))
    → Ensures Q (r >>= f)
Ensures-bind P Q (ok a) f p k = k a p
Ensures-bind P Q fault f p k = tt
Ensures-bind P Q out_of_fuel f p k = tt

-- A call of which nothing is said.
pub Ensures-then {ℓ κ} :
    {A : Type ℓ} {B : Type κ} (Q : B → Type 0) (r : Run A) (f : A → Run B)
    → ((a : A) → Ensures Q (f a))
    → Ensures Q (r >>= f)
Ensures-then Q (ok a) f k = k a
Ensures-then Q fault f k = tt
Ensures-then Q out_of_fuel f k = tt

pub Ensures-ok {ℓ} :
    {A : Type ℓ} (P : A → Type 0) (r : Run A) (a : A) → Ensures P r → r ≡ ok a → P a
Ensures-ok P r a h e = rw e at h

pub Ensures-weak {ℓ} :
    {A : Type ℓ} (P Q : A → Type 0) (r : Run A) → Ensures P r → ((a : A) → P a → Q a) → Ensures Q r
Ensures-weak P Q (ok a) h k = k a h
Ensures-weak P Q fault h k = tt
Ensures-weak P Q out_of_fuel h k = tt

pub Returns-Ensures {ℓ} : {A : Type ℓ} (P : A → Type 0) (r : Run A) → Returns P r → Ensures P r
Returns-Ensures P r (a, e, p) = rw e p

-- Where the first call returns normally, the second returns the same.
abbrev pub Refines {ℓ} : {A : Type ℓ} → Run A → Run A → Type ℓ
Refines (ok a) r' = r' ≡ ok a
Refines fault r' = Unit {ℓ}
Refines out_of_fuel r' = Unit {ℓ}

pub Refines-refl {ℓ} : {A : Type ℓ} (r : Run A) → Refines r r
Refines-refl (ok a) = refl
Refines-refl fault = tt
Refines-refl out_of_fuel = tt

pub Refines-bind {ℓ κ} :
    {A : Type ℓ} {B : Type κ} (r r' : Run A) (f f' : A → Run B)
    → Refines r r'
    → ((a : A) → Refines (f a) (f' a))
    → Refines (r >>= f) (r' >>= f')
Refines-bind (ok a) r' f f' e k = rw e (k a)
Refines-bind fault r' f f' e k = tt
Refines-bind out_of_fuel r' f f' e k = tt

-- A call that both make.
pub Refines-then {ℓ κ} :
    {A : Type ℓ} {B : Type κ} (r : Run A) (f f' : A → Run B)
    → ((a : A) → Refines (f a) (f' a))
    → Refines (r >>= f) (r >>= f')
Refines-then r f f' k = Refines-bind r r f f' (Refines-refl r) k

pub Refines-if {ℓ} :
    {A : Type ℓ} (b : Bool) (x x' y y' : Run A)
    → Refines x x'
    → Refines y y'
    → Refines (if b then x else y) (if b then x' else y')
Refines-if true x x' y y' h k = h
Refines-if false x x' y y' h k = k

pub Refines-Ensures {ℓ} :
    {A : Type ℓ} (P : A → Type 0) (r r' : Run A) → Refines r r' → Returns P r' → Ensures P r
Refines-Ensures P (ok a) r' e (b, run, p) = Ensures-ok P (ok b) a p (sym run ∙ e)
Refines-Ensures P fault r' e h = tt
Refines-Ensures P out_of_fuel r' e h = tt
