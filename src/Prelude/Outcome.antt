-- ===== src/Prelude/Outcome.antt =====
-- What a call in C comes to: a value, undefined behaviour, or a loop that the fuel cuts off.
use mathlib.Core.Path.{◌≡◌, refl, subst}
use mathlib.Core.Bool.{Bool, true, false}
use hash_map_storage_service.Prelude.Tests.{if◌then◌else◌}
use mathlib.Core.Option.{Option, none, some}

-- `fault`: a NULL, freed or indeterminate pointer is used, or an access leaves its object.
pub data Outcome {ℓ} (A : Type ℓ) : Type ℓ where
  ret : A → Outcome A
  fault : Outcome A
  out_of_fuel : Outcome A

infixl 5 ◌>>=◌
abbrev pub ◌>>=◌ {ℓ κ} : {A : Type ℓ} {B : Type κ} → Outcome A → (A → Outcome B) → Outcome B
ret a >>= f = f a
fault >>= f = fault
out_of_fuel >>= f = out_of_fuel

-- The object behind a pointer: `none` is NULL.
abbrev pub deref {ℓ} : {A : Type ℓ} → Option A → Outcome A
deref none = fault
deref (some a) = ret a

-- The call returns, and its value satisfies `P`.
abbrev pub Returns {ℓ κ} : {A : Type ℓ} → Outcome A → (A → Type κ) → Type (ℓ ⊔ κ)
Returns {A} m P = (a : A) × (m ≡ ret a) × P a

-- If the call returns, its value satisfies `P`.
abbrev pub IfReturns {ℓ κ} : {A : Type ℓ} → Outcome A → (A → Type κ) → Type κ
IfReturns (ret a) P = P a
IfReturns fault P = Unit
IfReturns out_of_fuel P = Unit

pub IfReturns-bind {ℓ κ ν μ} :
    {A : Type ℓ} {B : Type κ} (P : A → Type ν) (Q : B → Type μ) (o : Outcome A) (f : A → Outcome B)
    → IfReturns o P
    → ((a : A) → P a → IfReturns (f a) Q)
    → IfReturns (o >>= f) Q
IfReturns-bind P Q (ret a) f h g = g a h
IfReturns-bind P Q fault f h g = tt
IfReturns-bind P Q out_of_fuel f h g = tt

-- The rest of a call, when nothing has to be known of the first part.
pub IfReturns-then {ℓ κ μ} :
    {A : Type ℓ} {B : Type κ} (Q : B → Type μ) (o : Outcome A) (f : A → Outcome B)
    → ((a : A) → IfReturns (f a) Q)
    → IfReturns (o >>= f) Q
IfReturns-then Q (ret a) f g = g a
IfReturns-then Q fault f g = tt
IfReturns-then Q out_of_fuel f g = tt

pub IfReturns-ret {ℓ κ} :
    {A : Type ℓ} (P : A → Type κ) (o : Outcome A) (a : A) → IfReturns o P → o ≡ ret a → P a
IfReturns-ret P o a h e = subst (λ x. IfReturns x P) e h

pub IfReturns-if {ℓ κ} :
    {A : Type ℓ} (P : A → Type κ) (b : Bool) (x y : Outcome A)
    → IfReturns x P
    → IfReturns y P
    → IfReturns (if b then x else y) P
IfReturns-if P true x y h g = h
IfReturns-if P false x y h g = g

pub bind_assoc {ℓ κ μ} :
    {A : Type ℓ} {B : Type κ} {C : Type μ} (o : Outcome A) (f : A → Outcome B) (g : B → Outcome C)
    → (o >>= f >>= g) ≡ (o >>= λ a. f a >>= g)
bind_assoc (ret a) f g = refl
bind_assoc fault f g = refl
bind_assoc out_of_fuel f g = refl

pub bind-congr {ℓ κ} :
    {A : Type ℓ} {B : Type κ} (o : Outcome A) (f g : A → Outcome B)
    → ((a : A) → f a ≡ g a)
    → (o >>= f) ≡ (o >>= g)
bind-congr (ret a) f g e = e a
bind-congr fault f g e = refl
bind-congr out_of_fuel f g e = refl

-- The call does not return.
abbrev IsStuck {ℓ} : {A : Type ℓ} → Outcome A → Type 0
IsStuck (ret a) = ⊥
IsStuck fault = Unit
IsStuck out_of_fuel = Unit

pub ret_injective {ℓ} : {A : Type ℓ} {a b : A} → ret a ≡ ret b → a ≡ b
ret_injective {A} {a} {b} e = subst (λ o. IfReturns o (λ c. a ≡ c)) e refl

-- What a call that returned went through.
pub bind-inv {ℓ κ} :
    {A : Type ℓ} {B : Type κ} (o : Outcome A) (f : A → Outcome B) (b : B)
    → (o >>= f) ≡ ret b
    → (a : A) × (o ≡ ret a) × (f a ≡ ret b)
bind-inv (ret a) f b e = (a, refl, e)
bind-inv fault f b e = absurd (subst IsStuck e tt)
bind-inv out_of_fuel f b e = absurd (subst IsStuck e tt)
