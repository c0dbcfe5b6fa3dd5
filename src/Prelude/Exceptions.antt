-- ===== src/Prelude/Exceptions.antt =====
-- Calls that may throw: `thrown` carries the exception's message, and `undefined` stands for
-- behaviour that C++ leaves undefined.
use Prim.Native.Nat.{ℕ, ◌+◌, ◌-◌}
use Prim.Native.String.{String}
use mathlib.Core.Path.{◌≡◌, refl, subst}
use mathlib.Core.Bool.{Bool, true, false}
use programmable_retention_t.Prelude.Tests.{ltb, if◌then◌else◌}
use programmable_retention_t.Prelude.Words.{infinite}

pub data Attempt {ℓ} (A : Type ℓ) : Type ℓ where
  returned : A → Attempt A
  thrown : String → Attempt A
  undefined : Attempt A

infixl 5 ◌>>=◌
abbrev pub ◌>>=◌ {ℓ κ} : {A : Type ℓ} {B : Type κ} → Attempt A → (A → Attempt B) → Attempt B
returned a >>= f = f a
thrown message >>= f = thrown message
undefined >>= f = undefined

-- `checked_add`
abbrev pub checked_add : ℕ → ℕ → String → Attempt ℕ
checked_add left right message =
    if ltb (infinite - right) left then thrown message else returned (left + right)

-- A returned value satisfies `P`; a throw is allowed, undefined behaviour is not.
abbrev pub Ensures {ℓ} : {A : Type ℓ} → Attempt A → (A → Type 0) → Type 0
Ensures (returned a) P = P a
Ensures (thrown message) P = Unit {0}
Ensures undefined P = ⊥

pub Ensures->>= {ℓ κ} :
    {A : Type ℓ} {B : Type κ} (r : Attempt A) (f : A → Attempt B) (P : A → Type 0) (Q : B → Type 0)
    → Ensures r P
    → ((a : A) → P a → Ensures (f a) Q)
    → Ensures (r >>= f) Q
Ensures->>= (returned a) f P Q h k = k a h
Ensures->>= (thrown message) f P Q h k = tt
Ensures->>= undefined f P Q h k = h

pub Ensures-mono {ℓ} :
    {A : Type ℓ} (r : Attempt A) (P Q : A → Type 0)
    → Ensures r P
    → ((a : A) → P a → Q a)
    → Ensures r Q
Ensures-mono (returned a) P Q h k = k a h
Ensures-mono (thrown message) P Q h k = tt
Ensures-mono undefined P Q h k = h

pub Ensures-if {ℓ} :
    {A : Type ℓ} (test : Bool) (x y : Attempt A) (P : A → Type 0)
    → Ensures x P
    → Ensures y P
    → Ensures (if test then x else y) P
Ensures-if true x y P h k = h
Ensures-if false x y P h k = k

-- `Ensures-if`, where each branch knows the test's value.
pub Ensures-either {ℓ} :
    {A : Type ℓ} (test : Bool) (x y : Attempt A) (P : A → Type 0)
    → (test ≡ true → Ensures x P)
    → (test ≡ false → Ensures y P)
    → Ensures (if test then x else y) P
Ensures-either true x y P h k = h refl
Ensures-either false x y P h k = k refl

-- A returned value, if there is one, satisfies `P`.
abbrev pub WhenReturned {ℓ} : {A : Type ℓ} → Attempt A → (A → Type 0) → Type 0
WhenReturned (returned a) P = P a
WhenReturned (thrown message) P = Unit {0}
WhenReturned undefined P = Unit {0}

pub WhenReturned->>= {ℓ κ} :
    {A : Type ℓ} {B : Type κ} (r : Attempt A) (f : A → Attempt B) (Q : B → Type 0)
    → ((a : A) → r ≡ returned a → WhenReturned (f a) Q)
    → WhenReturned (r >>= f) Q
WhenReturned->>= (returned a) f Q h = h a refl
WhenReturned->>= (thrown message) f Q h = tt
WhenReturned->>= undefined f Q h = tt

pub WhenReturned_known {ℓ} :
    {A : Type ℓ} (r : Attempt A) (a : A) (P : A → Type 0) → WhenReturned r P → r ≡ returned a → P a
WhenReturned_known r a P h e = subst (λ q. WhenReturned q P) e h

pub WhenReturned-if {ℓ} :
    {A : Type ℓ} (test : Bool) (x y : Attempt A) (P : A → Type 0)
    → WhenReturned x P
    → WhenReturned y P
    → WhenReturned (if test then x else y) P
WhenReturned-if true x y P h k = h
WhenReturned-if false x y P h k = k

pub WhenReturned-mono {ℓ} :
    {A : Type ℓ} (r : Attempt A) (P Q : A → Type 0)
    → WhenReturned r P
    → ((a : A) → P a → Q a)
    → WhenReturned r Q
WhenReturned-mono (returned a) P Q h k = k a h
WhenReturned-mono (thrown message) P Q h k = tt
WhenReturned-mono undefined P Q h k = tt
