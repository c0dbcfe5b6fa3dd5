-- ===== src/Prelude/Classes.antt =====
-- The retention classes (sim/retention_model.hpp) and the arrays with one entry for each class.
use Prim.Native.Nat.{ℕ}
use mathlib.Core.Path.{◌≡◌, refl}
use mathlib.Core.Logic.{◌≢◌, ◌↔◌}
use mathlib.Core.Bool.{Bool, true}
use native.Mathlib.Omega.{arith}
use programmable_retention_t.Prelude.Tests.{◌==◌}

pub data RetentionClass : Type 0 where
  ephemeral epoch durable : RetentionClass

abbrev pub class_index : RetentionClass → ℕ
class_index ephemeral = 0
class_index epoch = 1
class_index durable = 2

abbrev pub same_class : RetentionClass → RetentionClass → Bool
same_class a b = class_index a == class_index b

pub same_class_iff : (a b : RetentionClass) → (same_class a b ≡ true) ↔ (a ≡ b)
same_class_iff a b = ground arith

-- `std::array<A, 3>`, indexed by `class_index`.
pub record PerClass {ℓ} (A : Type ℓ) : Type ℓ where
  pub of_ephemeral : A
  pub of_epoch : A
  pub of_durable : A

module _ {ℓ} {A : Type ℓ} where
  abbrev pub at : RetentionClass → PerClass A → A
  at ephemeral p = p.of_ephemeral
  at epoch p = p.of_epoch
  at durable p = p.of_durable

  abbrev pub put : RetentionClass → A → PerClass A → PerClass A
  put ephemeral a p = record p { of_ephemeral = a }
  put epoch a p = record p { of_epoch = a }
  put durable a p = record p { of_durable = a }

  pub at-put_self : (c : RetentionClass) (a : A) (p : PerClass A) → at c (put c a p) ≡ a
  at-put_self ephemeral a p = refl
  at-put_self epoch a p = refl
  at-put_self durable a p = refl

  pub at-put_ne :
      (c d : RetentionClass) (a : A) (p : PerClass A) → c ≢ d → at d (put c a p) ≡ at d p
  at-put_ne c d a p h = ground arith
