-- ===== src/Prelude/Totals.antt =====
-- Maps with distinct keys, and sums over their values.
use Prim.Native.Nat.{ℕ, ◌+◌}
use mathlib.Core.Path.{◌≡◌, refl, ap}
use mathlib.Core.Bool.{true}
use mathlib.Core.List.{[], ◌∷◌}
use mathlib.Core.Logic.{inl, inr}
use mathlib.Core.Option.{none, some}
use native.Mathlib.Omega.{arith}
use programmable_retention_t.Prelude.Tests.{◌==◌, is_none, Bool-cases}
use programmable_retention_t.Prelude.Maps.{
  Entries, lookup, insert, erase, lookup-insert, lookup-erase,
}

module _ {ℓ} {V : Type ℓ} where
  -- No key stands twice.
  abbrev pub IsUnique : Entries V → Type 0
  IsUnique [] = Unit {0}
  IsUnique ((key, value) ∷ rest) = (is_none (lookup key rest) ≡ true) × IsUnique rest

  unfoldable pub total : (V → ℕ) → Entries V → ℕ
  total weight [] = 0
  total weight ((key, value) ∷ rest) = weight value + total weight rest

  pub insert-IsUnique :
      (k : ℕ) (v : V) (entries : Entries V) → IsUnique entries → IsUnique (insert k v entries)
  unfolding insert lookup
  insert-IsUnique k v [] u = ground arith
  insert-IsUnique k v ((key, value) ∷ rest) u =
      ground (arith, insert-IsUnique k v rest u.1, lookup-insert k key v rest)

  pub erase-IsUnique : (k : ℕ) (entries : Entries V) → IsUnique entries → IsUnique (erase k entries)
  unfolding erase
  erase-IsUnique k [] u = tt
  erase-IsUnique k ((key, value) ∷ rest) u =
      ground (arith, erase-IsUnique k rest u.1, lookup-erase k key rest)

  pub erase_absent :
      (k : ℕ) (entries : Entries V) → lookup k entries ≡ none → erase k entries ≡ entries
  unfolding erase lookup
  erase_absent k [] h = refl
  erase_absent k ((key, value) ∷ rest) h = ground (arith, erase_absent k rest)

  pub total-insert_absent :
      (weight : V → ℕ) (k : ℕ) (v : V) (entries : Entries V)
      → lookup k entries ≡ none
      → total weight (insert k v entries) ≡ weight v + total weight entries
  unfolding insert lookup total
  total-insert_absent weight k v [] h = refl
  total-insert_absent weight k v ((key, value) ∷ rest) h =
      ground (arith, total-insert_absent weight k v rest)

  pub total-insert_present :
      (weight : V → ℕ) (k : ℕ) (v old : V) (entries : Entries V)
      → lookup k entries ≡ some old
      → total weight (insert k v entries) + weight old ≡ weight v + total weight entries
  unfolding insert lookup total
  total-insert_present weight k v old [] h = ground arith
  total-insert_present weight k v old ((key, value) ∷ rest) h =
      ground (arith, total-insert_present weight k v old rest)

  pub total-erase :
      (weight : V → ℕ) (k : ℕ) (old : V) (entries : Entries V)
      → IsUnique entries
      → lookup k entries ≡ some old
      → total weight (erase k entries) + weight old ≡ total weight entries
  unfolding erase lookup total
  total-erase weight k old [] u h = ground arith
  total-erase weight k old ((key, value) ∷ rest) u h = elim (Bool-cases (key == k)) [
    | inl same ↦
        let gone : lookup k rest ≡ none = ground (arith, ap (λ (x : ℕ). lookup x rest)) in
        ground (arith, erase_absent k rest gone)
    | inr other ↦ ground (arith, total-erase weight k old rest u.1)
  ]
