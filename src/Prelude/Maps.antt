-- ===== src/Prelude/Maps.antt =====
-- `std::unordered_map` with numbers for keys, as an association list.
use Prim.Native.Nat.{ℕ}
use mathlib.Core.Path.{◌≡◌, refl}
use mathlib.Core.List.{List, [], ◌∷◌}
use mathlib.Core.Option.{Option, none, some}
use native.Mathlib.Omega.{arith}
use programmable_retention_t.Prelude.Tests.{◌==◌, if◌then◌else◌}

-- `Entries V` lists the pairs of key and value; a key stands at most once where `m[key] = value` and
-- `emplace` made the list.
abbrev pub Entries {ℓ} : Type ℓ → Type ℓ
Entries V = List (ℕ × V)

module _ {ℓ} {V : Type ℓ} where
  -- `find`
  unfoldable pub lookup : ℕ → Entries V → Option V
  lookup wanted [] = none
  lookup wanted ((key, value) ∷ rest) = if key == wanted then some value else lookup wanted rest

  -- `m[wanted] = new`
  unfoldable pub insert : ℕ → V → Entries V → Entries V
  insert wanted new [] = (wanted, new) ∷ []
  insert wanted new ((key, value) ∷ rest) =
      let later = insert wanted new rest in
      if key == wanted then (wanted, new) ∷ rest else (key, value) ∷ later

  -- `erase`
  unfoldable pub erase : ℕ → Entries V → Entries V
  erase wanted [] = []
  erase wanted ((key, value) ∷ rest) =
      let later = erase wanted rest in if key == wanted then later else (key, value) ∷ later

  pub lookup-insert :
      (wanted j : ℕ) (new : V) (entries : Entries V)
      → lookup j (insert wanted new entries) ≡ (if wanted == j then some new else lookup j entries)
  unfolding lookup insert
  lookup-insert wanted j new [] = refl
  lookup-insert wanted j new ((key, value) ∷ rest) = ground (arith, lookup-insert wanted j new rest)

  pub lookup-erase :
      (wanted j : ℕ) (entries : Entries V)
      → lookup j (erase wanted entries) ≡ (if wanted == j then none else lookup j entries)
  unfolding lookup erase
  lookup-erase wanted j [] = ground arith
  lookup-erase wanted j ((key, value) ∷ rest) = ground (arith, lookup-erase wanted j rest)
