-- ===== src/Prelude/Assoc.antt =====
-- `std::collections::HashMap` with number keys, as an association list.
use Prim.Native.Nat.{ℕ}
use mathlib.Core.Path.{◌≡◌, refl}
use mathlib.Core.List.{List, [], ◌∷◌}
use mathlib.Core.Option.{Option, none, some}
use native.Mathlib.Omega.{arith}
use aquavm.Prelude.Tests.{◌==◌, if◌then◌else◌}

abbrev pub HashMap {ℓ} : Type ℓ → Type ℓ
HashMap V = List (ℕ × V)

module _ {ℓ} {V : Type ℓ} where
  -- Every entry of the key goes, so that the law has no side condition.
  unfoldable pub remove : ℕ → HashMap V → HashMap V
  remove key [] = []
  remove key (entry ∷ rest) = if entry.0 == key then remove key rest else entry ∷ remove key rest

  unfoldable pub insert : ℕ → V → HashMap V → HashMap V
  insert key value [] = (key, value) ∷ []
  insert key value (entry ∷ rest) =
      if entry.0 == key then (key, value) ∷ rest else entry ∷ insert key value rest

  unfoldable pub lookup : ℕ → HashMap V → Option V
  lookup key [] = none
  lookup key (entry ∷ rest) = if entry.0 == key then some (entry.1) else lookup key rest

  pub lookup-nil : (key : ℕ) → lookup key [] ≡ none
  unfolding lookup
  lookup-nil key = refl

  pub lookup-remove :
      (key other : ℕ) (map : HashMap V)
      → lookup other (remove key map) ≡ (if key == other then none else lookup other map)
  unfolding lookup remove
  lookup-remove key other [] = ground arith
  lookup-remove key other (entry ∷ rest) = ground (arith, lookup-remove key other rest)

  pub lookup-insert :
      (key other : ℕ) (value : V) (map : HashMap V)
      → lookup other (insert key value map)
        ≡ (if key == other then some value else lookup other map)
  unfolding lookup insert
  lookup-insert key other value [] = refl
  lookup-insert key other value (entry ∷ rest) = ground (arith, lookup-insert key other value rest)
