-- ===== src/Base/Assoc.antt =====
-- Go maps whose keys are UUIDs: association lists.
use Prim.Native.Nat.{ℕ}
use mathlib.Core.Path.{◌≡◌, refl}
use mathlib.Core.Option.{Option, none, some}
use mathlib.Core.List.{List, [], ◌∷◌}
use native.Mathlib.Omega.{arith}
use order_book_vibranium.Base.Tests.{◌==◌, if◌then◌else◌}

module _ {ℓ} {V : Type ℓ} where
  -- `m[id]`
  unfoldable pub lookup : ℕ → List (ℕ × V) → Option V
  lookup id [] = none
  lookup id ((key, value) ∷ rest) = if key == id then some value else lookup id rest

  -- `m[id] = value`
  unfoldable pub insert : ℕ → V → List (ℕ × V) → List (ℕ × V)
  insert id value [] = (id, value) ∷ []
  insert id value ((key, old) ∷ rest) =
      if key == id then (id, value) ∷ rest else (key, old) ∷ insert id value rest

  -- `delete(m, id)`
  unfoldable pub erase : ℕ → List (ℕ × V) → List (ℕ × V)
  erase id [] = []
  erase id ((key, value) ∷ rest) = if key == id then erase id rest else (key, value) ∷ erase id rest

  pub lookup-insert :
      (id other : ℕ) (value : V) (rows : List (ℕ × V))
      → lookup other (insert id value rows)
        ≡ (if id == other then some value else lookup other rows)
  unfolding lookup insert
  lookup-insert id other value ((key, old) ∷ rest) =
      ground (arith, lookup-insert id other value rest)
  lookup-insert id other value [] = refl

  pub lookup-erase :
      (id other : ℕ) (rows : List (ℕ × V))
      → lookup other (erase id rows) ≡ (if id == other then none else lookup other rows)
  unfolding lookup erase
  lookup-erase id other ((key, value) ∷ rest) = ground (arith, lookup-erase id other rest)
  lookup-erase id other [] = ground arith
