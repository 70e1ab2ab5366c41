-- ===== src/Prelude/Tables.antt =====
-- A table whose rows are unique by a user's or a job's id: the id is a UUID, which the code only
-- compares, so a number stands for it.
use Prim.Native.Nat.{ℕ}
use mathlib.Core.Path.{◌≡◌, refl}
use mathlib.Core.Option.{Option, none, some}
use mathlib.Core.List.{List, [], ◌∷◌}
use native.Mathlib.Omega.{arith}
use musicfy.Prelude.Tests.{◌==◌, if◌then◌else◌}

abbrev pub Table {ℓ} : Type ℓ → Type ℓ
Table V = List (ℕ × V)

module _ {ℓ} {V : Type ℓ} where
  abbrev pub lookup : ℕ → Table V → Option V
  lookup k [] = none
  lookup k ((j, v) ∷ t) = if k == j then some v else lookup k t

  -- `INSERT ... ON CONFLICT DO UPDATE`
  abbrev pub insert : ℕ → V → Table V → Table V
  insert k v [] = (k, v) ∷ []
  insert k v (e ∷ t) = if k == e.0 then (k, v) ∷ t else e ∷ insert k v t

  -- `DELETE`
  abbrev pub erase : ℕ → Table V → Table V
  erase k [] = []
  erase k (e ∷ t) = let rest = erase k t in if k == e.0 then rest else e ∷ rest

module _ {ℓ} {V : Type ℓ} where
  pub lookup-insert :
      (j k : ℕ) (v : V) (t : Table V)
      → lookup j (insert k v t) ≡ (if j == k then some v else lookup j t)
  lookup-insert j k v [] = refl
  lookup-insert j k v (e ∷ t) = ground (arith, lookup-insert j k v t)

  pub lookup-erase :
      (j k : ℕ) (t : Table V) → lookup j (erase k t) ≡ (if j == k then none else lookup j t)
  lookup-erase j k [] = ground arith
  lookup-erase j k (e ∷ t) = ground (arith, lookup-erase j k t)
