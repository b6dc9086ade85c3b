-- ===== src/Prelude/Dict.antt =====
-- Python dictionaries with number keys, as association lists in the order of insertion.
use Prim.Native.Nat.{ℕ}
use mathlib.Core.Path.{◌≡◌, refl}
use mathlib.Core.Option.{Option, none, some}
use mathlib.Core.List.{List, [], ◌∷◌}
use native.Mathlib.Omega.{arith}
use enterprise_ai_agent.Prelude.Tests.{◌==◌, if◌then◌else◌}

abbrev pub Dict {ℓ} : Type ℓ → Type ℓ
Dict V = List (ℕ × V)

module _ {ℓ} {V : Type ℓ} where
  unfoldable pub lookup : ℕ → Dict V → Option V
  lookup k [] = none
  lookup k ((j, v) ∷ d) = if j == k then some v else lookup k d

  -- `d[k] = v`, which keeps the place of a key that is there.
  unfoldable pub insert : ℕ → V → Dict V → Dict V
  insert k v [] = (k, v) ∷ []
  insert k v ((j, w) ∷ d) = if j == k then (k, v) ∷ d else (j, w) ∷ insert k v d

  -- `d.pop(k, None)`, as far as the dictionary goes.
  unfoldable pub erase : ℕ → Dict V → Dict V
  erase k [] = []
  erase k ((j, v) ∷ d) = let rest = erase k d in if j == k then rest else (j, v) ∷ rest

  pub lookup-insert :
      (k : ℕ) (v : V) (d : Dict V) (j : ℕ)
      → lookup j (insert k v d) ≡ (if k == j then some v else lookup j d)
  unfolding lookup insert
  lookup-insert k v [] j = ground arith
  lookup-insert k v ((i, w) ∷ d) j = ground (arith, lookup-insert k v d j)

  pub lookup-erase :
      (k : ℕ) (d : Dict V) (j : ℕ) → lookup j (erase k d) ≡ (if k == j then none else lookup j d)
  unfolding lookup erase
  lookup-erase k [] j = ground arith
  lookup-erase k ((i, w) ∷ d) j = ground (arith, lookup-erase k d j)

pub lookup-nil {ℓ} : (V : Type ℓ) (j : ℕ) → lookup {V = V} j [] ≡ none
unfolding lookup
lookup-nil V j = refl
