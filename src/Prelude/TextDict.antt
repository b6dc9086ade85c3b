-- ===== src/Prelude/TextDict.antt =====
-- Python dictionaries with text keys, as association lists in the order of insertion.
use mathlib.Core.Path.{◌≡◌, refl}
use mathlib.Core.Option.{Option, none, some}
use mathlib.Core.Bool.{Bool, true, false}
use mathlib.Core.List.{List, [], ◌∷◌, ◌++◌}
use Prim.Native.Nat.{suc}
use Prim.Native.String.{String}
use native.Mathlib.Omega.{arith}
use enterprise_ai_agent.Prelude.Tests.{if◌then◌else◌}
use enterprise_ai_agent.Prelude.Text.{str_eq, eq_iff, occ}

abbrev pub TextDict {ℓ} : Type ℓ → Type ℓ
TextDict V = List (String × V)

module _ {ℓ} {V : Type ℓ} where
  unfoldable pub lookup : String → TextDict V → Option V
  lookup k [] = none
  lookup k ((j, v) ∷ d) = if str_eq j k then some v else lookup k d

  -- `d[k] = v`, which keeps the place of a key that is there.
  unfoldable pub insert : String → V → TextDict V → TextDict V
  insert k v [] = (k, v) ∷ []
  insert k v ((j, w) ∷ d) = if str_eq j k then (k, v) ∷ d else (j, w) ∷ insert k v d

  -- `d.pop(k, None)`, as far as the dictionary goes.
  unfoldable pub erase : String → TextDict V → TextDict V
  erase k [] = []
  erase k ((j, v) ∷ d) = let rest = erase k d in if str_eq j k then rest else (j, v) ∷ rest

  unfoldable pub keys : TextDict V → List String
  keys [] = []
  keys ((j, v) ∷ d) = j ∷ keys d

  pub lookup-insert :
      (k j : String) (v : V) (d : TextDict V)
      → lookup j (insert k v d) ≡ (if str_eq k j then some v else lookup j d)
  unfolding lookup insert
  lookup-insert k j v [] = ground arith
  lookup-insert k j v ((i, w) ∷ d) =
      ground (arith, eq_iff k j, eq_iff i k, eq_iff i j, lookup-insert k j v d)

  pub lookup-erase :
      (k j : String) (d : TextDict V)
      → lookup j (erase k d) ≡ (if str_eq k j then none else lookup j d)
  unfolding lookup erase
  lookup-erase k j [] = ground arith
  lookup-erase k j ((i, w) ∷ d) =
      ground (arith, eq_iff k j, eq_iff i k, eq_iff i j, lookup-erase k j d)

  -- Whether a lookup found a value.
  abbrev pub known : Option V → Bool
  known none = false
  known (some v) = true

  pub occ-keys-insert :
      (k n : String) (v : V) (d : TextDict V)
      → occ n (keys (insert k v d)) ≡ (
          if str_eq k n
          then (if known (lookup k d) then occ n (keys d) else suc (occ n (keys d)))
          else occ n (keys d))
  unfolding keys insert occ lookup
  occ-keys-insert k n v [] = ground arith
  occ-keys-insert k n v ((i, w) ∷ d) =
      ground (arith, eq_iff k n, eq_iff i k, eq_iff i n, occ-keys-insert k n v d)

  pub occ-keys-none : (k : String) (d : TextDict V) → lookup k d ≡ none → occ k (keys d) ≡ 0
  unfolding keys occ lookup
  occ-keys-none k [] h = ground arith
  occ-keys-none k ((i, w) ∷ d) h = ground (arith, occ-keys-none k d)

  pub insert-fresh :
      (k : String) (v : V) (d : TextDict V) → lookup k d ≡ none → insert k v d ≡ d ++ ((k, v) ∷ [])
  unfolding lookup insert
  insert-fresh k v [] h = refl
  insert-fresh k v ((i, w) ∷ d) h = ground (arith, insert-fresh k v d)

  pub erase-append : (k : String) (d e : TextDict V) → erase k (d ++ e) ≡ erase k d ++ erase k e
  unfolding erase
  erase-append k [] e = refl
  erase-append k ((i, w) ∷ d) e = ground (arith, erase-append k d e)

  pub erase-fresh : (k : String) (d : TextDict V) → lookup k d ≡ none → erase k d ≡ d
  unfolding lookup erase
  erase-fresh k [] h = refl
  erase-fresh k ((i, w) ∷ d) h = ground (arith, erase-fresh k d)

  pub lookup-append-none :
      (k : String) (d e : TextDict V)
      → lookup k d ≡ none
      → lookup k e ≡ none
      → lookup k (d ++ e) ≡ none
  unfolding lookup
  lookup-append-none k [] e h i = i
  lookup-append-none k ((j, w) ∷ d) e h i = ground (arith, lookup-append-none k d e)
