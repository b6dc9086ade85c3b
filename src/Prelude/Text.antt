-- ===== src/Prelude/Text.antt =====
-- Texts as keys: equality, order, how often a text stands in a list, sorting, and dictionaries.
use Prim.Native.Nat.{ℕ, zero, suc, ◌+◌, ◌≤◌, ◌<◌, Ordering}
use Prim.Native.String.{String, compare}
use mathlib.Core.Path.{◌≡◌, refl}
use mathlib.Core.Bool.{Bool, true, false}
use mathlib.Core.List.{List, [], ◌∷◌, ◌++◌}
use native.Mathlib.Omega.{arith}
use enterprise_ai_agent.Prelude.Tests.{if◌then◌else◌}
use enterprise_ai_agent.Prelude.Lists.{length}
pub use text.Mathlib.Text.{◌==◌ as str_eq}
pub use text.Mathlib.TextEquality.{eq_iff}
pub use text.Mathlib.TextPositions.{eq_refl}

-- Python's `a <= b`: by code points.
unfoldable pub str_le : String → String → Bool
str_le a b = elim (compare a b) [ Ordering.gt ↦ false | _ ↦ true ]

-- How often a text stands in a list.
unfoldable pub occ : String → List String → ℕ
occ n [] = 0
occ n (x ∷ xs) = if str_eq x n then suc (occ n xs) else occ n xs

-- `n in xs`
abbrev pub mem : String → List String → Bool
mem n xs = elim (occ n xs) [ zero ↦ false | suc _ ↦ true ]

pub occ-append : (n : String) (xs ys : List String) → occ n (xs ++ ys) ≡ occ n xs + occ n ys
unfolding occ
occ-append n [] ys = omega arith
occ-append n (x ∷ xs) ys = ground (arith, occ-append n xs ys)

insert_sorted : String → List String → List String
insert_sorted x [] = x ∷ []
insert_sorted x (y ∷ ys) = if str_le x y then x ∷ y ∷ ys else y ∷ insert_sorted x ys

-- `sorted(xs)`
unfoldable pub sort : List String → List String
unfolding insert_sorted str_le
sort [] = []
sort (x ∷ xs) = insert_sorted x (sort xs)

occ-insert_sorted :
    (n x : String) (ys : List String)
    → occ n (insert_sorted x ys) ≡ (if str_eq x n then suc (occ n ys) else occ n ys)
unfolding occ insert_sorted
occ-insert_sorted n x [] = refl
occ-insert_sorted n x (y ∷ ys) = ground (arith, occ-insert_sorted n x ys)

pub occ-sort : (n : String) (xs : List String) → occ n (sort xs) ≡ occ n xs
unfolding occ sort
occ-sort n [] = refl
occ-sort n (x ∷ xs) = ground (arith, occ-sort n xs, occ-insert_sorted n x (sort xs))

-- The position of a text in a list, or the length of the list.
unfoldable pub index : String → List String → ℕ
index n [] = 0
index n (x ∷ xs) = if str_eq x n then 0 else suc (index n xs)

pub index-append :
    (n : String) (xs ys : List String) → 1 ≤ occ n xs → index n (xs ++ ys) ≡ index n xs
unfolding occ index
index-append n [] ys h = absurd (omega arith)
index-append n (x ∷ xs) ys h = ground (arith, index-append n xs ys)

pub index-lt_length : (n : String) (xs : List String) → 1 ≤ occ n xs → index n xs < length xs
unfolding occ index
index-lt_length n [] h = absurd (omega arith)
index-lt_length n (x ∷ xs) h = ground (arith, index-lt_length n xs)

pub index-snoc : (n : String) (xs : List String) → occ n xs ≡ 0 → index n (xs ++ n ∷ []) ≡ length xs
unfolding occ index
index-snoc n [] h = ground (arith, eq_refl n)
index-snoc n (x ∷ xs) h = ground (arith, index-snoc n xs)

-- One occurrence taken out.
delete : String → List String → List String
delete n [] = []
delete n (x ∷ xs) = if str_eq x n then xs else x ∷ delete n xs

occ-delete :
    (n m : String) (xs : List String)
    → 1 ≤ occ n xs
    → occ m xs ≡ (if str_eq n m then suc (occ m (delete n xs)) else occ m (delete n xs))
unfolding occ delete
occ-delete n m [] h = absurd (omega arith)
occ-delete n m (x ∷ xs) h = ground (arith, occ-delete n m xs, eq_iff x n, eq_iff x m, eq_iff n m)

length-delete :
    (n : String) (xs : List String) → 1 ≤ occ n xs → length xs ≡ suc (length (delete n xs))
unfolding occ delete
length-delete n [] h = absurd (omega arith)
length-delete n (x ∷ xs) h = ground (arith, length-delete n xs)

-- A list whose texts all stand in another one, as often, is no longer than that.
pub length-le_of_occ :
    (xs ys : List String) → ((n : String) → occ n xs ≤ occ n ys) → length xs ≤ length ys
unfolding occ
length-le_of_occ [] ys h = omega arith
length-le_of_occ (x ∷ xs) ys h =
    let here : 1 ≤ occ x ys = ground (arith, h x, eq_refl x) in
    let rest =
      length-le_of_occ xs (delete x ys) (λ n. ground (arith, h n, occ-delete x n ys here)) in
    omega (arith, rest, length-delete x ys here)

-- If it is as long as that, it holds the same texts.
pub occ-le_of_length :
    (xs ys : List String)
    → ((n : String) → occ n xs ≤ occ n ys)
    → length ys ≤ length xs
    → (n : String) → occ n ys ≤ occ n xs
unfolding occ
occ-le_of_length [] [] h k n = omega arith
occ-le_of_length [] (y ∷ ys) h k n = absurd (omega arith)
occ-le_of_length (x ∷ xs) ys h k n =
    let here : 1 ≤ occ x ys = ground (arith, h x, eq_refl x) in
    let rest =
      occ-le_of_length xs (delete x ys) (λ m. ground (arith, h m, occ-delete x m ys here))
        (omega (arith, length-delete x ys here)) n in
    ground (arith, rest, occ-delete x n ys here)
