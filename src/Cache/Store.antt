-- ===== src/Cache/Store.antt =====
-- `CacheStore` of backend/app/cache/base.py, with what the layers rely on: a store hands out only
-- values that were put in under the key. It may lose values at any time.
use enterprise_ai_agent.Prelude.{◌≡◌, Bool, Option, some, ℕ, String}
use enterprise_ai_agent.Prelude.Int.{ℤ}

-- `Holds P s` says that every value in the store has P at its key. `B` stands for `bytes`.
pub record CacheStore (B : Type 0) : Type 1 where
  pub S : Type 0
  pub get : String → S → Option B × S
  pub set : String → B → Option ℤ → S → S
  pub delete : String → S → Bool × S
  pub clear : S → ℕ × S
  pub Holds : (String → B → Type 0) → S → Type 0
  pub get-Holds : (P : String → B → Type 0) (k : String) (s : S) → Holds P s → Holds P (get k s).1
  pub get-gives :
      (P : String → B → Type 0) (k : String) (s : S) (b : B)
      → Holds P s
      → (get k s).0 ≡ some b
      → P k b
  pub set-Holds :
      (P : String → B → Type 0) (k : String) (b : B) (ttl : Option ℤ) (s : S)
      → Holds P s
      → P k b
      → Holds P (set k b ttl s)
  pub delete-Holds :
      (P : String → B → Type 0) (k : String) (s : S) → Holds P s → Holds P (delete k s).1
  pub clear-Holds : (P : String → B → Type 0) (s : S) → Holds P (clear s).1
