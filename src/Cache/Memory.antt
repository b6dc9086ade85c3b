-- ===== src/Cache/Memory.antt =====
-- `MemoryCacheStore` of backend/app/cache/memory.py.
--
-- The time is an argument of the calls that read it, in whole seconds. `max_entries` is not negative.
pub mod Bound
pub mod Expiry
pub mod Only
use enterprise_ai_agent.Prelude.{
  ℕ, zero, suc, ◌+◌, ltb, leb, Bool, true, false, ◌&&◌, not, Option, none, some, List, [], ◌∷◌,
  String, length, if◌then◌else◌,
}
use enterprise_ai_agent.Prelude.Int.{ℤ, pos, negsuc}
use enterprise_ai_agent.Prelude.TextDict.{TextDict, lookup, insert, erase}

pub record Entry (B : Type 0) : Type 0 where
  pub value : B
  pub expires_at : Option ℕ

pub record MemoryStore (B : Type 0) : Type 0 where
  pub data_ : TextDict (Entry B)
  pub max_entries : ℕ

-- `entry.expires_at is not None and time.time() > entry.expires_at`
unfoldable pub is_expired : (now : ℕ) → Option ℕ → Bool
is_expired now none = false
is_expired now (some t) = ltb t now

unfoldable pub expiry : (now : ℕ) → Option ℤ → Option ℕ
expiry now none = none
expiry now (some (pos zero)) = none
expiry now (some (pos (suc n))) = some (now + suc n)
expiry now (some (negsuc n)) = none

module _ {B : Type 0} where
  unfoldable pub get : (now : ℕ) → String → MemoryStore B → Option B × MemoryStore B
  unfolding is_expired
  get now k s = elim (lookup k s.data_) [
    | none ↦ (none, s)
    | some e ↦
        if is_expired now e.expires_at
        then (none, record s { data_ = erase k s.data_ })
        else (some e.value, s)
  ]

  -- `_evict_one`: the key that was inserted first.
  unfoldable pub evict_one : TextDict (Entry B) → TextDict (Entry B)
  evict_one [] = []
  evict_one ((k, e) ∷ d) = erase k ((k, e) ∷ d)

  unfoldable pub has : String → TextDict (Entry B) → Bool
  has k d = elim (lookup k d) [ none ↦ false | some e ↦ true ]

  unfoldable pub set : (now : ℕ) → String → B → Option ℤ → MemoryStore B → MemoryStore B
  unfolding expiry evict_one has
  set now k value ttl_seconds s =
      let room =
        if leb s.max_entries (length s.data_) && not (has k s.data_)
        then evict_one s.data_
        else s.data_ in
      record s {
        data_ = insert k (record { value = value; expires_at = expiry now ttl_seconds }) room;
      }

  unfoldable pub delete : String → MemoryStore B → Bool × MemoryStore B
  unfolding has
  delete k s = (has k s.data_, record s { data_ = erase k s.data_ })

  unfoldable pub clear : MemoryStore B → ℕ × MemoryStore B
  clear s = (length s.data_, record s { data_ = [] })
