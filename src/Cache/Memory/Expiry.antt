-- ===== src/Cache/Memory/Expiry.antt =====
-- What the store of backend/app/cache/memory.py hands out, and until when.
use enterprise_ai_agent.Prelude.{
  ℕ, suc, ◌+◌, ◌≤◌, ◌<◌, leb, ◌≡◌, refl, sym, ◌⊎◌, true, false, ◌&&◌, not, Option, none, some,
  String, length, if◌then◌else◌, arith, Bool-cases, Option-cases, inl, inr, ◌∙◌,
}
use enterprise_ai_agent.Prelude.Int.{ℤ, pos, ltb_ℤ}
use enterprise_ai_agent.Prelude.Text.{str_eq, eq_refl}
use enterprise_ai_agent.Prelude.TextDict.{lookup, lookup-insert}
use enterprise_ai_agent.Cache.Memory.{
  Entry, MemoryStore, get, set, evict_one, has, is_expired, expiry,
}

abbrev in_time : {B : Type 0} → ℕ → Option (Entry B) → Option B
in_time now none = none
in_time now (some e) = if is_expired now e.expires_at then none else some e.value

get-lookup :
    {B : Type 0} (now : ℕ) (k : String) (s : MemoryStore B)
    → (get now k s).0 ≡ in_time now (lookup k s.data_)
unfolding get
get-lookup now k s = elim (Option-cases (lookup k s.data_)) [
  | inl e ↦ rw (e, get) refl
  | inr (x, e) ↦ elim (Bool-cases (is_expired now x.expires_at)) [
    | inl f ↦ rw (e, f, get) refl
    | inr f ↦ rw (e, f, get) refl
  ]
]

lookup-set :
    {B : Type 0} (now : ℕ) (k j : String) (v : B) (ttl : Option ℤ) (s : MemoryStore B)
    → lookup j (set now k v ttl s).data_ ≡ (
        if str_eq k j
        then some (record { value = v; expires_at = expiry now ttl })
        else lookup j (
            if leb s.max_entries (length s.data_) && not (has k s.data_)
            then evict_one s.data_
            else s.data_))
unfolding set
lookup-set now k j v ttl s = lookup-insert k j (record { value = v; expires_at = expiry now ttl }) _

-- No time to live, or one that is not positive.
abbrev pub NoLimit : Option ℤ → Type 0
NoLimit ttl = (ttl ≡ none) ⊎ ((t : ℤ) × (ttl ≡ some t) × (ltb_ℤ (pos 0) t ≡ false))

expiry-NoLimit : (now : ℕ) (ttl : Option ℤ) → NoLimit ttl → expiry now ttl ≡ none
unfolding expiry
expiry-NoLimit now ttl h = ground (arith, h)

-- A value that was put in with a time to live of n seconds, n being positive, is read back up to the
-- n-th second, and not after it; with none, or one that is not positive, it is read back for ever.
pub get-set :
    {B : Type 0} (now later : ℕ) (k : String) (v : B) (ttl : Option ℤ) (s : MemoryStore B)
    → ((n : ℕ)
        → ttl ≡ some (pos (suc n))
        → (later ≤ now + suc n → (get later k (set now k v ttl s)).0 ≡ some v)
          × (now + suc n < later → (get later k (set now k v ttl s)).0 ≡ none))
      × (NoLimit ttl → (get later k (set now k v ttl s)).0 ≡ some v)
unfolding expiry is_expired
get-set now later k v ttl s =
    let read : (get later k (set now k v ttl s)).0
        ≡ (if is_expired later (expiry now ttl) then none else some v) =
      get-lookup later k (set now k v ttl s) ∙ rw (lookup-set now k k v ttl s, eq_refl k) refl in
    (
      λ n e. ((λ h. read ∙ ground (arith, e, h)), λ h. read ∙ ground (arith, e, h)),
      λ h. read ∙ rw (expiry-NoLimit now ttl h) refl,
    )

-- Another key is not touched, as long as there is room for the new one.
pub get-set-other :
    {B : Type 0} (now later : ℕ) (k j : String) (v : B) (ttl : Option ℤ) (s : MemoryStore B)
    → str_eq k j ≡ false
    → (has k s.data_ ≡ true) ⊎ (length s.data_ < s.max_entries)
    → (get later j (set now k v ttl s)).0 ≡ (get later j s).0
get-set-other now later k j v ttl s h room =
    let kept : (leb s.max_entries (length s.data_) && not (has k s.data_)) ≡ false =
      ground (arith, room) in
    get-lookup later j (set now k v ttl s)
    ∙ rw (lookup-set now k j v ttl s, h, kept) (sym (get-lookup later j s))
