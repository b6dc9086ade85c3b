-- ===== src/Cache/Memory/Only.antt =====
-- `MemoryCacheStore` of backend/app/cache/memory.py as a `CacheStore`.
use enterprise_ai_agent.Prelude.{
  ℕ, suc, ◌≡◌, subst, leb, length, ◌&&◌, not, Option, some, [], ◌∷◌, String, arith, Bool-cases,
  Option-cases, inl, inr,
}
use enterprise_ai_agent.Prelude.Int.{ℤ}
use enterprise_ai_agent.Prelude.Text.{str_eq, eq_iff}
use enterprise_ai_agent.Prelude.TextDict.{
  TextDict, lookup, insert, erase, lookup-insert, lookup-erase,
}
use enterprise_ai_agent.Cache.Store.{CacheStore}
use enterprise_ai_agent.Cache.Memory.{
  Entry, MemoryStore, get, set, delete, clear, evict_one, has, is_expired,
}

module _ {B : Type 0} (P : String → B → Type 0) where
  abbrev pub Only : TextDict (Entry B) → Type 0
  Only d = (k : String) (e : Entry B) → lookup k d ≡ some e → P k e.value

  pub erase-Only : (k : String) (d : TextDict (Entry B)) → Only d → Only (erase k d)
  erase-Only k d h j e f = h j e (ground (arith, lookup-erase k j d, f))

  insert-Only :
      (k : String) (e : Entry B) (d : TextDict (Entry B))
      → P k e.value
      → Only d
      → Only (insert k e d)
  insert-Only k e d p h j x f = elim (Bool-cases (str_eq k j)) [
    | inl g ↦
        let same : k ≡ j = ground (arith, g, eq_iff k j) in
        let value : e ≡ x = cc (rw (lookup-insert k j e d, g) at f) in
        subst (λ y. P j y.value) value (subst (λ i. P i e.value) same p)
    | inr g ↦ h j x (ground (arith, lookup-insert k j e d, f))
  ]

  evict_one-Only : (d : TextDict (Entry B)) → Only d → Only (evict_one d)
  unfolding evict_one
  evict_one-Only [] h = h
  evict_one-Only ((k, e) ∷ d) h = erase-Only k ((k, e) ∷ d) h

  pub get-Only :
      (now : ℕ) (k : String) (s : MemoryStore B) → Only s.data_ → Only (get now k s).1.data_
  unfolding get
  get-Only now k s h = elim (Option-cases (lookup k s.data_)) [
    | inl e ↦ rw (e, get) h
    | inr (x, e) ↦ elim (Bool-cases (is_expired now x.expires_at)) [
      | inl f ↦ rw (e, f, get) (erase-Only k s.data_ h)
      | inr f ↦ rw (e, f, get) h
    ]
  ]

  pub get-gives-Only :
      (now : ℕ) (k : String) (s : MemoryStore B) (b : B)
      → Only s.data_
      → (get now k s).0 ≡ some b
      → P k b
  unfolding get
  get-gives-Only now k s b h g = elim (Option-cases (lookup k s.data_)) [
    | inl e ↦ cc (rw (e, get) at g)
    | inr (x, e) ↦ elim (Bool-cases (is_expired now x.expires_at)) [
      | inl f ↦ cc (rw (e, f, get) at g)
      | inr f ↦ let value : x.value ≡ b = cc (rw (e, f, get) at g) in subst (P k) value (h k x e)
    ]
  ]

  pub set-Only :
      (now : ℕ) (k : String) (v : B) (ttl : Option ℤ) (s : MemoryStore B)
      → Only s.data_
      → P k v
      → Only (set now k v ttl s).data_
  unfolding set
  set-Only now k v ttl s h p =
      elim (Bool-cases (leb s.max_entries (length s.data_) && not (has k s.data_))) [
        | inl e ↦ rw (e, set) (insert-Only k _ (evict_one s.data_) p (evict_one-Only s.data_ h))
        | inr e ↦ rw (e, set) (insert-Only k _ s.data_ p h)
      ]

  pub delete-Only : (k : String) (s : MemoryStore B) → Only s.data_ → Only (delete k s).1.data_
  unfolding delete
  delete-Only k s h = erase-Only k s.data_ h

  pub clear-Only : (s : MemoryStore B) → Only (clear s).1.data_
  unfolding clear lookup
  clear-Only s k e f = cc

-- The store, with the number of times that it has read the clock, which is arbitrary.
abbrev pub memory_store : (times : ℕ → ℕ) → (B : Type 0) → CacheStore B
memory_store times B = record {
  S = ℕ × MemoryStore B;
  get = λ k s. let (b, m) = get (times s.0) k s.1 in (b, (suc s.0, m));
  set = λ k v ttl s. (suc s.0, set (times s.0) k v ttl s.1);
  delete = λ k s. let (b, m) = delete k s.1 in (b, (s.0, m));
  clear = λ s. let (n, m) = clear s.1 in (n, (s.0, m));
  Holds = λ P s. Only P s.1.data_;
  get-Holds = λ P k s h. get-Only P (times s.0) k s.1 h;
  get-gives = λ P k s b h e. get-gives-Only P (times s.0) k s.1 b h e;
  set-Holds = λ P k b ttl s h p. set-Only P (times s.0) k b ttl s.1 h p;
  delete-Holds = λ P k s h. delete-Only P k s.1 h;
  clear-Holds = λ P s. clear-Only P s.1;
}
