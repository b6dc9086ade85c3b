-- ===== src/Cache/Memory/Bound.antt =====
-- The size of the store of backend/app/cache/memory.py.
use enterprise_ai_agent.Prelude.{
  ℕ, suc, ◌≤◌, max, leb, ◌≡◌, true, Option, List, [], ◌∷◌, String, length, arith, Bool-cases,
  Option-cases, inl, inr,
}
use enterprise_ai_agent.Prelude.Int.{ℤ}
use enterprise_ai_agent.Prelude.Text.{eq_refl}
use enterprise_ai_agent.Prelude.TextDict.{TextDict, lookup, insert, erase}
use enterprise_ai_agent.Cache.Memory.{
  Entry, MemoryStore, get, set, delete, clear, evict_one, has, is_expired, expiry,
}

length-erase {ℓ} : {V : Type ℓ} (k : String) (d : TextDict V) → length (erase k d) ≤ length d
unfolding erase
length-erase k [] = omega arith
length-erase k ((j, v) ∷ d) = ground (arith, length-erase k d)

length-insert {ℓ} :
    {V : Type ℓ} (k : String) (v : V) (d : TextDict V) → length (insert k v d) ≤ suc (length d)
unfolding insert
length-insert k v [] = omega arith
length-insert k v ((j, w) ∷ d) = ground (arith, length-insert k v d)

length-insert-known :
    {B : Type 0} (k : String) (v : Entry B) (d : TextDict (Entry B))
    → has k d ≡ true
    → length (insert k v d) ≡ length d
unfolding insert has lookup
length-insert-known k v [] h = cc
length-insert-known k v ((j, w) ∷ d) h = ground (arith, length-insert-known k v d)

length-evict_one :
    {B : Type 0} (d : TextDict (Entry B)) → suc (length (evict_one d)) ≤ max 1 (length d)
unfolding evict_one erase
length-evict_one [] = omega arith
length-evict_one ((k, e) ∷ d) = rw (eq_refl k, evict_one, erase) (omega (arith, length-erase k d))

-- The operations, with the time at which they run.
pub data Operation (B : Type 0) : Type 0 where
  get_at : ℕ → String → Operation B
  set_at : ℕ → String → B → Option ℤ → Operation B
  delete_it : String → Operation B
  clear_it : Operation B

unfoldable pub run : {B : Type 0} → List (Operation B) → MemoryStore B → MemoryStore B
unfolding get set delete clear
run [] s = s
run (get_at now k ∷ rest) s = run rest (get now k s).1
run (set_at now k v ttl ∷ rest) s = run rest (set now k v ttl s)
run (delete_it k ∷ rest) s = run rest (delete k s).1
run (clear_it ∷ rest) s = run rest (clear s).1

abbrev pub Bounded : {B : Type 0} → ℕ → MemoryStore B → Type 0
Bounded n s = (s.max_entries ≡ n) × (length s.data_ ≤ max 1 n)

get-Bounded :
    {B : Type 0} (n now : ℕ) (k : String) (s : MemoryStore B)
    → Bounded n s
    → Bounded n (get now k s).1
unfolding get
get-Bounded n now k s h = elim (Option-cases (lookup k s.data_)) [
  | inl e ↦ rw (e, get) h
  | inr (x, e) ↦ elim (Bool-cases (is_expired now x.expires_at)) [
    | inl f ↦ rw (e, f, get) (h.0, omega (arith, h.1, length-erase k s.data_))
    | inr f ↦ rw (e, f, get) h
  ]
]

set-Bounded :
    {B : Type 0} (n now : ℕ) (k : String) (v : B) (ttl : Option ℤ) (s : MemoryStore B)
    → Bounded n s
    → Bounded n (set now k v ttl s)
unfolding set
set-Bounded n now k v ttl s h =
    let e : Entry _ = record { value = v; expires_at = expiry now ttl } in
    elim (Bool-cases (has k s.data_)) [
      | inl f ↦ rw (f, set) (ground (arith, h, length-insert-known k e s.data_ f))
      | inr f ↦ elim (Bool-cases (leb s.max_entries (length s.data_))) [
        | inl g ↦
            rw (f, g, set)
              (
                h.0,
                omega (arith, h.1, length-insert k e (evict_one s.data_), length-evict_one s.data_),
              )
        | inr g ↦ rw (f, g, set) (h.0, ground (arith, h.0, length-insert k e s.data_))
      ]
    ]

-- Whatever operations follow each other, at whatever times, the store keeps at most `max_entries`
-- entries, or one if that is 0, where it held no more before them.
pub run-Bounded :
    {B : Type 0} (n : ℕ) (ops : List (Operation B)) (s : MemoryStore B)
    → Bounded n s
    → Bounded n (run ops s)
unfolding run delete clear
run-Bounded n [] s h = h
run-Bounded n (get_at now k ∷ ops) s h = run-Bounded n ops (get now k s).1 (get-Bounded n now k s h)
run-Bounded n (set_at now k v ttl ∷ ops) s h =
    run-Bounded n ops (set now k v ttl s) (set-Bounded n now k v ttl s h)
run-Bounded n (delete_it k ∷ ops) s h =
    run-Bounded n ops (delete k s).1 (h.0, omega (arith, h.1, length-erase k s.data_))
run-Bounded n (clear_it ∷ ops) s h = run-Bounded n ops (clear s).1 (h.0, omega arith)
