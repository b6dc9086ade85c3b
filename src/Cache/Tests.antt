-- ===== src/Cache/Tests.antt =====
-- Runs of the store and of the embedding provider of backend/app/cache.
use Prim.Native.String.{◌++◌ as str_append}
use enterprise_ai_agent.Prelude.{
  ℕ, suc, ◌+◌, ◌≤◌, ◌<◌, ◌≡◌, refl, true, none, some, List, [], ◌∷◌, map, String, length, arith,
}
use enterprise_ai_agent.Prelude.Int.{pos}
use enterprise_ai_agent.Prelude.TextDict.{TextDict, lookup}
use enterprise_ai_agent.Workflow.Node.{Value, str}
use enterprise_ai_agent.Cache.Store.{CacheStore}
use enterprise_ai_agent.Cache.Memory.{MemoryStore, get, set}
use enterprise_ai_agent.Cache.Memory.Bound.{Operation, set_at, get_at, Bounded, run, run-Bounded}
use enterprise_ai_agent.Cache.Memory.Expiry.{NoLimit, get-set}
use enterprise_ai_agent.Cache.Memory.Only.{memory_store}
use enterprise_ai_agent.Cache.Layers.{CacheLayer, Codec, get_many, layer_of}
use enterprise_ai_agent.Cache.Layers.Counts.{count_found, get_many-counts}
use enterprise_ai_agent.Cache.Embedding.{embed}
use enterprise_ai_agent.Cache.Embedding.Refines.{Reliable, Good, embed-inner}

abbrev empty_store : MemoryStore String
empty_store = record { data_ = []; max_entries = 2 }

abbrev operations : List (Operation String)
operations =
    set_at 0 "a" "1" none
    ∷ set_at 1 "b" "2" (some (pos 5))
    ∷ set_at 2 "c" "3" none
    ∷ get_at 9 "b"
    ∷ []

run-Bounded_example : Bounded 2 (run operations empty_store)
run-Bounded_example = run-Bounded 2 operations empty_store (refl, omega arith)

get-set_example :
    ((n : ℕ)
      → some (pos 5) ≡ some (pos (suc n))
      → (6 ≤ 0 + suc n → (get 6 "a" (set 0 "a" "1" (some (pos 5)) empty_store)).0 ≡ some "1")
        × (0 + suc n < 6 → (get 6 "a" (set 0 "a" "1" (some (pos 5)) empty_store)).0 ≡ none))
    × (NoLimit (some (pos 5)) → (get 6 "a" (set 0 "a" "1" (some (pos 5)) empty_store)).0 ≡ some "1")
get-set_example = get-set 0 6 "a" "1" (some (pos 5)) empty_store

expired : (get 6 "a" (set 0 "a" "1" (some (pos 5)) empty_store)).0 ≡ none
expired = ((get-set 0 6 "a" "1" (some (pos 5)) empty_store).0 4 refl).1 (omega arith)

-- The digest here is the text of the body, and a vector is a text.
abbrev digest : TextDict Value → String
digest body = elim (lookup "text" body) [ none ↦ "" | some v ↦ elim v [ str t ↦ t | _ ↦ "" ] ]

abbrev codec : Codec String String
codec = record { dumps = λ v. v; loads = λ b. b }

abbrev vector_of : String → String
vector_of t = str_append "v" t

abbrev inner : List String → List String
inner texts = map vector_of texts

inner-Reliable : Reliable digest codec inner "m" (pos 3) vector_of
unfolding lookup
inner-Reliable = record { alone = λ texts. refl; decodes = λ v. refl; apart = λ t u e. e }

abbrev clock : ℕ → ℕ
clock n = n

abbrev store : CacheStore String
store = memory_store clock String

abbrev texts : List String
texts = "a" ∷ "b" ∷ "a" ∷ []

nothing-Good :
    store.Holds
      (Good store digest codec (pos 60) inner "m" (pos 3) vector_of inner-Reliable)
      (0, empty_store)
unfolding lookup
nothing-Good = λ k e f. cc

embed-inner_example :
    ((embed store digest codec (pos 60) inner "m" (pos 3) true texts (0, empty_store) []).0
      ≡ some (inner texts))
    × store.Holds
        (Good store digest codec (pos 60) inner "m" (pos 3) vector_of inner-Reliable)
        (embed store digest codec (pos 60) inner "m" (pos 3) true texts (0, empty_store) []).1
embed-inner_example =
    embed-inner store digest codec (pos 60) inner "m" (pos 3) vector_of inner-Reliable true texts
      (0, empty_store) [] nothing-Good

get_many-counts_example :
    ((layer_of CacheLayer.embedding
        (get_many store digest codec (pos 60) "m" (pos 3) texts (0, empty_store) []).2).hits
      ≡ (layer_of CacheLayer.embedding []).hits
        + count_found
            (get_many store digest codec (pos 60) "m" (pos 3) texts (0, empty_store) []).0)
    × ((layer_of CacheLayer.embedding
            (get_many store digest codec (pos 60) "m" (pos 3) texts (0, empty_store) []).2).hits
          + (layer_of CacheLayer.embedding
              (get_many store digest codec (pos 60) "m" (pos 3) texts (0, empty_store) []).2).misses
        ≡ (layer_of CacheLayer.embedding []).hits
          + (layer_of CacheLayer.embedding []).misses
          + length texts)
get_many-counts_example =
    get_many-counts store digest codec (pos 60) "m" (pos 3) texts (0, empty_store) []
