-- ===== src/Cache/Embedding.antt =====
-- `CachedEmbeddingProvider` of backend/app/cache/cached_embedding.py.
--
-- `inner` is the provider that it wraps. `none` stands for an exception: of a strict zip, or of `next`.
pub mod Refines
use enterprise_ai_agent.Prelude.{
  Bool, true, false, Option, none, some, List, [], ◌∷◌, String, if◌then◌else◌,
}
use enterprise_ai_agent.Prelude.Int.{ℤ}
use enterprise_ai_agent.Prelude.TextDict.{TextDict}
use enterprise_ai_agent.Workflow.Node.{Value}
use enterprise_ai_agent.Cache.Store.{CacheStore}
use enterprise_ai_agent.Cache.Layers.{CacheStats, Codec, get_many, set_many}

-- `missing_texts`: those whose place in `cached` holds None.
unfoldable pub missing_texts : {V : Type 0} → List String → List (Option V) → Option (List String)
missing_texts [] [] = some []
missing_texts (text ∷ texts) (none ∷ cached) = elim (missing_texts texts cached) [
  | none ↦ none
  | some missing ↦ some (text ∷ missing)
]
missing_texts (text ∷ texts) (some v ∷ cached) = missing_texts texts cached
missing_texts _ _ = none

-- The vectors of `cached` that are not None.
unfoldable pub present : {V : Type 0} → List (Option V) → List V
present [] = []
present (none ∷ cached) = present cached
present (some v ∷ cached) = v ∷ present cached

-- The last loop: each None is filled by the next computed vector.
unfoldable pub fill : {V : Type 0} → List (Option V) → (computed : List V) → Option (List V)
fill [] computed = some []
fill (some v ∷ cached) computed = elim (fill cached computed) [
  | none ↦ none
  | some output ↦ some (v ∷ output)
]
fill (none ∷ cached) [] = none
fill (none ∷ cached) (v ∷ computed) = elim (fill cached computed) [
  | none ↦ none
  | some output ↦ some (v ∷ output)
]

module _ {B V : Type 0} (store : CacheStore B) (digest : TextDict Value → String)
    (codec : Codec V B) (ttl : ℤ) (inner : List String → List V) (model : String)
    (dimension : ℤ) where
  unfoldable pub embed :
      (cache_enabled : Bool)
      → List String
      → store.S
      → CacheStats
      → Option (List V) × store.S × CacheStats
  unfolding missing_texts present fill
  embed cache_enabled [] s stats = (some (inner []), s, stats)
  embed cache_enabled (text ∷ texts) s stats =
      let (cached, s', stats') =
        get_many store digest codec ttl model dimension (text ∷ texts) s stats in
      if cache_enabled
      then elim (missing_texts (text ∷ texts) cached) [
        | none ↦ (none, s', stats')
        | some missing ↦ elim missing [
          | [] ↦ (some (present cached), s', stats')
          | m ∷ more ↦
              let computed = inner (m ∷ more) in
              let (raises, s'', stats'') =
                set_many store digest codec ttl model dimension (m ∷ more) computed s' stats' in
              if raises then (none, s'', stats'') else (fill cached computed, s'', stats'')
        ]
      ]
      else (some (inner (text ∷ texts)), s, stats)
