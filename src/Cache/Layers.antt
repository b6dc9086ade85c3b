-- ===== src/Cache/Layers.antt =====
-- `PromptCache`, `EmbeddingCache` and `ResponseCache` of backend/app/cache/layers.py, with the keys of
-- keys.py and the counters of stats.py.
--
-- `digest` stands for SHA-256 over the sorted JSON rendering of a body; `dumps` and `loads` for the
-- JSON encoding in UTF-8 and its inverse; `dump_messages` for `model_dump` of each message.
pub mod Counts
use Prim.Native.String.{◌++◌ as str_append}
use enterprise_ai_agent.Prelude.{
  ℕ, suc, ◌+◌, Bool, true, false, Option, none, some, List, [], ◌∷◌, String, if◌then◌else◌,
}
use enterprise_ai_agent.Prelude.Int.{ℤ, pos}
use enterprise_ai_agent.Prelude.TextDict.{TextDict, lookup, insert}
use enterprise_ai_agent.Workflow.Node.{Value, str, int}
use enterprise_ai_agent.Agents.Types.{Message, ChatResult, ToolCall}
use enterprise_ai_agent.Cache.Store.{CacheStore}

pub data CacheLayer : Type 0 where
  prompt embedding response : CacheLayer

unfoldable pub layer_value : CacheLayer → String
layer_value prompt = "prompt"
layer_value embedding = "embedding"
layer_value response = "response"

pub record LayerStats : Type 0 where
  pub hits : ℕ
  pub misses : ℕ
  pub sets : ℕ
  pub evictions : ℕ

abbrev pub CacheStats : Type 0
CacheStats = TextDict LayerStats

abbrev pub no_stats : LayerStats
no_stats = record { hits = 0; misses = 0; sets = 0; evictions = 0 }

-- `CacheStatsSnapshot.layer`
unfoldable pub layer_of : CacheLayer → CacheStats → LayerStats
unfolding layer_value
layer_of layer stats = elim (lookup (layer_value layer) stats) [ none ↦ no_stats | some l ↦ l ]

unfoldable pub record_hit : CacheLayer → CacheStats → CacheStats
unfolding layer_of layer_value
record_hit layer stats =
    let l = layer_of layer stats in
    insert (layer_value layer) (record l { hits = suc l.hits }) stats

unfoldable pub record_miss : CacheLayer → CacheStats → CacheStats
unfolding layer_of layer_value
record_miss layer stats =
    let l = layer_of layer stats in
    insert (layer_value layer) (record l { misses = suc l.misses }) stats

unfoldable pub record_set : CacheLayer → CacheStats → CacheStats
unfolding layer_of layer_value
record_set layer stats =
    let l = layer_of layer stats in
    insert (layer_value layer) (record l { sets = suc l.sets }) stats

unfoldable pub record_eviction : CacheLayer → ℕ → CacheStats → CacheStats
unfolding layer_of layer_value
record_eviction layer count stats =
    let l = layer_of layer stats in
    insert (layer_value layer) (record l { evictions = l.evictions + count }) stats

-- `reset_cache_stats`, without the label of the backend.
unfoldable pub reset_cache_stats : CacheStats → CacheStats
reset_cache_stats stats = []

unfoldable pub cache_key : (digest : TextDict Value → String) → String → TextDict Value → String
cache_key digest namespace payload =
    str_append "model_cache:" (str_append namespace (str_append ":" (digest payload)))

-- What a JSON codec offers for one type.
pub record Codec (A B : Type 0) : Type 0 where
  pub dumps : A → B
  pub loads : B → A

module _ {B : Type 0} (store : CacheStore B) (digest : TextDict Value → String) where
  -- A read of the store by one of the layers, which counts it.
  unfoldable pub fetch :
      CacheLayer → String → store.S → CacheStats → Option B × store.S × CacheStats
  unfolding record_hit record_miss
  fetch layer key s stats =
      let (raw, s') = store.get key s in
      elim raw [
        | none ↦ (none, s', record_miss layer stats)
        | some b ↦ (some b, s', record_hit layer stats)
      ]

  -- `_make_key` of the prompt and of the response cache.
  unfoldable pub conversation_key :
      (dump_messages : List Message → Value) → CacheLayer → (model : String) → List Message → String
  unfolding cache_key layer_value
  conversation_key dump_messages layer model messages =
      cache_key digest (layer_value layer)
        (("model", str model) ∷ ("messages", dump_messages messages) ∷ [])

  module _ {A : Type 0} (codec : Codec A B) (ttl : ℤ) where
    -- `PromptCache.get` and `set`
    unfoldable pub prompt_get :
        (List Message → Value)
        → String
        → List Message
        → store.S
        → CacheStats
        → Option A × store.S × CacheStats
    unfolding fetch conversation_key
    prompt_get dump_messages model messages s stats =
        let (raw, s', stats') =
          fetch CacheLayer.prompt (conversation_key dump_messages CacheLayer.prompt model messages)
            s stats in
        (elim raw [ none ↦ none | some b ↦ some (codec.loads b) ], s', stats')

    unfoldable pub prompt_set :
        (List Message → Value)
        → String
        → List Message
        → A
        → store.S
        → CacheStats
        → store.S × CacheStats
    unfolding conversation_key record_set
    prompt_set dump_messages model messages payload s stats = (
      store.set (conversation_key dump_messages CacheLayer.prompt model messages)
          (codec.dumps payload) (some ttl) s,
      record_set CacheLayer.prompt stats,
    )

    -- `EmbeddingCache._make_key`
    unfoldable pub embedding_key : (model : String) → (dimension : ℤ) → (text : String) → String
    unfolding cache_key
    embedding_key model dimension text =
        cache_key digest "embedding"
          (("model", str model) ∷ ("dimension", int dimension) ∷ ("text", str text) ∷ [])

    -- `EmbeddingCache.get_many`
    unfoldable pub get_many :
        (model : String)
        → (dimension : ℤ) → List String
        → store.S
        → CacheStats
        → List (Option A) × store.S × CacheStats
    unfolding fetch embedding_key
    get_many model dimension [] s stats = ([], s, stats)
    get_many model dimension (text ∷ texts) s stats =
        let (raw, s', stats') =
          fetch CacheLayer.embedding (embedding_key model dimension text) s stats in
        let (results, s'', stats'') = get_many model dimension texts s' stats' in
        (elim raw [ none ↦ none | some b ↦ some (codec.loads b) ] ∷ results, s'', stats'')

    -- `EmbeddingCache.set_many`, whose zip is strict: the first answer says whether it raises.
    unfoldable pub set_many :
        (model : String)
        → (dimension : ℤ) → List String
        → List A
        → store.S
        → CacheStats
        → Bool × store.S × CacheStats
    unfolding embedding_key record_set
    set_many model dimension [] [] s stats = (false, s, stats)
    set_many model dimension (text ∷ texts) (v ∷ vectors) s stats =
        set_many model dimension texts vectors
          (store.set (embedding_key model dimension text) (codec.dumps v) (some ttl) s)
          (record_set CacheLayer.embedding stats)
    set_many model dimension _ _ s stats = (true, s, stats)

  module _ (codec : Codec ChatResult B) (ttl : ℤ) (dump_messages : List Message → Value) where
    -- `ResponseCache.get` and `set`
    unfoldable pub response_get :
        String
        → List Message
        → (use_tools : Bool) → store.S
        → CacheStats
        → Option ChatResult × store.S × CacheStats
    unfolding fetch conversation_key record_miss
    response_get model messages use_tools s stats =
        let (raw, s', stats') =
          fetch CacheLayer.response
            (conversation_key dump_messages CacheLayer.response model messages) s stats in
        if use_tools
        then (none, s, record_miss CacheLayer.response stats)
        else (elim raw [ none ↦ none | some b ↦ some (codec.loads b) ], s', stats')

    unfoldable pub response_set :
        String → List Message → ChatResult → store.S → CacheStats → store.S × CacheStats
    unfolding conversation_key record_set
    response_set model messages result s stats = elim result.tool_calls [
      | [] ↦ (
        store.set (conversation_key dump_messages CacheLayer.response model messages)
            (codec.dumps result) (some ttl) s,
        record_set CacheLayer.response stats,
      )
      | call ∷ calls ↦ (s, stats)
    ]
