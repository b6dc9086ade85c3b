-- ===== src/Cache/Layers/Counts.antt =====
-- What the layers of backend/app/cache/layers.py count.
use enterprise_ai_agent.Prelude.{
  ℕ, suc, ◌+◌, ◌≡◌, refl, Option, none, some, List, [], ◌∷◌, String, arith, Option-cases, inl, inr,
  length,
}
use enterprise_ai_agent.Prelude.Int.{ℤ}
use enterprise_ai_agent.Prelude.Text.{eq_refl}
use enterprise_ai_agent.Prelude.TextDict.{TextDict, insert, lookup-insert}
use enterprise_ai_agent.Workflow.Node.{Value}
use enterprise_ai_agent.Cache.Store.{CacheStore}
use enterprise_ai_agent.Cache.Layers.{
  CacheLayer, CacheStats, LayerStats, Codec, layer_value, layer_of, record_hit, record_miss, fetch,
  embedding_key, get_many,
}

-- How many of the results are there.
unfoldable pub count_found : {V : Type 0} → List (Option V) → ℕ
count_found [] = 0
count_found (none ∷ results) = count_found results
count_found (some v ∷ results) = suc (count_found results)

layer_of-insert :
    (layer : CacheLayer) (l : LayerStats) (stats : CacheStats)
    → layer_of layer (insert (layer_value layer) l stats) ≡ l
unfolding layer_of
layer_of-insert layer l stats =
    rw
      (
        layer_of,
        lookup-insert (layer_value layer) (layer_value layer) l stats,
        eq_refl (layer_value layer),
      )
      refl

layer_of-record_hit :
    (layer : CacheLayer) (stats : CacheStats)
    → layer_of layer (record_hit layer stats)
      ≡ record (layer_of layer stats) { hits = suc (layer_of layer stats).hits }
unfolding record_hit
layer_of-record_hit layer stats = layer_of-insert layer _ stats

layer_of-record_miss :
    (layer : CacheLayer) (stats : CacheStats)
    → layer_of layer (record_miss layer stats)
      ≡ record (layer_of layer stats) { misses = suc (layer_of layer stats).misses }
unfolding record_miss
layer_of-record_miss layer stats = layer_of-insert layer _ stats

module _ {B V : Type 0} (store : CacheStore B) (digest : TextDict Value → String)
    (codec : Codec V B) (ttl : ℤ) (model : String) (dimension : ℤ) where
  -- A read of many texts counts one lookup for each of them: the hits grow by the number of vectors
  -- found, and hits and misses together by the number of texts.
  pub get_many-counts :
      (texts : List String) (s : store.S) (stats : CacheStats)
      → ((layer_of CacheLayer.embedding
            (get_many store digest codec ttl model dimension texts s stats).2).hits
          ≡ (layer_of CacheLayer.embedding stats).hits
            + count_found (get_many store digest codec ttl model dimension texts s stats).0)
        × ((layer_of CacheLayer.embedding
                (get_many store digest codec ttl model dimension texts s stats).2).hits
              + (layer_of CacheLayer.embedding
                  (get_many store digest codec ttl model dimension texts s stats).2).misses
            ≡ (layer_of CacheLayer.embedding stats).hits
              + (layer_of CacheLayer.embedding stats).misses
              + length texts)
  unfolding get_many fetch count_found
  get_many-counts [] s stats = (omega arith, omega arith)
  get_many-counts (t ∷ texts) s stats =
      let k = embedding_key store digest codec ttl model dimension t in
      elim (Option-cases (store.get k s).0) [
        | inl e ↦
            let rest =
              get_many-counts texts (store.get k s).1 (record_miss CacheLayer.embedding stats) in
            let l = layer_of-record_miss CacheLayer.embedding stats in
            rw (e, fetch) (ground (arith, rest.0, l), ground (arith, rest.1, l))
        | inr (b, e) ↦
            let rest =
              get_many-counts texts (store.get k s).1 (record_hit CacheLayer.embedding stats) in
            let l = layer_of-record_hit CacheLayer.embedding stats in
            rw (e, fetch) (ground (arith, rest.0, l), ground (arith, rest.1, l))
      ]
