-- ===== src/Cache/Embedding/Refines.antt =====
-- The provider of backend/app/cache/cached_embedding.py answers as the one it wraps.
use text.Mathlib.TextLemmas.{append_cancel_left}
use enterprise_ai_agent.Prelude.{
  ◌≡◌, refl, ap, Bool, true, false, Option, none, some, List, [], ◌∷◌, map, String, List-cases,
  Option-cases, inl, inr, ◌∙◌,
}
use enterprise_ai_agent.Prelude.Int.{ℤ}
use enterprise_ai_agent.Prelude.TextDict.{TextDict}
use enterprise_ai_agent.Workflow.Node.{Value, str, int}
use enterprise_ai_agent.Cache.Store.{CacheStore}
use enterprise_ai_agent.Cache.Layers.{
  CacheStats, Codec, cache_key, CacheLayer, fetch, record_hit, record_miss, embedding_key, get_many,
  set_many,
}
use enterprise_ai_agent.Cache.Embedding.{missing_texts, present, fill, embed}

-- What is cached for some texts: for each of them nothing, or its vector.
data Partly {V : Type 0} (f : String → V) : List String → List (Option V) → Type 0 where
  no_text : Partly f [] []
  hit :
      {ts : List String} {cs : List (Option V)} (t : String)
      → Partly f ts cs
      → Partly f (t ∷ ts) (some (f t) ∷ cs)
  miss :
      {ts : List String} {cs : List (Option V)} (t : String)
      → Partly f ts cs
      → Partly f (t ∷ ts) (none ∷ cs)

-- The texts that are missing, and what filling their vectors in gives.
record Missing {V : Type 0} (f : String → V) (ts : List String) (cs : List (Option V))
    : Type 0 where
  missing : List String
  found : missing_texts ts cs ≡ some missing
  filled : fill cs (map f missing) ≡ some (map f ts)
  complete : missing ≡ [] → present cs ≡ map f ts

Partly-Missing :
    {V : Type 0} (f : String → V) (ts : List String) (cs : List (Option V))
    → Partly f ts cs
    → Missing f ts cs
unfolding missing_texts present fill
Partly-Missing f [] [] no_text = record {
  missing = [];
  found = refl;
  filled = refl;
  complete = λ e. refl;
}
Partly-Missing f [] (c ∷ cs) p = elim p [ ]
Partly-Missing f (t ∷ ts) [] p = elim p [ ]
Partly-Missing f (t ∷ ts) (some v ∷ cs) (hit _ p) =
    let m = Partly-Missing f ts cs p in
    record {
      missing = m.missing;
      found = m.found;
      filled = rw (m.filled, fill) refl;
      complete = λ e. ap (λ l. f t ∷ l) (m.complete e);
    }
Partly-Missing f (t ∷ ts) (none ∷ cs) (miss _ p) =
    let m = Partly-Missing f ts cs p in
    record {
      missing = t ∷ m.missing;
      found = rw (m.found, missing_texts) refl;
      filled = rw (m.filled, fill) refl;
      complete = λ e. cc;
    }

-- What the code relies on: the wrapped provider embeds each text by itself, JSON decodes what it
-- encoded, and the digests of two texts differ.
pub record Reliable {B V : Type 0} (digest : TextDict Value → String) (codec : Codec V B)
    (inner : List String → List V) (model : String) (dimension : ℤ) (f : String → V) : Type 0 where
  pub alone : (texts : List String) → inner texts ≡ map f texts
  pub decodes : (v : V) → codec.loads (codec.dumps v) ≡ v
  pub apart :
      (t u : String)
      → digest (("model", str model) ∷ ("dimension", int dimension) ∷ ("text", str t) ∷ [])
        ≡ digest (("model", str model) ∷ ("dimension", int dimension) ∷ ("text", str u) ∷ [])
      → t ≡ u

module _ {B V : Type 0} (store : CacheStore B) (digest : TextDict Value → String)
    (codec : Codec V B) (ttl : ℤ) (inner : List String → List V) (model : String) (dimension : ℤ)
    (f : String → V) (reliable : Reliable digest codec inner model dimension f) where
  -- What stands under the key of a text decodes to the vector of that text.
  abbrev pub Good : String → B → Type 0
  Good k b =
      (t : String)
      → k ≡ embedding_key store digest codec ttl model dimension t
      → codec.loads b ≡ f t

  embedding_key-inj :
      (t u : String)
      → embedding_key store digest codec ttl model dimension t
        ≡ embedding_key store digest codec ttl model dimension u
      → t ≡ u
  unfolding embedding_key cache_key
  embedding_key-inj t u e = reliable.apart t u (
      append_cancel_left ":" _ _
        (append_cancel_left "embedding" _ _ (append_cancel_left "model_cache:" _ _ e)))

  record Got (texts : List String) (r : List (Option V) × store.S × CacheStats) : Type 0 where
    holds : store.Holds Good r.1
    partly : Partly f texts r.0

  get_many-Got :
      (texts : List String) (s : store.S) (stats : CacheStats)
      → store.Holds Good s
      → Got texts (get_many store digest codec ttl model dimension texts s stats)
  unfolding get_many fetch
  get_many-Got [] s stats h = record { holds = h; partly = no_text }
  get_many-Got (t ∷ texts) s stats h =
      let k = embedding_key store digest codec ttl model dimension t in
      let kept = store.get-Holds Good k s h in
      elim (Option-cases (store.get k s).0) [
        | inl e ↦
            let rest =
              get_many-Got texts (store.get k s).1 (record_miss CacheLayer.embedding stats) kept in
            rw (e, fetch) (record { holds = rest.holds; partly = miss t rest.partly })
        | inr (b, e) ↦
            let rest =
              get_many-Got texts (store.get k s).1 (record_hit CacheLayer.embedding stats) kept in
            let decoded : codec.loads b ≡ f t = store.get-gives Good k s b h e t refl in
            rw (e, fetch, decoded) (record { holds = rest.holds; partly = hit t rest.partly })
      ]

  set_many-Holds :
      (texts : List String) (s : store.S) (stats : CacheStats)
      → store.Holds Good s
      → ((set_many store digest codec ttl model dimension texts (map f texts) s stats).0 ≡ false)
        × store.Holds Good
            (set_many store digest codec ttl model dimension texts (map f texts) s stats).1
  unfolding set_many
  set_many-Holds [] s stats h = (refl, h)
  set_many-Holds (t ∷ texts) s stats h = set_many-Holds texts _ _ (
      store.set-Holds Good _ _ (some ttl) s h
        (λ u e. reliable.decodes (f t) ∙ ap f (embedding_key-inj t u e)))

  -- Given that the wrapped provider embeds each text by itself, that decoding undoes encoding and that the
  -- digests of two texts differ: where the store holds only vectors of the wrapped provider, the provider gives the vectors that the
  -- wrapped one gives, whether the cache is enabled or not, whatever the store has kept or lost;
  -- and the store still holds only such vectors.
  pub embed-inner :
      (cache_enabled : Bool) (texts : List String) (s : store.S) (stats : CacheStats)
      → store.Holds Good s
      → ((embed store digest codec ttl inner model dimension cache_enabled texts s stats).0
          ≡ some (inner texts))
        × store.Holds Good
            (embed store digest codec ttl inner model dimension cache_enabled texts s stats).1
  unfolding embed
  embed-inner cache_enabled [] s stats h = (refl, h)
  embed-inner false (t ∷ texts) s stats h = (refl, h)
  embed-inner true (t ∷ texts) s stats h =
      let got = get_many-Got (t ∷ texts) s stats h in
      let m = Partly-Missing f (t ∷ texts) _ got.partly in
      elim (List-cases m.missing) [
        | inl e ↦
            rw (m.found, e, embed) (rw (m.complete e, reliable.alone (t ∷ texts)) refl, got.holds)
        | inr (x, more, e) ↦
            let (_, s', stats') =
              get_many store digest codec ttl model dimension (t ∷ texts) s stats in
            let (raises, holds) = set_many-Holds (x ∷ more) s' stats' got.holds in
            rw (m.found, e, embed, reliable.alone (x ∷ more), raises)
              (rw (reliable.alone (t ∷ texts)) (rw e at m.filled), holds)
      ]
