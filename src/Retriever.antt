-- ===== src/Retriever.antt =====
-- packages/rag/src/rag/retrieval: `HybridRetriever` and `Reranker`. The vector store, the embedder
-- and the cross encoder are the services of a record.
pub mod Fusion
pub mod Filters
pub mod Scope
pub mod Quotes
mod Examples
use stock_analyst.Shared.{
  ℕ, ◌+◌, ◌*◌, Text, codes, List, [], ◌∷◌, ◌++◌, map, Bool, ◌||◌, Option, none, some, ltb, take,
  length, is_empty, same_text, if◌then◌else◌, Raises, ok, raised, Error, ◌>>=◌, sort_desc,
}
use mathlib.Core.List.{zip}

-- A value of a payload; `other` stands for what is neither a text nor `None`. The keys that the
-- retriever reads, `content` and `parent_chunk_id`, hold texts or `None`.
pub data Value : Type 0 where
  text : Text → Value
  null other : Value

abbrev pub Payload : Type 0
Payload = List (Text × Value)

-- `payload.get(key)`
abbrev pub get : Text → Payload → Value
get key [] = null
get key ((k, v) ∷ rest) = let later = get key rest in if same_text k key then v else later

abbrev pub text_or_empty : Value → Text
text_or_empty (text t) = t
text_or_empty _ = []

-- A condition of a filter: `match.value` or `match.any`.
pub record Condition : Type 0 where
  pub key : Text
  pub values : List Text

abbrev pub Filter : Type 0
Filter = List Condition

-- `_build_filter`; what a caller adds is the `must` list of its filter.
unfoldable pub build_filter : Text → Text → Filter → Filter
build_filter tenant_id coverage_id more =
    record { key = codes "tenant_id"; values = tenant_id ∷ [] }
    ∷ record { key = codes "coverage_id"; values = coverage_id ∷ [] }
    ∷ record { key = codes "chunk_type"; values = codes "child" ∷ codes "table" ∷ [] }
    ∷ more

-- A sum of reciprocals. Two different sums of this code differ by far more than the rounding of
-- doubles, and equal ones add the same two terms.
pub record Fraction : Type 0 where
  pub num : ℕ
  pub den : ℕ

abbrev pub add_reciprocal : Fraction → ℕ → Fraction
add_reciprocal f n = record { num = f.num * n + f.den; den = f.den * n }

abbrev pub zero_score : Fraction
zero_score = record { num = 0; den = 1 }

abbrev pub is_lower : Fraction → Fraction → Bool
is_lower a b = ltb (a.num * b.den) (b.num * a.den)

abbrev pub rrf_k : ℕ
rrf_k = 60

module _ (Score : Type 0) where
  pub record Point : Type 0 where
    pub id : Text
    pub score : Option Score
    pub payload : Option Payload

  -- `point.payload or {}`
  abbrev pub payload_of : Point → Payload
  payload_of p = elim p.payload [ none ↦ [] | some m ↦ m ]

  -- What the retriever calls: the connector's searches and its lookup of a point by identifier, the
  -- embedder, and the scores of the cross encoder; any of them may raise.
  pub record Services : Type 1 where
    pub Vector : Type 0
    pub Weight : Type 0
    pub less : Score → Score → Bool
    pub prefix : Text
    pub embed_single : Text → Raises Vector
    pub compute_bm25_sparse : Text → List (ℕ × Weight)
    pub search_dense : Text → Vector → Filter → ℕ → Raises (List Point)
    pub search_sparse : Text → List (ℕ × Weight) → Filter → ℕ → Raises (List Point)
    pub get_point : Text → Text → Raises (Option (Option Payload))
    pub predict : Text → List Text → Raises (List Score)

-- A fused candidate, and the row of the two dictionaries that it comes from.
pub record Candidate : Type 0 where
  pub chunk_id : Text
  pub metadata : Payload
  pub rrf_score : Fraction

abbrev pub content_of : Payload → Text
content_of m = text_or_empty (get (codes "content") m)

-- One round of the loop of the fusion: `rank` counts from 1.
unfoldable pub add_hit : Text → Payload → ℕ → List Candidate → List Candidate
add_hit id payload rank [] =
    record {
      chunk_id = id;
      metadata = payload;
      rrf_score = add_reciprocal zero_score (rrf_k + rank);
    }
    ∷ []
add_hit id payload rank (c ∷ cs) =
    let rest = add_hit id payload rank cs in
    if same_text c.chunk_id id
    then record c { rrf_score = add_reciprocal c.rrf_score (rrf_k + rank) } ∷ cs
    else c ∷ rest

unfoldable pub add_hits :
    {Score : Type 0} → ℕ → List (Point Score) → List Candidate → List Candidate
add_hits rank [] cs = cs
add_hits {Score} rank (p ∷ ps) cs =
    add_hits (rank + 1) ps (add_hit p.id (payload_of Score p) rank cs)

abbrev pub has_lower_score : Candidate → Candidate → Bool
has_lower_score a b = is_lower a.rrf_score b.rrf_score

-- `_reciprocal_rank_fusion`
unfoldable pub reciprocal_rank_fusion :
    {Score : Type 0} → List (Point Score) → List (Point Score) → List Candidate
reciprocal_rank_fusion dense sparse =
    sort_desc has_lower_score (add_hits 1 sparse (add_hits 1 dense []))

-- `_require_tenant_scope`
unfoldable pub require_tenant_scope : Text → Text → Raises (Unit {0})
require_tenant_scope tenant_id coverage_id =
    if is_empty tenant_id || is_empty coverage_id then raised Error.value_error else ok tt

module _ {Score : Type 0} (s : Services Score) where
  pub record RetrievedChunk : Type 0 where
    pub chunk_id : Text
    pub content : Text
    pub metadata : Payload
    pub score : Score
    pub parent_content : Value
    pub parent_chunk_id : Value

  -- `collection_name` of the embedding pipeline
  abbrev pub collection_name : Text → Text
  collection_name tenant_id = s.prefix ++ (codes "_" ++ tenant_id)

  -- `Reranker.rerank`
  unfoldable pub rerank : Text → List Candidate → ℕ → Raises (List (Candidate × Score))
  rerank query [] top_n = ok []
  rerank query (c ∷ cs) top_n = do
    scores ← s.predict query (map (λ x. content_of x.metadata) (c ∷ cs))
    ok (take top_n (sort_desc (λ a b. s.less a.1 b.1) (zip (c ∷ cs) scores)))

  -- `parent_record.payload.get("content")`, where there is a record with a payload.
  abbrev pub text_of_record : Option (Option Payload) → Value
  text_of_record (some (some (kv ∷ payload))) = get (codes "content") (kv ∷ payload)
  text_of_record _ = null

  -- The text of the parent, where the chunk names one and the store has it with a payload.
  unfoldable pub parent_text : Text → Value → Raises Value
  parent_text collection (text (a ∷ id)) =
      s.get_point collection (a ∷ id) >>= λ found. ok (text_of_record found)
  parent_text collection _ = ok null

  -- `_hydrate_parents`
  unfoldable pub hydrate_parents : Text → List (Candidate × Score) → Raises (List RetrievedChunk)
  hydrate_parents collection [] = ok []
  hydrate_parents collection ((c, score) ∷ rest) = do
    let parent_id = get (codes "parent_chunk_id") c.metadata
    parent ← parent_text collection parent_id
    others ← hydrate_parents collection rest
    ok (
        record {
          chunk_id = c.chunk_id;
          content = content_of c.metadata;
          metadata = c.metadata;
          score = score;
          parent_content = parent;
          parent_chunk_id = parent_id;
        }
        ∷ others)

  unfoldable pub retrieve : Text → Text → Text → ℕ → ℕ → Filter → Raises (List RetrievedChunk)
  retrieve query tenant_id coverage_id top_k rerank_top_n filters = do
    _ ← require_tenant_scope tenant_id coverage_id
    let collection = collection_name tenant_id
    let base_filter = build_filter tenant_id coverage_id filters
    vector ← s.embed_single query
    dense ← s.search_dense collection vector base_filter top_k
    sparse ← s.search_sparse collection (s.compute_bm25_sparse query) base_filter top_k
    reranked ← rerank query (reciprocal_rank_fusion dense sparse) rerank_top_n
    hydrate_parents collection reranked

  -- The first hit, if its score is not under the threshold.
  unfoldable pub accept_top : Score → List (Point Score) → Option RetrievedChunk
  accept_top threshold [] = none
  accept_top threshold (top ∷ _) = elim top.score [
    | none ↦ none
    | some score ↦
        if s.less score threshold
        then none
        else some (record {
          chunk_id = top.id;
          content = content_of (payload_of Score top);
          metadata = payload_of Score top;
          score = score;
          parent_content = null;
          parent_chunk_id = get (codes "parent_chunk_id") (payload_of Score top);
        })
  ]

  unfoldable pub retrieve_exact_quote : Score → Text → Text → Text → Raises (Option RetrievedChunk)
  retrieve_exact_quote threshold quote tenant_id coverage_id = do
    _ ← require_tenant_scope tenant_id coverage_id
    let vector = s.compute_bm25_sparse quote
    if is_empty vector
        then ok none
        else (s.search_sparse (collection_name tenant_id) vector
              (build_filter tenant_id coverage_id []) 1
            >>= λ hits. ok (accept_top threshold hits))

  unfoldable pub retrieve_semantic_quote :
      Score → Text → Text → Text → Raises (Option RetrievedChunk)
  retrieve_semantic_quote min_score quote tenant_id coverage_id = do
    _ ← require_tenant_scope tenant_id coverage_id
    vector ← s.embed_single quote
    hits ←
        s.search_dense (collection_name tenant_id) vector (build_filter tenant_id coverage_id []) 1
    ok (accept_top min_score hits)
