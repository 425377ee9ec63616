-- ===== src/Retriever/Scope.antt =====
-- The tenant and the coverage in `retrieve` of hybrid_retriever.py.
use stock_analyst.Shared.{
  ℕ, zero, suc, ◌≤◌, Text, codes, List, [], ◌∷◌, map, true, false, ◌||◌, Option, ◌≡◌, refl, ◌∙◌,
  All, arith, All-weaken, take, length, length-take, is_empty, Raises, ok, raised, Error, >>=-ok,
  sort_desc, All-sort_desc,
}
use mathlib.Core.List.{zip}
use stock_analyst.Retriever.{
  Value, text, null, Payload, get, Filter, build_filter, Point, payload_of, Services, Candidate,
  content_of, has_lower_score, reciprocal_rank_fusion, require_tenant_scope, RetrievedChunk,
  collection_name, rerank, text_of_record, parent_text, hydrate_parents, retrieve,
  retrieve_exact_quote, retrieve_semantic_quote,
}
use stock_analyst.Retriever.Filters.{IsInScope, IsInCoverage, build_filter-IsInCoverage}
use stock_analyst.Retriever.Fusion.{All-add_hits}

abbrev RowIsInScope : Filter → Text → Payload → Type 0
RowIsInScope f id m = IsInScope f m

fusion-IsInScope :
    {Score : Type 0} (f : Filter) (dense sparse : List (Point Score))
    → All (λ p. IsInScope f (payload_of Score p)) dense
    → All (λ p. IsInScope f (payload_of Score p)) sparse
    → All (λ c. IsInScope f c.metadata) (reciprocal_rank_fusion dense sparse)
unfolding reciprocal_rank_fusion
fusion-IsInScope f dense sparse hd hs =
    All-sort_desc has_lower_score _ _
      (All-add_hits (RowIsInScope f) 1 sparse _ hs (All-add_hits (RowIsInScope f) 1 dense [] hd tt))

All-zip {ℓ κ} :
    {A : Type ℓ} {B : Type κ} (P : A → Type 0) (xs : List A) (ys : List B)
    → All P xs
    → All (λ p. P p.0) (zip xs ys)
unfolding zip
All-zip P [] ys h = tt
All-zip P (x ∷ xs) [] h = tt
All-zip P (x ∷ xs) (y ∷ ys) h = (h.0, All-zip P xs ys h.1)

All-take {ℓ κ} : {A : Type ℓ} (P : A → Type κ) (n : ℕ) (xs : List A) → All P xs → All P (take n xs)
All-take P zero xs h = tt
All-take P (suc n) [] h = tt
All-take P (suc n) (x ∷ xs) h = (h.0, All-take P n xs h.1)

module _ {Score : Type 0} (s : Services Score) where
  -- Documented of Qdrant: a search returns points whose payload meets the filter.
  pub record Honours : Type 0 where
    pub dense :
        (collection : Text) (v : s.Vector) (f : Filter) (limit : ℕ) {ps : List (Point Score)}
        → s.search_dense collection v f limit ≡ ok ps
        → All (λ p. IsInScope f (payload_of Score p)) ps
    pub sparse :
        (collection : Text) (v : List (ℕ × s.Weight)) (f : Filter) (limit : ℕ)
        {ps : List (Point Score)}
        → s.search_sparse collection v f limit ≡ ok ps
        → All (λ p. IsInScope f (payload_of Score p)) ps

  -- No call fails.
  pub record IsUp : Type 0 where
    pub embeds : (q : Text) → (v : s.Vector) × (s.embed_single q ≡ ok v)
    pub dense :
        (collection : Text) (v : s.Vector) (f : Filter) (limit : ℕ)
        → (ps : List (Point Score)) × (s.search_dense collection v f limit ≡ ok ps)
    pub sparse :
        (collection : Text) (v : List (ℕ × s.Weight)) (f : Filter) (limit : ℕ)
        → (ps : List (Point Score)) × (s.search_sparse collection v f limit ≡ ok ps)
    pub point :
        (collection id : Text) → (p : Option (Option Payload)) × (s.get_point collection id ≡ ok p)
    pub predicts :
        (q : Text) (ts : List Text) → (scores : List Score) × (s.predict q ts ≡ ok scores)

  rerank_lem :
      IsUp
      → (f : Filter) (query : Text) (cs : List Candidate) (n : ℕ)
      → All (λ c. IsInScope f c.metadata) cs
      → (rs : List (Candidate × Score)) × (rerank s query cs n ≡ ok rs)
        × All (λ r. IsInScope f r.0.metadata) rs
        × (length rs ≤ n)
  unfolding rerank
  rerank_lem up f query [] n h = ([], refl, tt, omega arith)
  rerank_lem up f query (c ∷ cs) n h =
      let (scores, predicted) = up.predicts query (map (λ x. content_of x.metadata) (c ∷ cs)) in
      let pairs = sort_desc (λ a b. s.less a.1 b.1) (zip (c ∷ cs) scores) in
      (
        take n pairs,
        >>=-ok _ _ predicted,
        All-take _ n pairs (
            All-sort_desc _ _ (zip (c ∷ cs) scores)
              (All-zip (λ x. IsInScope f x.metadata) (c ∷ cs) scores h)),
        omega (arith, length-take n pairs),
      )

  parent_text_returns :
      IsUp → (collection : Text) (v : Value) → (t : Value) × (parent_text s collection v ≡ ok t)
  unfolding parent_text
  parent_text_returns up collection (text []) = (null, refl)
  parent_text_returns up collection (text (a ∷ id)) =
      let (found, returned) = up.point collection (a ∷ id) in
      (text_of_record s found, >>=-ok _ _ returned)
  parent_text_returns up collection _ = (null, refl)

  hydrate_parents_lem :
      IsUp
      → (f : Filter) (collection : Text) (rs : List (Candidate × Score))
      → All (λ r. IsInScope f r.0.metadata) rs
      → (out : List (RetrievedChunk s)) × (hydrate_parents s collection rs ≡ ok out)
        × All (λ r. IsInScope f r.metadata) out
        × (length out ≡ length rs)
  unfolding hydrate_parents
  hydrate_parents_lem up f collection [] h = ([], refl, tt, refl)
  hydrate_parents_lem up f collection ((c, score) ∷ rs) h =
      let parent_id = get (codes "parent_chunk_id") c.metadata in
      let (parent, found) = parent_text_returns up collection parent_id in
      let (out, hydrated, scoped, same) = hydrate_parents_lem up f collection rs h.1 in
      let chunk : RetrievedChunk s = record {
        chunk_id = c.chunk_id;
        content = content_of c.metadata;
        metadata = c.metadata;
        score = score;
        parent_content = parent;
        parent_chunk_id = parent_id;
      } in
      (chunk ∷ out, >>=-ok _ _ found ∙ >>=-ok _ _ hydrated, (h.0, scoped), omega (arith, same))

  -- What a retrieval returns.
  pub record Answers (tenant_id coverage_id : Text) (more : Filter) (n : ℕ)
      (r : Raises (List (RetrievedChunk s))) : Type 0 where
    pub chunks : List (RetrievedChunk s)
    pub returned : r ≡ ok chunks
    pub in_scope :
        All (λ c. IsInCoverage tenant_id coverage_id c.metadata × IsInScope more c.metadata) chunks
    pub few : length chunks ≤ n

  scope_given :
      (tenant_id coverage_id : Text)
      → (is_empty tenant_id || is_empty coverage_id) ≡ false
      → require_tenant_scope tenant_id coverage_id ≡ ok tt
  unfolding require_tenant_scope
  scope_given tenant_id coverage_id given = rw given refl

  -- Where the services answer and the store honours its filters, a retrieval for a tenant and a
  -- coverage, both given, returns at most `rerank_top_n` chunks, and each of them has in its
  -- metadata that tenant, that coverage, the type child or table, and what the caller's filters
  -- demand.
  pub retrieve-Answers :
      IsUp
      → Honours
      → (query tenant_id coverage_id : Text) (top_k rerank_top_n : ℕ) (filters : Filter)
      → (is_empty tenant_id || is_empty coverage_id) ≡ false
      → Answers tenant_id coverage_id filters rerank_top_n
          (retrieve s query tenant_id coverage_id top_k rerank_top_n filters)
  unfolding retrieve
  retrieve-Answers up honours query tenant_id coverage_id top_k rerank_top_n filters given =
      let collection = collection_name s tenant_id in
      let f = build_filter tenant_id coverage_id filters in
      let (vector, embedded) = up.embeds query in
      let (dense, by_dense) = up.dense collection vector f top_k in
      let (sparse, by_sparse) = up.sparse collection (s.compute_bm25_sparse query) f top_k in
      let scoped =
        fusion-IsInScope f dense sparse (honours.dense collection vector f top_k by_dense)
          (honours.sparse collection (s.compute_bm25_sparse query) f top_k by_sparse) in
      let (reranked, ranked, kept, few) =
        rerank_lem up f query (reciprocal_rank_fusion dense sparse) rerank_top_n scoped in
      let (out, hydrated, in_scope, same) = hydrate_parents_lem up f collection reranked kept in
      record {
        chunks = out;
        returned =
            >>=-ok _ _ (scope_given tenant_id coverage_id given)
            ∙ >>=-ok _ _ embedded
            ∙ >>=-ok _ _ by_dense
            ∙ >>=-ok _ _ by_sparse
            ∙ >>=-ok _ _ ranked
            ∙ hydrated;
        in_scope =
            All-weaken _ _
              (λ c h. build_filter-IsInCoverage tenant_id coverage_id filters c.metadata h) out
              in_scope;
        few = omega (arith, same, few);
      }

  -- Without a tenant or without a coverage each of the three lookups raises a value error, whatever
  -- the services hold.
  pub unscoped_refused :
      (query tenant_id coverage_id : Text) (top_k rerank_top_n : ℕ) (filters : Filter)
      (threshold : Score)
      → (is_empty tenant_id || is_empty coverage_id) ≡ true
      → (retrieve s query tenant_id coverage_id top_k rerank_top_n filters
          ≡ raised Error.value_error)
        × (retrieve_exact_quote s threshold query tenant_id coverage_id ≡ raised Error.value_error)
        × (retrieve_semantic_quote s threshold query tenant_id coverage_id
            ≡ raised Error.value_error)
  unfolding retrieve retrieve_exact_quote retrieve_semantic_quote require_tenant_scope
  unscoped_refused query tenant_id coverage_id top_k rerank_top_n filters threshold missing =
      (rw missing refl, rw missing refl, rw missing refl)
