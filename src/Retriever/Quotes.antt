-- ===== src/Retriever/Quotes.antt =====
-- The enforcer of citation_enforcer.py with the two searches of the retriever behind it.
use stock_analyst.Shared.{
  ℕ, Text, List, [], ◌∷◌, Bool, true, false, Option, none, some, ◌≡◌, ◌⊎◌, inl, inr, All,
  All-weaken, Option-cases, subst, Bool-cases, is_empty, strip, ok, >>=-eq-ok, ok-injective,
}
use mathlib.Core.Option.{some-injective}
use stock_analyst.Message.{AgentOutput}
use stock_analyst.Enforcer.Quotes.{QuoteSearch, citations_of}
use stock_analyst.Enforcer.Validate.{validate, ValidationResult, AuditRow}
use stock_analyst.Enforcer.Verdict.{IsFound, validate-approved-IsSound}
use stock_analyst.Retriever.{
  build_filter, Point, payload_of, Services, RetrievedChunk, require_tenant_scope, accept_top,
  retrieve_exact_quote, retrieve_semantic_quote, collection_name,
}
use stock_analyst.Retriever.Filters.{IsInScope, IsInCoverage, build_filter-IsInCoverage}
use stock_analyst.Retriever.Scope.{Honours}

module _ {Score : Type 0} (s : Services Score) (exact_threshold min_score : Score) where
  -- The two searches that `CitationEnforcer` asks of its retriever.
  abbrev pub quote_search : Text → Text → QuoteSearch
  quote_search tenant_id coverage_id = record {
    Chunk = RetrievedChunk s;
    exact = λ q. retrieve_exact_quote s exact_threshold q tenant_id coverage_id;
    semantic = λ q. retrieve_semantic_quote s min_score q tenant_id coverage_id;
  }

  -- A chunk of the tenant and the coverage whose score reaches the threshold.
  abbrev pub Supports : Text → Text → Score → RetrievedChunk s → Type 0
  Supports tenant_id coverage_id threshold c =
      IsInCoverage tenant_id coverage_id c.metadata × (s.less c.score threshold ≡ false)

  accept_top-Supports :
      (tenant_id coverage_id : Text) (threshold : Score) (ps : List (Point Score))
      {c : RetrievedChunk s}
      → All (λ p. IsInScope (build_filter tenant_id coverage_id []) (payload_of Score p)) ps
      → accept_top s threshold ps ≡ some c
      → Supports tenant_id coverage_id threshold c
  unfolding accept_top
  accept_top-Supports tenant_id coverage_id threshold [] scoped h = absurd (cc)
  accept_top-Supports tenant_id coverage_id threshold (top ∷ ps) scoped h =
      elim (Option-cases top.score) [
        | inl unscored ↦ let nothing : none ≡ some _ = rw (accept_top, unscored) at h in absurd (cc)
        | inr (score, scored) ↦ elim (Bool-cases (s.less score threshold)) [
          | inl low ↦ let nothing : none ≡ some _ = rw (accept_top, scored, low) at h in absurd (cc)
          | inr reached ↦
              subst (Supports tenant_id coverage_id threshold)
                (some-injective _ _ (rw (accept_top, scored, reached) at h))
                (
                  (build_filter-IsInCoverage tenant_id coverage_id [] (payload_of Score top)
                      scoped.0).0,
                  reached,
                )
        ]
      ]

  exact-Supports :
      Honours s
      → (q tenant_id coverage_id : Text) {c : RetrievedChunk s}
      → retrieve_exact_quote s exact_threshold q tenant_id coverage_id ≡ ok (some c)
      → Supports tenant_id coverage_id exact_threshold c
  unfolding retrieve_exact_quote
  exact-Supports honours q tenant_id coverage_id h =
      let (_, _, after_guard) = >>=-eq-ok (require_tenant_scope tenant_id coverage_id) _ h in
      elim (Bool-cases (is_empty (s.compute_bm25_sparse q))) [
        | inl nothing ↦
            let none_found : ok none ≡ ok (some _) = rw nothing at after_guard in absurd (cc)
        | inr something ↦
            let (hits, searched, accepted) =
              >>=-eq-ok
                (s.search_sparse (collection_name s tenant_id) (s.compute_bm25_sparse q)
                  (build_filter tenant_id coverage_id []) 1)
                _ (rw something at after_guard) in
            accept_top-Supports tenant_id coverage_id exact_threshold hits
              (honours.sparse _ _ _ 1 searched) (ok-injective _ _ accepted)
      ]

  semantic-Supports :
      Honours s
      → (q tenant_id coverage_id : Text) {c : RetrievedChunk s}
      → retrieve_semantic_quote s min_score q tenant_id coverage_id ≡ ok (some c)
      → Supports tenant_id coverage_id min_score c
  unfolding retrieve_semantic_quote
  semantic-Supports honours q tenant_id coverage_id h =
      let (_, _, after_guard) = >>=-eq-ok (require_tenant_scope tenant_id coverage_id) _ h in
      let (vector, _, after_embedding) = >>=-eq-ok (s.embed_single q) _ after_guard in
      let (hits, searched, accepted) =
        >>=-eq-ok
          (s.search_dense (collection_name s tenant_id) vector
            (build_filter tenant_id coverage_id []) 1)
          _ after_embedding in
      accept_top-Supports tenant_id coverage_id min_score hits (honours.dense _ _ _ 1 searched)
        (ok-injective _ _ accepted)

  -- What stands behind a quote: a chunk that the search for its words gave, or, where that gave
  -- none, a chunk that the search for its sense gave.
  abbrev pub IsSupported : Text → Text → Text → Type 0
  IsSupported tenant_id coverage_id q =
      (c : RetrievedChunk s) × (((retrieve_exact_quote s exact_threshold q tenant_id coverage_id
            ≡ ok (some c))
          × Supports tenant_id coverage_id exact_threshold c)
        ⊎ ((retrieve_exact_quote s exact_threshold q tenant_id coverage_id ≡ ok none)
            × (retrieve_semantic_quote s min_score q tenant_id coverage_id ≡ ok (some c))
            × Supports tenant_id coverage_id min_score c))

  found-IsSupported :
      Honours s
      → (tenant_id coverage_id q : Text) → IsFound (quote_search tenant_id coverage_id) q
      → IsSupported tenant_id coverage_id q
  found-IsSupported honours tenant_id coverage_id q (inl (c, h)) =
      (c, inl (h, exact-Supports honours q tenant_id coverage_id h))
  found-IsSupported honours tenant_id coverage_id q (inr (missed, (c, h))) =
      (c, inr (missed, h, semantic-Supports honours q tenant_id coverage_id h))

  -- Where the store honours its filters, and a validation with the retriever behind it returns and
  -- approves: for every citation of the content the retriever found a chunk, by the words of the
  -- quote or else by its sense, which belongs to the tenant and the coverage of the validation and
  -- whose score is not under the threshold of that search.
  pub approved_quotes-IsSupported :
      Honours s
      → (parse : Text → Option ℕ) (has_db : Bool) (output : AgentOutput)
        (tenant_id coverage_id : Text) {r : ValidationResult × List AuditRow}
      → validate parse (quote_search tenant_id coverage_id) has_db output tenant_id coverage_id
        ≡ ok r
      → r.0.is_approved ≡ true
      → All (λ c. IsSupported tenant_id coverage_id (strip c.quote)) (citations_of output.content)
  approved_quotes-IsSupported honours parse has_db output tenant_id coverage_id h good =
      let sound =
        validate-approved-IsSound parse (quote_search tenant_id coverage_id) has_db output tenant_id
          coverage_id h good in
      All-weaken _ _
        (λ c found. found-IsSupported honours tenant_id coverage_id (strip c.quote) found)
        (citations_of output.content) sound.quotes_found
