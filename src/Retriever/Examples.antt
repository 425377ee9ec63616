-- ===== src/Retriever/Examples.antt =====
-- A store in memory that filters as it should, and the theorems on it.
use stock_analyst.Shared.{
  ℕ, Text, codes, List, [], ◌∷◌, map, Bool, true, false, none, some, ◌≡◌, refl, ltb, All, all, any,
  arith, Bool-cases, inl, inr, filter_by, take, length, same_text, strip, ok, raised, ok-injective,
  subst, sort_desc, insert_desc,
}
use mathlib.Core.List.{zip}
use stock_analyst.Shared.Regex.{find_iter}
use stock_analyst.Enforcer.Patterns.{citation_pattern}
use stock_analyst.Enforcer.Quotes.{
  citations_of, judge, judge_all, quotes_result, check_quotes_exist_in_rag,
}
use stock_analyst.Enforcer.Validate.{validate, verdict, checks_of}
use stock_analyst.Enforcer.Examples.{cited, output, parse, cited-approved}
use stock_analyst.Retriever.Quotes.{quote_search, IsSupported, approved_quotes-IsSupported}
use stock_analyst.Retriever.{
  Value, text, null, other, Payload, get, Condition, Filter, build_filter, Point, payload_of,
  Services, require_tenant_scope, rerank, add_hits, add_hit, hydrate_parents, parent_text,
  accept_top, reciprocal_rank_fusion, retrieve, retrieve_exact_quote,
}
use stock_analyst.Retriever.Fusion.{IsFusion, reciprocal_rank_fusion-IsFusion}
use stock_analyst.Retriever.Filters.{IsInScope}
use stock_analyst.Retriever.Scope.{Honours, IsUp, Answers, retrieve-Answers}

abbrev meets_value : Condition → Value → Bool
meets_value c (text v) = any (same_text v) c.values
meets_value c _ = false

abbrev meets : Payload → Condition → Bool
meets m c = meets_value c (get c.key m)

abbrev point : Text → Text → Text → Text → Point ℕ
point id tenant kind content = record {
  id = id;
  score = some 9;
  payload = some (
      (codes "tenant_id", text tenant)
      ∷ (codes "coverage_id", text (codes "c"))
      ∷ (codes "chunk_type", text kind)
      ∷ (codes "content", text content)
      ∷ []);
}

-- The second point is another tenant's, the third a parent.
abbrev points : List (Point ℕ)
points =
    point (codes "p1") (codes "n") (codes "child") (codes "sales grew")
    ∷ point (codes "p2") (codes "m") (codes "child") (codes "sales fell")
    ∷ point (codes "p3") (codes "n") (codes "parent") (codes "all of it")
    ∷ point (codes "p4") (codes "n") (codes "table") (codes "numbers")
    ∷ []

abbrev matching : Filter → List (Point ℕ)
matching f = filter_by (λ p. all (meets (payload_of ℕ p)) f) points

abbrev services : Services ℕ
services = record {
  Vector = ℕ;
  Weight = ℕ;
  less = ltb;
  prefix = codes "tenant";
  embed_single = λ q. ok (length q);
  compute_bm25_sparse = λ q. map (λ c. (c, c)) q;
  search_dense = λ collection v f limit. ok (matching f);
  search_sparse = λ collection v f limit. ok (matching f);
  get_point = λ collection id. ok none;
  predict = λ q ts. ok (map length ts);
}

meets_value-Meets :
    (c : Condition) (v : Value)
    → meets_value c v ≡ true
    → (t : Text) × (v ≡ text t) × (any (same_text t) c.values ≡ true)
meets_value-Meets c (text t) h = (t, refl, h)
meets_value-Meets c null h = absurd (cc)
meets_value-Meets c other h = absurd (cc)

all-meets : (m : Payload) (f : Filter) → all (meets m) f ≡ true → IsInScope f m
all-meets m [] h = tt
all-meets m (c ∷ f) h = elim (Bool-cases (meets m c)) [
  | inl met ↦ (meets_value-Meets c (get c.key m) met, all-meets m f (rw met at h))
  | inr unmet ↦ absurd (ground arith)
]

filter-InScope :
    (f : Filter) (ps : List (Point ℕ))
    → All (λ p. IsInScope f (payload_of ℕ p)) (filter_by (λ p. all (meets (payload_of ℕ p)) f) ps)
filter-InScope f [] = tt
filter-InScope f (p ∷ ps) = elim (Bool-cases (all (meets (payload_of ℕ p)) f)) [
  | inl kept ↦ rw kept (all-meets (payload_of ℕ p) f kept, filter-InScope f ps)
  | inr dropped ↦ rw dropped (filter-InScope f ps)
]

services-Honours : Honours services
services-Honours = record {
  dense = λ collection v f limit h.
      subst (All (λ p. IsInScope f (payload_of ℕ p))) (ok-injective _ _ h)
        (filter-InScope f points);
  sparse = λ collection v f limit h.
      subst (All (λ p. IsInScope f (payload_of ℕ p))) (ok-injective _ _ h)
        (filter-InScope f points);
}

services-IsUp : IsUp services
services-IsUp = record {
  embeds = λ q. (length q, refl);
  dense = λ collection v f limit. (matching f, refl);
  sparse = λ collection v f limit. (matching f, refl);
  point = λ collection id. (none, refl);
  predicts = λ q ts. (map length ts, refl);
}

retrieve-Answers_example :
    Answers services
      (codes "n")
      (codes "c")
      []
      8
      (retrieve services (codes "sales") (codes "n") (codes "c") 20 8 [])
retrieve-Answers_example =
    retrieve-Answers services services-IsUp services-Honours (codes "sales") (codes "n") (codes "c")
      20 8 [] refl

reciprocal_rank_fusion-IsFusion_example :
    IsFusion points (take 2 points) (reciprocal_rank_fusion points (take 2 points))
reciprocal_rank_fusion-IsFusion_example = reciprocal_rank_fusion-IsFusion points (take 2 points)

retrieved_ids :
    elim (retrieve services (codes "sales") (codes "n") (codes "c") 20 8 []) [
      | ok cs ↦ map (λ c. c.chunk_id) cs
      | raised e ↦ []
    ]
    ≡ codes "p1" ∷ codes "p4" ∷ []
unfolding retrieve require_tenant_scope rerank reciprocal_rank_fusion sort_desc insert_desc add_hits
    add_hit build_filter hydrate_parents parent_text zip
retrieved_ids = refl

cited_validates :
    validate parse
      (quote_search services 5 5 (codes "n") (codes "c"))
      false
      (output cited)
      (codes "n")
      (codes "c")
    ≡ ok (
      verdict
          (checks_of cited (
            quotes_result
              (quote_search services 5 5 (codes "n") (codes "c"))
              (record { not_found = []; paraphrased = [] })))
          cited,
      [],
    )
unfolding validate check_quotes_exist_in_rag judge_all judge citations_of find_iter citation_pattern
    retrieve_exact_quote require_tenant_scope build_filter accept_top
cited_validates = refl

approved_quotes-IsSupported_example :
    All (λ c. IsSupported services 5 5 (codes "n") (codes "c") (strip c.quote)) (citations_of cited)
approved_quotes-IsSupported_example =
    approved_quotes-IsSupported services 5 5 services-Honours parse false (output cited) (codes "n")
      (codes "c") cited_validates cited-approved
