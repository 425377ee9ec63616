-- ===== src/Enforcer/Quotes.antt =====
-- The check of citation_enforcer.py that asks the vector store for every quote.
use stock_analyst.Shared.{
  ℕ, Text, List, [], ◌∷◌, ◌++◌, map, Option, none, some, length, take, is_empty, strip, Raises, ok,
  ◌>>=◌,
}
use stock_analyst.Shared.Regex.{Match, find_iter, group_text}
use stock_analyst.Message.{Citation}
use stock_analyst.Enforcer.Patterns.{citation_pattern}
use stock_analyst.Enforcer.Checks.{CheckResult, CheckName, quoted, not_found_and_paraphrased}

abbrev group_or_empty : ℕ → Match → Text
group_or_empty n m = elim (group_text n m.groups) [ none ↦ [] | some t ↦ t ]

abbrev pub citation_of : Match → Citation
citation_of m = record {
  doc = group_or_empty 1 m;
  section = group_or_empty 2 m;
  quote = group_or_empty 3 m;
}

-- `CITATION_PATTERN.findall(text)`
unfoldable pub citations_of : Text → List Citation
citations_of text = map (λ (i, m). citation_of m) (find_iter citation_pattern text)

-- What the enforcer asks of the retriever, with its tenant and coverage put in: a quote is in the
-- store verbatim, or a passage near to it is. Either search may raise.
pub record QuoteSearch : Type 1 where
  pub Chunk : Type 0
  pub exact : Text → Raises (Option Chunk)
  pub semantic : Text → Raises (Option Chunk)

-- The quotes that no search found, and those that only the semantic search found.
pub record Sorted : Type 0 where
  pub not_found : List Text
  pub paraphrased : List Text

module _ (search : QuoteSearch) where
  -- What becomes of one quote.
  unfoldable pub judge : Text → Sorted → Raises Sorted
  judge quote s = do
    found ← search.exact quote
    elim found [
      | some _ ↦ ok s
      | none ↦ search.semantic quote >>= elim [
        | some _ ↦ ok (record s { paraphrased = s.paraphrased ++ (quote ∷ []) })
        | none ↦ ok (record s { not_found = s.not_found ++ (quote ∷ []) })
      ]
    ]

  -- The loop over the citations.
  unfoldable pub judge_all : List Citation → Sorted → Raises Sorted
  judge_all [] s = ok s
  judge_all (c ∷ cs) s = judge (strip c.quote) s >>= λ s'. judge_all cs s'

  abbrev pub quotes_result : Sorted → CheckResult
  quotes_result s = record {
    check_name = CheckName.quote_exists_in_rag;
    passed = is_empty s.not_found;
    details = not_found_and_paraphrased (length s.not_found) (length s.paraphrased);
    failed_items = take 5 (map (λ q. quoted (take 60 q)) s.not_found);
    paraphrase_items = take 5 (map (λ q. quoted (take 60 q)) s.paraphrased);
  }

  unfoldable pub check_quotes_exist_in_rag : Text → Raises CheckResult
  check_quotes_exist_in_rag content =
      judge_all (citations_of content) (record { not_found = []; paraphrased = [] }) >>= λ s.
      ok (quotes_result s)
