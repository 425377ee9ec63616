-- ===== src/Evaluation/Accepts.antt =====
-- What a case of run_eval.py asks of an answer, and that its checks ask just that.
use stock_analyst.Shared.{
  ℕ, ◌≤◌, Text, List, [], ◌∷◌, ◌++◌, map, true, false, not, some, leb, All, starts_with, strip,
  word_count, ◌≡◌, ◌↔◌, ◌⊎◌, inl, inr, refl,
}
use stock_analyst.Shared.Regex.{Regex, is_some, occurs_in, full_matches}
use stock_analyst.Message.{at_least_pct}
use stock_analyst.Enforcer.Checks.{attempts_of}
use stock_analyst.Evaluation.{
  Case, CheckOutcome, question_answered, must_contain_any, must_contain_regex, forbidden, required,
  section, cites, citation_coverage, max_word_count, min_word_count, citation_format,
  min_kpis_upserted,
}
use stock_analyst.Evaluation.Checks.{
  outcome, declared, concat_map, block_of, question_blocks, token_check, item_check, contains,
  contains_any, cites_section, coverage_of, minimum, is_well_formed, kpis_upserted, question_checks,
  phrase_checks, citation_checks, count_checks,
}
use stock_analyst.Evaluation.Cases.{allowed}
use stock_analyst.Evaluation.Good.{
  IsGood, IsMet, iff_refl, iff_trans, IsGood-parts, IsGood-one, IsGood-map, IsGood-concat_map,
  IsGood-declared, IsGood-key, is_some_iff, not_iff, leb_iff, is_well_formed_iff,
}

module _ (c : Case) (content : Text) where
  -- Every question asked is answered under its header; the tokens and items that name a question or
  -- a metric hold.
  abbrev pub AnswersQuestions : Type 0
  AnswersQuestions =
      let blocks = question_blocks content in
      All (λ q. (body : Text) × (block_of q blocks ≡ some body)) c.must_answer_questions
      × (All (λ t. IsGood (token_check blocks t)) c.must_contain_not_found
          × All (λ i. IsGood (item_check content blocks i)) c.items)

  abbrev pub HasPhrases : Type 0
  HasPhrases =
      All (λ p. contains content p ≡ false) c.must_not_contain
      × (All (λ p. contains content p ≡ true) c.must_contain_all
          × (All (λ p. contains content p ≡ true) c.must_contain_sections
              × ((c.must_contain_any ≡ []) ⊎ (contains_any content c.must_contain_any ≡ true))))

  abbrev pub HasCitations : Type 0
  HasCitations =
      IsMet c.must_contain_regex (λ p. occurs_in p content ≡ true)
      × (IsMet c.must_cite_sections (All (λ s. cites_section content s ≡ true))
          × (at_least_pct (minimum c) (coverage_of content) ≡ true))

  abbrev pub HasCounts : Type 0
  HasCounts =
      IsMet c.max_word_count (λ n. word_count content ≤ n)
      × (IsMet c.min_word_count (λ n. n ≤ word_count content)
          × (IsMet c.all_citations_must_match_regex
                (λ p. All (λ a. full_matches p a ≡ true) (attempts_of content))
              × IsMet c.min_kpis_upserted (λ n. n ≤ kpis_upserted content)))

  -- What the runner asks: with the citation checks skipped, the prefix only, and the coverage
  -- neither.
  abbrev pub IsAccepted : ℕ → Type 0
  IsAccepted hallucinations =
      IsMet c.must_start_with (λ p. starts_with (strip content) p ≡ true)
      × ((c.skip_citation_checks ≡ true)
          ⊎ (AnswersQuestions × (HasPhrases × (HasCitations × HasCounts))))
      × (hallucinations ≤ allowed c)

module _ (c : Case) (content : Text) where
  question_checks_iff : IsGood (question_checks c content) ↔ AnswersQuestions c content
  unfolding question_checks
  question_checks_iff =
      let blocks = question_blocks content in
      let answered =
        map (λ q. outcome (question_answered q) (is_some (block_of q blocks)))
          c.must_answer_questions in
      let tokens = concat_map (token_check blocks) c.must_contain_not_found in
      let items = concat_map (item_check content blocks) c.items in
      IsGood-parts answered (tokens ++ items)
        (IsGood-map question_answered (λ q. is_some (block_of q blocks))
          (λ q. is_some_iff (block_of q blocks)) c.must_answer_questions)
        (IsGood-parts tokens items (IsGood-concat_map (token_check blocks) c.must_contain_not_found)
          (IsGood-concat_map (item_check content blocks) c.items))

  any_checks : List Text → List CheckOutcome
  any_checks [] = []
  any_checks (p ∷ ps) = outcome must_contain_any (contains_any content (p ∷ ps)) ∷ []

  any_checks_iff :
      (ps : List Text) → IsGood (any_checks ps) ↔ ((ps ≡ []) ⊎ (contains_any content ps ≡ true))
  unfolding any_checks
  any_checks_iff [] = (λ h. inl refl, λ h. refl)
  any_checks_iff (p ∷ ps) =
      iff_trans (IsGood-one must_contain_any (contains_any content (p ∷ ps)))
        (λ h. inr h, λ h. elim h [ inl e ↦ cc | inr h' ↦ h' ])

  phrase_checks_iff : IsGood (phrase_checks c content) ↔ HasPhrases c content
  unfolding phrase_checks any_checks
  phrase_checks_iff =
      let holds = contains content in
      let not_held = map (λ p. outcome (forbidden p) (not (holds p))) c.must_not_contain in
      let held = map (λ p. outcome (required p) (holds p)) c.must_contain_all in
      let sections = map (λ p. outcome (section p) (holds p)) c.must_contain_sections in
      let some_held = any_checks c.must_contain_any in
      IsGood-parts not_held (held ++ (sections ++ some_held))
        (IsGood-map forbidden (λ p. not (holds p)) (λ p. not_iff (holds p)) c.must_not_contain)
        (IsGood-parts held (sections ++ some_held)
          (IsGood-map required holds (λ p. iff_refl) c.must_contain_all)
          (IsGood-parts sections some_held
            (IsGood-map section holds (λ p. iff_refl) c.must_contain_sections)
            (any_checks_iff c.must_contain_any)))

  citation_checks_iff : IsGood (citation_checks c content) ↔ HasCitations c content
  unfolding citation_checks
  citation_checks_iff =
      let enough = at_least_pct (minimum c) (coverage_of content) in
      let matched : Regex → List CheckOutcome =
        λ p. outcome must_contain_regex (occurs_in p content) ∷ [] in
      let cited : List Text → List CheckOutcome =
        map (λ s. outcome (cites s) (cites_section content s)) in
      let last = outcome citation_coverage enough ∷ [] in
      IsGood-parts (declared c.must_contain_regex matched)
        (declared c.must_cite_sections cited ++ last)
        (IsGood-declared c.must_contain_regex matched
          (λ p. IsGood-one must_contain_regex (occurs_in p content)))
        (IsGood-parts (declared c.must_cite_sections cited) last
          (IsGood-declared c.must_cite_sections cited
            (IsGood-map cites (cites_section content) (λ s. iff_refl)))
          (IsGood-one citation_coverage enough))

  count_checks_iff : IsGood (count_checks c content) ↔ HasCounts c content
  unfolding count_checks
  count_checks_iff =
      let words = word_count content in
      let upserted = kpis_upserted content in
      let most = declared c.max_word_count (λ n. outcome max_word_count (leb words n) ∷ []) in
      let least = declared c.min_word_count (λ n. outcome min_word_count (leb n words) ∷ []) in
      let formed =
        declared c.all_citations_must_match_regex
          (λ p. outcome citation_format (is_well_formed p content) ∷ []) in
      let kpis =
        declared c.min_kpis_upserted (λ n. outcome min_kpis_upserted (leb n upserted) ∷ []) in
      IsGood-parts most (least ++ (formed ++ kpis))
        (IsGood-key max_word_count (λ n. leb words n) (leb_iff words) c.max_word_count)
        (IsGood-parts least (formed ++ kpis)
          (IsGood-key min_word_count (λ n. leb n words) (λ n. leb_iff n words) c.min_word_count)
          (IsGood-parts formed kpis
            (IsGood-key citation_format (λ p. is_well_formed p content)
              (λ p. is_well_formed_iff p content) c.all_citations_must_match_regex)
            (IsGood-key min_kpis_upserted (λ n. leb n upserted) (λ n. leb_iff n upserted)
              c.min_kpis_upserted)))

  -- The checks that follow the prefix.
  pub rest_iff :
      IsGood (
        question_checks c content
        ++ (phrase_checks c content ++ (citation_checks c content ++ count_checks c content)))
      ↔ (AnswersQuestions c content
          × (HasPhrases c content × (HasCitations c content × HasCounts c content)))
  rest_iff = IsGood-parts (question_checks c content) _ question_checks_iff (
      IsGood-parts (phrase_checks c content) _ phrase_checks_iff (
        IsGood-parts (citation_checks c content) (count_checks c content) citation_checks_iff
          count_checks_iff))
