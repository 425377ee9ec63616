-- ===== src/Enforcer/Examples.antt =====
-- The enforcer at work on small outputs: tests, and the theorems applied.
use stock_analyst.Shared.{
  ℕ, Text, codes, [], ◌∷◌, ◌++◌, true, false, Option, none, some, ◌≡◌, refl, length, ok, same_text,
  if◌then◌else◌,
}
use stock_analyst.Shared.Regex.{find_iter, occurs_in, full_matches, split}
use stock_analyst.Message.{AgentOutput, AgentType, EnforcerStatus}
use stock_analyst.Enforcer.Patterns.{
  citation_pattern, citation_attempt_pattern, number_pattern, speculation_pattern,
  inference_pattern, claim_verb_pattern, sentence_break,
}
use stock_analyst.Enforcer.Checks.{
  CheckResult, quoted, paragraphs_of, has_digit, has_claim_verb, is_cited, sentences_of,
  claim_paragraphs, check_citation_coverage, attempts_of, malformed_attempts, check_quote_format,
  numbers_of, unsourced_numbers, check_no_unsourced_numbers, is_speculation,
  check_no_future_speculation, is_unlabeled, check_inference_labeling,
}
use stock_analyst.Enforcer.Quotes.{
  QuoteSearch, quotes_result, citations_of, judge, judge_all, check_quotes_exist_in_rag,
}
use stock_analyst.Enforcer.Validate.{
  hallucination_detected, log_rows, log_hallucination_events, verdict, checks_of, validate,
}
use stock_analyst.Enforcer.Verdict.{IsSound, validate-approved-IsSound}
use stock_analyst.Enforcer.Counts.{total, Counts, hallucination_count_lem}

abbrev quote : Text
quote = codes "sales grew 4 percent"

abbrev pub cited : Text
cited = codes "Sales grew 4 percent. [10-K, MD&A]: " ++ (34 ∷ (quote ++ (34 ∷ [])))

cited-numbers : numbers_of (codes "Sales grew 4 percent.") ≡ codes "4 percent" ∷ []
unfolding numbers_of find_iter number_pattern
cited-numbers = refl

-- A space before the percent sign or behind it hides the number: no word boundary follows.
percent_sign-numbers :
    numbers_of (codes "Sales grew 4% in 2023, by 3 million.") ≡ codes "3 million" ∷ []
unfolding numbers_of find_iter number_pattern
percent_sign-numbers = refl

abbrev pub output : Text → AgentOutput
output content = record {
  message_id = codes "m";
  agent = AgentType.lynch_pitch;
  task_id = codes "t";
  coverage_id = codes "c";
  tenant_id = codes "n";
  content = content;
  citations = [];
  citation_coverage_pct = record { cited = 0; claims = 0 };
  llm_used = codes "llama";
  tokens_used = 10;
  latency_ms = 20;
  approved_by_enforcer = false;
  enforcer_status = EnforcerStatus.pending;
  error = none;
}

-- A store that holds the one quote.
abbrev holds_quote : Text → Option ℕ
holds_quote q = if same_text q quote then some 7 else none

abbrev nothing_near : Text → Option ℕ
nothing_near q = none

-- Stands for the UUID parser: the length of the text.
abbrev pub parse : Text → Option ℕ
parse t = some (length t)

abbrev store : QuoteSearch
store = total holds_quote nothing_near

cited_validates :
    validate parse store true (output cited) (codes "n") (codes "c")
    ≡ ok (
      verdict
          (checks_of cited (quotes_result store (record { not_found = []; paraphrased = [] })))
          cited,
      [],
    )
unfolding validate check_quotes_exist_in_rag judge_all judge citations_of find_iter citation_pattern
    log_hallucination_events log_rows
cited_validates = refl

pub cited-approved :
    (verdict
      (checks_of cited (quotes_result store (record { not_found = []; paraphrased = [] })))
      cited).is_approved
    ≡ true
unfolding verdict checks_of check_citation_coverage claim_paragraphs paragraphs_of has_digit
    has_claim_verb is_cited sentences_of attempts_of malformed_attempts check_quote_format
    numbers_of unsourced_numbers check_no_unsourced_numbers is_speculation
    check_no_future_speculation is_unlabeled check_inference_labeling find_iter occurs_in
    full_matches split citation_pattern citation_attempt_pattern number_pattern speculation_pattern
    inference_pattern claim_verb_pattern sentence_break
cited-approved = refl

validate-approved-IsSound_example : IsSound store cited
validate-approved-IsSound_example =
    validate-approved-IsSound parse store true (output cited) (codes "n") (codes "c")
      cited_validates cited-approved

-- Two figures without a citation, which the number pattern does not match, before the cited text.
abbrev figures : Text
figures = codes "Revenue was 394328 in 2023. Sales grew 4% in 2023. " ++ cited

figures-approved :
    (verdict
      (checks_of figures (quotes_result store (record { not_found = []; paraphrased = [] })))
      figures).is_approved
    ≡ true
unfolding verdict checks_of check_citation_coverage claim_paragraphs paragraphs_of has_digit
    has_claim_verb is_cited sentences_of attempts_of malformed_attempts check_quote_format
    numbers_of unsourced_numbers check_no_unsourced_numbers is_speculation
    check_no_future_speculation is_unlabeled check_inference_labeling find_iter occurs_in
    full_matches split citation_pattern citation_attempt_pattern number_pattern speculation_pattern
    inference_pattern claim_verb_pattern sentence_break
figures-approved = refl

-- A quote that no search finds.
abbrev invented : Text
invented =
    codes "Margins will expand. [10-K, Outlook]: "
    ++ (34 ∷ (codes "margins doubled again" ++ (34 ∷ [])))

abbrev invented_quotes : CheckResult
invented_quotes =
    quotes_result store
      (record { not_found = codes "margins doubled again" ∷ []; paraphrased = [] })

invented_validates :
    validate parse store true (output invented) (codes "n") (codes "c")
    ≡ ok (
      verdict (checks_of invented invented_quotes) invented,
      record {
        tenant = 1;
        coverage = 1;
        agent = AgentType.lynch_pitch;
        action = hallucination_detected;
        output_id = some 1;
        quote = quoted (codes "margins doubled again");
      }
          ∷ [],
    )
unfolding validate check_quotes_exist_in_rag judge_all judge citations_of find_iter citation_pattern
    log_hallucination_events log_rows
invented_validates = refl

invented-rejected :
    let r = verdict (checks_of invented invented_quotes) invented in
    (r.is_approved ≡ false) × (r.hallucination_count ≡ 1)
unfolding verdict checks_of check_citation_coverage check_quote_format claim_paragraphs
    paragraphs_of split has_digit is_cited occurs_in citation_pattern malformed_attempts attempts_of
    citation_attempt_pattern full_matches
invented-rejected = (refl, refl)

hallucination_count_lem_example :
    Counts holds_quote nothing_near parse true (output invented) (codes "n") (codes "c")
hallucination_count_lem_example =
    hallucination_count_lem holds_quote nothing_near parse true (output invented) (codes "n")
      (codes "c") refl refl
