-- ===== src/Enforcer/Checks.antt =====
-- The five checks of citation_enforcer.py that read the content alone, and the coverage figure.
use stock_analyst.Shared.{
  ℕ, ◌+◌, Text, codes, List, [], ◌∷◌, ◌++◌, map, Bool, ◌&&◌, ◌||◌, not, if◌then◌else◌, length, take,
  filter_by, any, is_empty, is_digit, strip, lower, has_substring, same_text, enumerate,
}
use stock_analyst.Shared.Regex.{find_iter, occurs_in, full_matches, split, literal}
use stock_analyst.Message.{Coverage, at_least_pct}
use stock_analyst.Enforcer.Patterns.{
  citation_pattern, citation_attempt_pattern, number_pattern, speculation_pattern,
  inference_pattern, claim_verb_pattern, sentence_break,
}

-- `check_name`
pub data CheckName : Type 0 where
  citation_coverage quote_format quote_exists_in_rag : CheckName
  no_unsourced_numbers no_future_speculation inference_labeling : CheckName

-- A `details` line, by the numbers that it prints.
pub data Details : Type 0 where
  coverage_was : Coverage → Details
  found : ℕ → Details
  not_found_and_paraphrased : ℕ → ℕ → Details

-- One entry of `failed_items`, by the texts that it prints.
pub data Item : Type 0 where
  -- `Paragraph {n} has no citation`
  paragraph : ℕ → Item
  -- the text itself
  verbatim : Text → Item
  -- `"{text}..."`
  quoted : Text → Item
  -- `"{number}" in: "{sentence}"`
  number_in : Text → Text → Item

pub record CheckResult : Type 0 where
  pub check_name : CheckName
  pub passed : Bool
  pub details : Details
  pub failed_items : List Item
  pub paraphrase_items : List Item

abbrev pub min_coverage : ℕ
min_coverage = 95

abbrev pub partial_coverage_floor : ℕ
partial_coverage_floor = 80

-- `[p.strip() for p in content.split("\n\n") if p.strip()]`
unfoldable pub paragraphs_of : Text → List Text
paragraphs_of content =
    filter_by (λ p. not (is_empty p)) (map strip (split (literal (10 ∷ 10 ∷ [])) content))

unfoldable pub has_digit : Text → Bool
has_digit = any is_digit

unfoldable pub has_claim_verb : Text → Bool
has_claim_verb = occurs_in claim_verb_pattern

unfoldable pub is_cited : Text → Bool
is_cited = occurs_in citation_pattern

unfoldable pub sentences_of : Text → List Text
sentences_of = split sentence_break

-- `p not in cited`
abbrev pub is_listed : List Text → Text → Bool
is_listed ps p = any (same_text p) ps

-- The paragraphs of the coverage check: with a digit or with one of seven verbs.
unfoldable pub claim_paragraphs : Text → List Text
claim_paragraphs content = filter_by (λ p. has_digit p || has_claim_verb p) (paragraphs_of content)

unfoldable pub check_citation_coverage : Text → CheckResult
check_citation_coverage content =
    let claims = claim_paragraphs content in
    let cited = filter_by is_cited claims in
    let coverage : Coverage = record { cited = length cited; claims = length claims } in
    record {
      check_name = citation_coverage;
      passed = at_least_pct min_coverage coverage;
      details = coverage_was coverage;
      failed_items =
          map (λ (i, p). paragraph (i + 1))
            (filter_by (λ (i, p). not (is_listed cited p)) (enumerate 0 claims));
      paraphrase_items = [];
    }

-- `_CITATION_ATTEMPT_PATTERN.findall(content)`
unfoldable pub attempts_of : Text → List Text
attempts_of content = map (λ (i, m). m.text) (find_iter citation_attempt_pattern content)

unfoldable pub malformed_attempts : Text → List Text
malformed_attempts content =
    filter_by (λ a. not (full_matches citation_pattern a)) (attempts_of content)

unfoldable pub check_quote_format : Text → CheckResult
check_quote_format content =
    let malformed = malformed_attempts content in
    record {
      check_name = quote_format;
      passed = is_empty malformed;
      details = found (length malformed);
      failed_items = map verbatim (take 5 malformed);
      paraphrase_items = [];
    }

-- `NUMBER_PATTERN.findall(sentence)`
unfoldable pub numbers_of : Text → List Text
numbers_of sentence = map (λ (i, m). m.text) (find_iter number_pattern sentence)

-- The sentence with the next one, where a citation may stand.
abbrev pub with_next : Text → List Text → Text
with_next s [] = s
with_next s (t ∷ _) = s ++ (codes " " ++ t)

unfoldable pub unsourced_numbers : List Text → List Item
unsourced_numbers [] = []
unsourced_numbers (s ∷ rest) =
    (if is_cited (with_next s rest) then [] else map (λ n. number_in n (take 80 s)) (numbers_of s))
    ++ unsourced_numbers rest

unfoldable pub check_no_unsourced_numbers : Text → CheckResult
check_no_unsourced_numbers content =
    let unsourced = unsourced_numbers (sentences_of content) in
    record {
      check_name = no_unsourced_numbers;
      passed = is_empty unsourced;
      details = found (length unsourced);
      failed_items = take 5 unsourced;
      paraphrase_items = [];
    }

unfoldable pub is_speculation : Text → Bool
is_speculation s = occurs_in speculation_pattern s && not (is_cited s)

unfoldable pub check_no_future_speculation : Text → CheckResult
check_no_future_speculation content =
    let violations = filter_by is_speculation (sentences_of content) in
    record {
      check_name = no_future_speculation;
      passed = is_empty violations;
      details = found (length violations);
      failed_items = take 3 (map (λ s. verbatim (take 100 s)) violations);
      paraphrase_items = [];
    }

unfoldable pub is_unlabeled : Text → Bool
is_unlabeled s =
    occurs_in inference_pattern s && not (has_substring (codes "(inferred from") (lower s))

unfoldable pub check_inference_labeling : Text → CheckResult
check_inference_labeling content =
    let unlabeled = filter_by is_unlabeled (sentences_of content) in
    record {
      check_name = inference_labeling;
      passed = is_empty unlabeled;
      details = found (length unlabeled);
      failed_items = take 3 (map (λ s. verbatim (take 100 s)) unlabeled);
      paraphrase_items = [];
    }

-- `_compute_citation_coverage`: here a paragraph makes a claim only if it has a digit.
unfoldable pub compute_citation_coverage : Text → Coverage
compute_citation_coverage content =
    let claims = filter_by has_digit (paragraphs_of content) in
    record { cited = length (filter_by is_cited claims); claims = length claims }
