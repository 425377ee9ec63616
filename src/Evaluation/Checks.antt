-- ===== src/Evaluation/Checks.antt =====
-- `_run_checks` of run_eval.py: the checks that a case declares, on the content of an answer.
use stock_analyst.Shared.{
  ℕ, ◌+◌, ◌*◌, ◌-◌, Text, codes, List, [], ◌∷◌, ◌++◌, map, Bool, true, false, ◌&&◌, not, Option,
  none, some, leb, ◌==◌, if◌then◌else◌, length, take, drop, filter_by, any, is_empty, has_substring,
  starts_with, strip, lower, replace_char, word_count, is_digit, is_space,
}
use stock_analyst.Shared.Regex.{
  Regex, Match, seq, opt, group, start, end, line_start, line_end, not_among, star, plus, literal,
  literal_i, chain, match, search_in, occurs_in, full_matches, find_iter, group_text, is_some,
}
use stock_analyst.Message.{Coverage, at_least_pct}
use stock_analyst.Enforcer.Checks.{paragraphs_of, has_digit, is_cited, sentences_of, attempts_of}
use stock_analyst.Enforcer.Patterns.{citation_pattern}
use stock_analyst.Evaluation.{
  Case, CheckOutcome, CheckKind, citation_coverage, must_contain_any, must_contain_regex,
  max_word_count, min_word_count, citation_format, min_kpis_upserted, question_answered,
  states_not_found, flag, forbidden, required, section, cites, must_start_with,
}

abbrev newline : ℕ
newline = 10

-- `^###\s*Q(\d+):\s*(.+)$`, MULTILINE
unfoldable pub header_pattern : Regex
header_pattern = chain line_start (
    literal (codes "###")
    ∷ star is_space
    ∷ literal (codes "Q")
    ∷ group 1 (plus is_digit)
    ∷ literal (codes ":")
    ∷ star is_space
    ∷ group 2 (plus (not_among (newline ∷ [])))
    ∷ line_end
    ∷ [])

-- `^Q(\d+)$`
unfoldable pub token_pattern : Regex
token_pattern = chain start (literal (codes "Q") ∷ group 1 (plus is_digit) ∷ end ∷ [])

-- `^q(\d+)_must_contain_not_found$`
unfoldable pub per_question_pattern : Regex
per_question_pattern = chain start (
    literal (codes "q")
    ∷ group 1 (plus is_digit)
    ∷ literal (codes "_must_contain_not_found")
    ∷ end
    ∷ [])

-- `^must_not_state_(.+)$`
unfoldable pub not_fabricated_pattern : Regex
not_fabricated_pattern =
    chain start
      (literal (codes "must_not_state_") ∷ group 1 (plus (not_among (newline ∷ []))) ∷ end ∷ [])

-- `\d+(?:\.\d+)?\s*%`
unfoldable pub percent_pattern : Regex
percent_pattern =
    chain (plus is_digit)
      (opt (seq (literal (codes ".")) (plus is_digit)) ∷ star is_space ∷ literal (codes "%") ∷ [])

-- `(\d+)\s+KPI value\(s\) upserted`
unfoldable pub kpi_upserted_pattern : Regex
kpi_upserted_pattern =
    chain (group 1 (plus is_digit)) (plus is_space ∷ literal (codes "KPI value(s) upserted") ∷ [])

-- `int` of digits
unfoldable pub int_from : ℕ → Text → ℕ
int_from n [] = n
int_from n (c ∷ t) = int_from (n * 10 + (c - b'0')) t

-- `m.group(1)`
abbrev pub first_group : Match → Text
first_group m = elim (group_text 1 m.groups) [ none ↦ [] | some t ↦ t ]

abbrev pub block_end : Text → List (ℕ × Match) → ℕ
block_end content [] = length content
block_end content ((j, m) ∷ ms) = j

unfoldable pub blocks_from : Text → List (ℕ × Match) → List (ℕ × Text)
blocks_from content [] = []
blocks_from content ((i, m) ∷ ms) =
    let first = i + length m.text in
    (int_from 0 (first_group m), take (block_end content ms - first) (drop first content))
    ∷ blocks_from content ms

-- `_question_blocks`, in the order in which the dictionary is written to
unfoldable pub question_blocks : Text → List (ℕ × Text)
question_blocks content = blocks_from content (find_iter header_pattern content)

-- `blocks.get(q)`: the last write counts.
unfoldable pub block_of : ℕ → List (ℕ × Text) → Option Text
block_of q [] = none
block_of q ((k, body) ∷ blocks) = elim (block_of q blocks) [
  | some later ↦ some later
  | none ↦ if k == q then some body else none
]

-- `_NOT_FOUND_TEXT in blocks.get(q, "").lower()`
unfoldable pub states_missing : List (ℕ × Text) → ℕ → Bool
states_missing blocks q =
    let body : Text = elim (block_of q blocks) [ none ↦ [] | some t ↦ t ] in
    has_substring (codes "not found in uploaded documents") (lower body)

-- `_citation_coverage`
unfoldable pub coverage_of : Text → Coverage
coverage_of content =
    let claims = filter_by has_digit (paragraphs_of content) in
    record { cited = length (filter_by is_cited claims); claims = length claims }

-- `_metric_stated_as_number`
unfoldable pub metric_stated_as_number : Text → Text → Bool
metric_stated_as_number content phrase =
    any (λ s. occurs_in (literal_i (lower phrase)) s && occurs_in percent_pattern s)
      (sentences_of content)

abbrev pub outcome : CheckKind → Bool → CheckOutcome
outcome k b = record { kind = k; passed = b }

-- A check for a key that may be absent.
abbrev pub declared {ℓ} : {A : Type ℓ} → Option A → (A → List CheckOutcome) → List CheckOutcome
declared none f = []
declared (some a) f = f a

-- One token of `must_contain_not_found`; a token that is no question is passed over.
unfoldable pub token_check : List (ℕ × Text) → Text → List CheckOutcome
token_check blocks token = elim (match token_pattern token) [
  | none ↦ []
  | some m ↦
      outcome (states_not_found token) (states_missing blocks (int_from 0 (first_group m))) ∷ []
]

-- One item of the case, whose key may name a question or a metric.
unfoldable pub item_check : Text → List (ℕ × Text) → Text × Bool → List CheckOutcome
item_check content blocks (key, false) = []
item_check content blocks (key, true) = elim (match per_question_pattern key) [
  | some m ↦ outcome (flag key) (states_missing blocks (int_from 0 (first_group m))) ∷ []
  | none ↦ elim (match not_fabricated_pattern key) [
    | some m ↦
        outcome (flag key)
          (not (metric_stated_as_number content (replace_char b'_' b' ' (first_group m))))
        ∷ []
    | none ↦ []
  ]
]

unfoldable pub concat_map {ℓ} : {A : Type ℓ} → (A → List CheckOutcome) → List A → List CheckOutcome
concat_map f [] = []
concat_map f (x ∷ xs) = f x ++ concat_map f xs

-- `phrase.lower() in content.lower()`
abbrev pub contains : Text → Text → Bool
contains content phrase = has_substring (lower phrase) (lower content)

abbrev pub contains_any : Text → List Text → Bool
contains_any content phrases = any (contains content) phrases

-- The sections that the citations name.
unfoldable pub cited_sections : Text → List Text
cited_sections content =
    map (λ (i, m). elim (group_text 2 m.groups) [ none ↦ [] | some t ↦ lower (strip t) ])
      (find_iter citation_pattern content)

unfoldable pub cites_section : Text → Text → Bool
cites_section content name = any (has_substring (lower name)) (cited_sections content)

-- The count that the answer reports of upserted values.
unfoldable pub kpis_upserted : Text → ℕ
kpis_upserted content = elim (search_in kpi_upserted_pattern content) [
  | none ↦ 0
  | some (i, m) ↦ int_from 0 (first_group m)
]

unfoldable pub is_well_formed : Regex → Text → Bool
is_well_formed strict content =
    is_empty (filter_by (λ a. not (full_matches strict a)) (attempts_of content))

abbrev pub minimum : Case → ℕ
minimum c = elim c.min_citation_coverage [ none ↦ 95 | some p ↦ p ]

unfoldable pub prefix_checks : Case → Text → List CheckOutcome
prefix_checks c content =
    declared c.must_start_with (λ p. outcome must_start_with (starts_with (strip content) p) ∷ [])

unfoldable pub question_checks : Case → Text → List CheckOutcome
question_checks c content =
    let blocks = question_blocks content in
    map (λ q. outcome (question_answered q) (is_some (block_of q blocks))) c.must_answer_questions
    ++ (concat_map (token_check blocks) c.must_contain_not_found
        ++ concat_map (item_check content blocks) c.items)

unfoldable pub phrase_checks : Case → Text → List CheckOutcome
phrase_checks c content =
    map (λ p. outcome (forbidden p) (not (contains content p))) c.must_not_contain
    ++ (map (λ p. outcome (required p) (contains content p)) c.must_contain_all
        ++ (map (λ p. outcome (section p) (contains content p)) c.must_contain_sections
            ++ elim c.must_contain_any [
              | [] ↦ []
              | p ∷ ps ↦ outcome must_contain_any (contains_any content (p ∷ ps)) ∷ []
            ]))

unfoldable pub citation_checks : Case → Text → List CheckOutcome
citation_checks c content =
    declared c.must_contain_regex (λ p. outcome must_contain_regex (occurs_in p content) ∷ [])
    ++ (declared c.must_cite_sections (map (λ s. outcome (cites s) (cites_section content s)))
        ++ (outcome citation_coverage (at_least_pct (minimum c) (coverage_of content)) ∷ []))

unfoldable pub count_checks : Case → Text → List CheckOutcome
count_checks c content =
    declared c.max_word_count (λ n. outcome max_word_count (leb (word_count content) n) ∷ [])
    ++ (declared c.min_word_count (λ n. outcome min_word_count (leb n (word_count content)) ∷ [])
        ++ (declared c.all_citations_must_match_regex
              (λ p. outcome citation_format (is_well_formed p content) ∷ [])
            ++ declared c.min_kpis_upserted
                (λ n. outcome min_kpis_upserted (leb n (kpis_upserted content)) ∷ [])))

-- `_run_checks`
unfoldable pub run_checks : Case → Text → List CheckOutcome
run_checks c content =
    let rest =
      question_checks c content
      ++ (phrase_checks c content ++ (citation_checks c content ++ count_checks c content)) in
    prefix_checks c content ++ (if c.skip_citation_checks then [] else rest)
