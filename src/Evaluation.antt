-- ===== src/Evaluation.antt =====
-- The evaluation runner of eval/runners/run_eval.py: the cases of a golden dataset, run as tasks of
-- the live system, checked, and summed up in a report and an exit code.
pub mod Checks
pub mod Good
pub mod Accepts
pub mod Passes
pub mod Polling
pub mod Cases
pub mod Report
mod Examples
use stock_analyst.Shared.{ℕ, Text, List, Bool, Option, Error}
use stock_analyst.Shared.Regex.{Regex}
use stock_analyst.Message.{Coverage}

-- The name of a check, by the f-string that writes it.
pub data CheckKind : Type 0 where
  execution no_hallucinations must_start_with must_contain_any must_contain_regex : CheckKind
  citation_coverage max_word_count min_word_count citation_format min_kpis_upserted : CheckKind
  question_answered : ℕ → CheckKind
  states_not_found flag forbidden required section cites : Text → CheckKind

-- `CheckResult`; its detail, a sentence for the reader, is left out.
pub record CheckOutcome : Type 0 where
  pub kind : CheckKind
  pub passed : Bool

-- A test case, by the keys that the runner reads; the datasets have others, such as
-- `required_citation_format`, which it ignores. An absent key that the code tells from an empty value is `none`; a threshold of the
-- coverage is in percent. `items` are the keys of the dictionary in order, with the truth of their
-- values.
pub record Case : Type 0 where
  pub test_id : Text
  pub name : Text
  pub coverage_label : Text
  pub industry_name : Option Text
  pub new_document : Option Text
  pub max_hallucinations : Option ℕ
  pub must_start_with : Option Text
  pub skip_citation_checks : Bool
  pub must_answer_questions : List ℕ
  pub must_contain_not_found : List Text
  pub items : List (Text × Bool)
  pub must_not_contain : List Text
  pub must_contain_all : List Text
  pub must_contain_sections : List Text
  pub must_contain_any : List Text
  pub must_contain_regex : Option Regex
  pub must_cite_sections : Option (List Text)
  pub min_citation_coverage : Option ℕ
  pub max_word_count : Option ℕ
  pub min_word_count : Option ℕ
  pub all_citations_must_match_regex : Option Regex
  pub min_kpis_upserted : Option ℕ

-- `CaseResult`
pub record CaseResult : Type 0 where
  pub test_id : Text
  pub name : Text
  pub passed : Bool
  pub checks : List CheckOutcome
  pub citation_coverage_pct : Coverage
  pub hallucination_count : ℕ
  pub paraphrase_count : ℕ
  pub citations_found : ℕ
  pub latency_ms : ℕ
  pub llm_used : Option Text
  pub tokens_used : ℕ
  pub error : Option Error
