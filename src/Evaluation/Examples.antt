-- ===== src/Evaluation/Examples.antt =====
-- A case with a question that the documents do not answer, a poll, and a run of two cases.
use stock_analyst.Shared.{
  ℕ, zero, suc, ◌*◌, ◌+◌, ◌≤◌, Text, codes, [], ◌∷◌, ◌++◌, true, false, none, some, Raises, ok,
  raised, failure, All, refl, ◌≡◌, ◌≢◌, ◌↔◌, arith,
}
use stock_analyst.Shared.Regex.{match, search_in, occurs_in, find_iter, split}
use stock_analyst.Message.{lynch_pitch}
use stock_analyst.Orchestrator.Tasks.{running, completed}
use stock_analyst.Enforcer.Patterns.{citation_pattern, sentence_break}
use stock_analyst.Enforcer.Checks.{paragraphs_of, has_digit, is_cited, sentences_of}
use stock_analyst.Enforcer.Quotes.{
  QuoteSearch, check_quotes_exist_in_rag, judge_all, judge, citations_of,
}
use stock_analyst.Enforcer.Validate.{validate}
use stock_analyst.Normalizer.{lookup}
use stock_analyst.Evaluation.{Case, CaseResult, must_start_with}
use stock_analyst.Evaluation.Checks.{
  header_pattern, token_pattern, per_question_pattern, not_fabricated_pattern, percent_pattern,
  int_from, blocks_from, question_blocks, block_of, states_missing, coverage_of,
  metric_stated_as_number, token_check, item_check, concat_map, prefix_checks, question_checks,
  phrase_checks, citation_checks, count_checks, run_checks, outcome,
}
use stock_analyst.Evaluation.Polling.{
  Answer, TaskView, poll_from, poll_task, poll_timeout, poll_task-Ends, Polled,
}
use stock_analyst.Evaluation.Cases.{
  Manifest, EvalClient, Scores, resolve_coverage_id, dispatch_of, answer_of, execute_case,
  score_hallucinations, checks_of_case, scored_result, run_case, run_all,
}
use stock_analyst.Evaluation.Accepts.{IsAccepted}
use stock_analyst.Evaluation.Passes.{IsAnswered, run_case-passed}
use stock_analyst.Evaluation.Report.{exit_code, pass_rate, HasPassed, exit_code-run_all}

-- The answer asserts no margin, and says of question 1 what it has to say.
abbrev answer_text : Text
answer_text = codes "### Q1: Moat" ++ (10 ∷ codes "Not found in uploaded documents.")

abbrev question_case : Case
question_case = record {
  test_id = codes "LP-001";
  name = codes "missing";
  coverage_label = codes "NEWCO";
  industry_name = none;
  new_document = none;
  max_hallucinations = none;
  must_start_with = some (codes "###");
  skip_citation_checks = false;
  must_answer_questions = 1 ∷ [];
  must_contain_not_found = codes "Q1" ∷ codes "moat" ∷ [];
  items = (codes "test_id", true) ∷ (codes "must_not_state_net_margin", true) ∷ [];
  must_not_contain = [];
  must_contain_all = codes "MOAT" ∷ [];
  must_contain_sections = [];
  must_contain_any = [];
  must_contain_regex = none;
  must_cite_sections = none;
  min_citation_coverage = some 0;
  max_word_count = some 10;
  min_word_count = some 8;
  all_citations_must_match_regex = none;
  min_kpis_upserted = none;
}

abbrev view : TaskView
view = record {
  status = completed;
  result = some (record { content = answer_text; llm_used = none; tokens_used = 7 });
}

abbrev waiting : TaskView
waiting = record { status = running; result = none }

-- The second read of a task finds it completed.
abbrev reply : ℕ → Raises TaskView
reply zero = ok waiting
reply (suc n) = ok view

abbrev ticking : ℕ → ℕ
ticking n = 5 + 2000 * n

abbrev client : EvalClient
client = record {
  post = λ coverage body. ok (codes "t");
  get = λ task n. reply n;
  started = λ task. 5;
  clock = λ task n. ticking n;
}

abbrev manifest : Manifest
manifest = record {
  tenant_id = codes "a";
  coverages = (codes "NEWCO", record { coverage_id = codes "c"; documents = [] }) ∷ [];
}

abbrev search : Text → Text → QuoteSearch
search tenant coverage = record {
  Chunk = Unit;
  exact = λ q. raised failure;
  semantic = λ q. raised failure;
}

abbrev run_one : Case → Raises CaseResult
run_one = run_case lynch_pitch manifest client search (λ c. 2000)

abbrev the_answer : Answer
the_answer = record { content = answer_text; llm_used = none; tokens_used = 7 }

abbrev the_scores : Scores
the_scores = record { hallucinations = 0; paraphrases = 0; citations = 0 }

abbrev question_result : CaseResult
question_result = scored_result question_case 2000 the_answer the_scores

polls : poll_task reply ticking 5 ≡ ok view
unfolding poll_task poll_from
polls = refl

runs : run_one question_case ≡ ok question_result
unfolding run_case execute_case resolve_coverage_id dispatch_of answer_of lookup poll_task poll_from
    score_hallucinations find_iter citation_pattern
runs = refl

passes : question_result.passed ≡ true
unfolding scored_result checks_of_case run_checks prefix_checks question_checks phrase_checks
    citation_checks count_checks token_check item_check concat_map question_blocks blocks_from
    block_of states_missing int_from coverage_of metric_stated_as_number paragraphs_of has_digit
    is_cited sentences_of find_iter match occurs_in search_in split citation_pattern header_pattern
    token_pattern per_question_pattern not_fabricated_pattern percent_pattern sentence_break
passes = refl

-- A case that skips the citation checks asks nothing but its prefix: neither coverage nor sections.
skipped :
    run_checks
      (record question_case {
        skip_citation_checks = true;
        min_citation_coverage = some 95;
        must_contain_sections = codes "MOAT 9" ∷ [];
      })
      (codes "### Q2: Revenue was 5 in 2023.")
    ≡ outcome must_start_with true ∷ []
unfolding run_checks prefix_checks
skipped = refl

abbrev cited_view : TaskView
cited_view = record {
  status = completed;
  result = some (record {
    content = codes "[D, S]: " ++ (34 ∷ codes "quoted text" ++ (34 ∷ []));
    llm_used = none;
    tokens_used = 7;
  });
}

-- A search that raises while a case is scored ends the whole run.
crashes :
    run_all
      (run_case lynch_pitch manifest
        (record client { get = λ task n. ok cited_view })
        search
        (λ c. 2000))
      (question_case ∷ [])
    ≡ raised failure
unfolding run_all run_case execute_case resolve_coverage_id dispatch_of answer_of lookup poll_task
    poll_from score_hallucinations find_iter citation_pattern validate check_quotes_exist_in_rag
    judge_all judge citations_of
crashes = refl

-- With no case at all, the run does not succeed.
empty_dataset : exit_code [] ≡ 1
unfolding exit_code pass_rate
empty_dataset = refl

poll_task-Ends_example :
    (n : ℕ) × (n ≤ 151) × Polled reply ticking (5 + poll_timeout) 0 n (poll_task reply ticking 5)
poll_task-Ends_example = poll_task-Ends reply ticking 5 (omega arith) (λ i. omega arith)

run_case-passed_example : (question_result.passed ≡ true) ↔ (
    (a : Answer) × (s : Scores) × IsAnswered lynch_pitch manifest client search
      (λ c. 2000)
      question_case
      a
      s
    × IsAccepted question_case a.content s.hallucinations)
run_case-passed_example =
    run_case-passed lynch_pitch manifest client search (λ c. 2000) question_case runs

run_two :
    run_all run_one (question_case ∷ question_case ∷ [])
    ≡ ok (question_result ∷ question_result ∷ [])
unfolding run_all
run_two = rw runs refl

exit_code-run_all_example : (exit_code (question_result ∷ question_result ∷ []) ≡ 0) ↔ (
    ((question_case ∷ question_case ∷ []) ≢ [])
    × All (HasPassed run_one) (question_case ∷ question_case ∷ []))
exit_code-run_all_example = exit_code-run_all run_one (question_case ∷ question_case ∷ []) run_two
