-- ===== src/Evaluation/Cases.antt =====
-- A run of the golden dataset of run_eval.py: a case is dispatched, polled, checked and scored, one
-- case after the other. The HTTP client and the clock are parameters; the scores are those of the
-- modelled enforcer, which has no session here.
use stock_analyst.Shared.{
  ℕ, Text, codes, List, [], ◌∷◌, ◌++◌, Bool, false, Option, none, some, leb, length, all, Raises,
  ok, raised, failure, ◌>>=◌, Error,
}
use stock_analyst.Shared.Regex.{find_iter}
use stock_analyst.Message.{
  AgentType, industry_analyst, earnings_monitor, AgentOutput, EnforcerStatus,
}
use stock_analyst.Orchestrator.Tasks.{failed}
use stock_analyst.Enforcer.Patterns.{citation_pattern}
use stock_analyst.Enforcer.Quotes.{QuoteSearch}
use stock_analyst.Enforcer.Validate.{validate}
use stock_analyst.Normalizer.{lookup}
use stock_analyst.Evaluation.{Case, CaseResult, CheckOutcome, execution, no_hallucinations}
use stock_analyst.Evaluation.Checks.{run_checks, coverage_of, outcome}
use stock_analyst.Evaluation.Polling.{Answer, TaskView, poll_task}

-- The manifest of the fixtures: what the labels of coverages and the names of documents stand for.
pub record Entry : Type 0 where
  pub coverage_id : Text
  pub documents : List (Text × Text)

pub record Manifest : Type 0 where
  pub tenant_id : Text
  pub coverages : List (Text × Entry)

-- The body of the request that dispatches a case.
pub data Dispatch : Type 0 where
  industry_analysis : Text → Dispatch
  quarterly_update : Text → Dispatch
  default : AgentType → Dispatch

-- The server, by coverage and by task: a dispatch gives a task, and a task is read time and again,
-- with the clock at the start of the polling and at each deadline test.
pub record EvalClient : Type 0 where
  pub post : Text → Dispatch → Raises Text
  pub get : Text → ℕ → Raises TaskView
  pub started : Text → ℕ
  pub clock : Text → ℕ → ℕ

-- `d[key]`, which raises where the key is missing
abbrev pub found_or_raise {ℓ} : {A : Type ℓ} → Option A → Raises A
found_or_raise none = raised failure
found_or_raise (some a) = ok a

unfoldable pub resolve_coverage_id : Manifest → Text → Raises Text
resolve_coverage_id m label = do
  entry ← found_or_raise (lookup label m.coverages)
  ok entry.coverage_id

unfoldable pub resolve_document_id : Manifest → Text → Text → Raises Text
resolve_document_id m label name = do
  entry ← found_or_raise (lookup label m.coverages)
  found_or_raise (lookup name entry.documents)

-- The request of a case, by the agent.
unfoldable pub dispatch_of : AgentType → Manifest → Case → Raises Dispatch
dispatch_of industry_analyst m c = do
  name ← found_or_raise c.industry_name
  ok (industry_analysis name)
dispatch_of earnings_monitor m c = do
  name ← found_or_raise c.new_document
  document ← resolve_document_id m c.coverage_label name
  ok (quarterly_update document)
dispatch_of agent m c = ok (default agent)

abbrev pub no_answer : Answer
no_answer = record { content = []; llm_used = none; tokens_used = 0 }

-- A failed task raises; a task without a result has an empty answer.
unfoldable pub answer_of : TaskView → Raises Answer
answer_of task = elim task.status [
  | failed ↦ raised failure
  | _ ↦ ok (elim task.result [ none ↦ no_answer | some a ↦ a ])
]

-- `_execute_case`
unfoldable pub execute_case : AgentType → Manifest → EvalClient → Case → Raises Answer
execute_case agent m client c = do
  coverage ← resolve_coverage_id m c.coverage_label
  body ← dispatch_of agent m c
  task_id ← client.post coverage body
  task ← poll_task (client.get task_id) (client.clock task_id) (client.started task_id)
  answer_of task

-- The output that the enforcer is given.
abbrev pub output_of : AgentType → Text → Text → Text → AgentOutput
output_of agent tenant coverage content = record {
  message_id = codes "eval";
  agent = agent;
  task_id = codes "eval";
  coverage_id = coverage;
  tenant_id = tenant;
  content = content;
  citations = [];
  citation_coverage_pct = record { cited = 0; claims = 1 };
  llm_used = [];
  tokens_used = 0;
  latency_ms = 0;
  approved_by_enforcer = false;
  enforcer_status = EnforcerStatus.pending;
  error = none;
}

-- Hallucinations, paraphrases and citations.
pub record Scores : Type 0 where
  pub hallucinations : ℕ
  pub paraphrases : ℕ
  pub citations : ℕ

abbrev pub no_scores : Scores
no_scores = record { hallucinations = 0; paraphrases = 0; citations = 0 }

-- `_score_hallucinations`; the search is bound to the tenant and the coverage.
unfoldable pub score_hallucinations :
    AgentType → Manifest → (Text → Text → QuoteSearch) → Case → Text → Raises Scores
score_hallucinations agent m search c content = elim (find_iter citation_pattern content) [
  | [] ↦ ok no_scores
  | q ∷ qs ↦ do
    coverage ← resolve_coverage_id m c.coverage_label
    (result, rows) ←
        validate (λ _. none) (search m.tenant_id coverage) false
          (output_of agent m.tenant_id coverage content) m.tenant_id coverage
    ok (record {
      hallucinations = result.hallucination_count;
      paraphrases = length result.paraphrase_warnings;
      citations = length (q ∷ qs);
    })
]

abbrev pub allowed : Case → ℕ
allowed c = elim c.max_hallucinations [ none ↦ 0 | some n ↦ n ]

abbrev pub check_passes : CheckOutcome → Bool
check_passes k = k.passed

-- The result of a case whose execution raises.
unfoldable pub failed_result : Case → ℕ → Error → CaseResult
failed_result c elapsed e = record {
  test_id = c.test_id;
  name = c.name;
  passed = false;
  checks = outcome execution false ∷ [];
  citation_coverage_pct = record { cited = 0; claims = 1 };
  hallucination_count = 0;
  paraphrase_count = 0;
  citations_found = 0;
  latency_ms = elapsed;
  llm_used = none;
  tokens_used = 0;
  error = some e;
}

unfoldable pub checks_of_case : Case → Text → Scores → List CheckOutcome
checks_of_case c content s =
    run_checks c content ++ (outcome no_hallucinations (leb s.hallucinations (allowed c)) ∷ [])

unfoldable pub scored_result : Case → ℕ → Answer → Scores → CaseResult
scored_result c elapsed a s =
    let checks = checks_of_case c a.content s in
    record {
      test_id = c.test_id;
      name = c.name;
      passed = all check_passes checks;
      checks = checks;
      citation_coverage_pct = coverage_of a.content;
      hallucination_count = s.hallucinations;
      paraphrase_count = s.paraphrases;
      citations_found = s.citations;
      latency_ms = elapsed;
      llm_used = a.llm_used;
      tokens_used = a.tokens_used;
      error = none;
    }

-- `run_case` : what the execution raises is a failed result, what the scoring raises is not caught.
unfoldable pub run_case :
    AgentType
    → Manifest
    → EvalClient
    → (Text → Text → QuoteSearch)
    → (Case → ℕ)
    → Case
    → Raises CaseResult
run_case agent m client search elapsed c = elim (execute_case agent m client c) [
  | raised e ↦ ok (failed_result c (elapsed c) e)
  | ok a ↦ do
    scores ← score_hallucinations agent m search c a.content
    ok (scored_result c (elapsed c) a scores)
]

-- `run_all`, over the runs of the cases
unfoldable pub run_all : (Case → Raises CaseResult) → List Case → Raises (List CaseResult)
run_all run [] = ok []
run_all run (c ∷ cs) = do result ← run c; results ← run_all run cs; ok (result ∷ results)
