-- ===== src/Orchestrator/Graph.antt =====
-- The research workflow of packages/agents/src/agents/orchestrator/graph.py: its nodes and edges,
-- the two routing functions, and the citation validation node. The nodes that the file leaves to
-- the agents are a parameter; `stubs` is what it has for them today.
pub mod Steps
pub mod Retries
use stock_analyst.Shared.{
  ℕ, zero, suc, ◌+◌, Text, codes, List, [], ◌∷◌, ◌++◌, Bool, true, false, not, Option, none, some,
  ltb, same_text, if◌then◌else◌, Raises, ok, raised, Error, ◌>>=◌,
}
use stock_analyst.Message.{AgentOutput, EnforcerStatus}
use stock_analyst.Enforcer.Quotes.{QuoteSearch}
use stock_analyst.Enforcer.Validate.{validate, Line, ValidationResult}

pub data Node : Type 0 where
  coverage_init industry_analysis doc_ingestion lynch_pitch : Node
  munger_invert citation_validation quarterly_monitor prerequisite_error : Node

-- The `output` dictionary: an agent's output, and the keys that the validation node adds.
pub record Draft : Type 0 where
  pub output : AgentOutput
  pub retry_count : Option ℕ
  pub retry_prompt : Option (List Line)
  pub hallucination_count : Option ℕ

pub record CoverageState : Type 0 where
  pub coverage_id : Text
  pub tenant_id : Text
  pub user_intent : Text
  pub current_step : Text
  pub prerequisites_met : Bool
  pub missing_prerequisites : List Text
  pub industry_loaded : Bool
  pub documents_loaded : Bool
  pub min_filings_present : Bool
  pub lynch_pitch_complete : Bool
  pub munger_invert_complete : Bool
  pub quarterly_monitor_active : Bool
  pub task_history : List Text
  pub output : Option Draft
  pub error : Option Text

pub data InitRoute : Type 0 where
  industry ingest lynch munger quarterly missing_prerequisites : InitRoute

intent_map : Text → InitRoute
intent_map t =
    if same_text t (codes "industry")
    then industry
    else if same_text t (codes "documents")
    then ingest
    else if same_text t (codes "bull")
    then lynch
    else if same_text t (codes "bear")
    then munger
    else if same_text t (codes "quarterly")
    then quarterly
    else missing_prerequisites

unfoldable pub route_from_init : CoverageState → InitRoute
unfolding intent_map
route_from_init s =
    if not s.prerequisites_met then missing_prerequisites else intent_map s.user_intent

-- The edges out of `coverage_init`.
abbrev pub init_target : InitRoute → Node
init_target industry = industry_analysis
init_target ingest = doc_ingestion
init_target lynch = lynch_pitch
init_target munger = munger_invert
init_target quarterly = quarterly_monitor
init_target missing_prerequisites = prerequisite_error

pub data CitationRoute : Type 0 where
  approved retry partial failed : CitationRoute

abbrev pub retries : CoverageState → ℕ
retries s = elim s.output [ none ↦ 0 | some d ↦ elim d.retry_count [ none ↦ 0 | some n ↦ n ] ]

abbrev pub status : CoverageState → EnforcerStatus
status s = elim s.output [ none ↦ EnforcerStatus.pending | some d ↦ d.output.enforcer_status ]

abbrev route_unapproved : EnforcerStatus → ℕ → CitationRoute
route_unapproved st n =
    if ltb n 3 then retry else elim st [ EnforcerStatus.partial ↦ partial | _ ↦ failed ]

unfoldable pub route_citation_result : CoverageState → CitationRoute
route_citation_result s = elim (status s) [
  | EnforcerStatus.approved ↦ approved
  | _ ↦ route_unapproved (status s) (retries s)
]

-- The edges out of `citation_validation`; `none` is END.
abbrev pub citation_target : CitationRoute → Option Node
citation_target approved = none
citation_target retry = some lynch_pitch
citation_target partial = none
citation_target failed = none

unfoldable pub next_node : Node → CoverageState → Option Node
next_node coverage_init s = some (init_target (route_from_init s))
next_node industry_analysis s = some citation_validation
next_node lynch_pitch s = some citation_validation
next_node munger_invert s = some citation_validation
next_node citation_validation s = citation_target (route_citation_result s)
next_node doc_ingestion s = none
next_node quarterly_monitor s = none
next_node prerequisite_error s = none

-- The nodes that the agents supply.
abbrev pub Handlers : Type 0
Handlers = Node → CoverageState → Raises CoverageState

unfoldable pub stubs : Handlers
stubs n s = raised Error.not_implemented

-- The node's update of the state, from the enforcer's result.
abbrev pub record_result : CoverageState → Draft → ValidationResult → CoverageState
record_result s d r = record s {
  output = some (record {
    output = record d.output {
      citation_coverage_pct = r.citation_coverage_pct;
      approved_by_enforcer = r.is_approved;
      enforcer_status = r.enforcer_status;
    };
    retry_count =
        some (elim d.retry_count [ none ↦ 0 | some n ↦ n ] + (if r.is_approved then 0 else 1));
    retry_prompt = r.retry_prompt;
    hallucination_count = some r.hallucination_count;
  });
}

-- How a run ends.
pub data Outcome : Type 0 where
  finished : CoverageState → Outcome
  crashed : Error → Outcome
  out_of_fuel : Outcome

module _ (parse : Text → Option ℕ) (store : Text → Text → QuoteSearch) (handlers : Handlers) where
  -- `AgentOutput(**{})` raises where no agent has left an output.
  unfoldable pub citation_validation_node : CoverageState → Raises CoverageState
  citation_validation_node s = elim s.output [
    | none ↦ raised Error.value_error
    | some d ↦
        validate parse (store s.tenant_id s.coverage_id) false d.output s.tenant_id s.coverage_id
        >>= λ r. ok (record_result s d r.0)
  ]

  unfoldable pub answer_of_node : Node → CoverageState → Raises CoverageState
  answer_of_node citation_validation s = citation_validation_node s
  answer_of_node n s = handlers n s

  -- The state after a node: what it returns, but for the log, to which the reducer `operator.add`
  -- appends what it returns.
  abbrev pub reduced : CoverageState → CoverageState → CoverageState
  reduced s u = record u { task_history = s.task_history ++ u.task_history }

  unfoldable pub visit : Node → CoverageState → Raises CoverageState
  visit n s = answer_of_node n s >>= λ u. ok (reduced s u)

  -- A run: the nodes visited, and how it ended.
  unfoldable pub run : ℕ → Node → CoverageState → List Node × Outcome
  run zero n s = ([], out_of_fuel)
  run (suc fuel) n s = elim (visit n s) [
    | raised e ↦ (n ∷ [], crashed e)
    | ok s' ↦ elim (next_node n s') [
      | none ↦ (n ∷ [], finished s')
      | some m ↦ let (rest, outcome) = run fuel m s' in (n ∷ rest, outcome)
    ]
  ]
