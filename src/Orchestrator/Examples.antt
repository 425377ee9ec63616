-- ===== src/Orchestrator/Examples.antt =====
-- Runs of the workflow graph and of the task runner on small inputs.
use stock_analyst.Shared.{
  ℕ, ◌≤◌, Text, codes, List, [], ◌∷◌, Bool, true, false, Option, none, some, ◌≡◌, refl, length, ok,
  arith, All, Error, sym, ap, ok-injective,
}
use stock_analyst.Streaming.{chunk}
use stock_analyst.Message.{AgentOutput, AgentType, EnforcerStatus}
use stock_analyst.Enforcer.Quotes.{QuoteSearch}
use stock_analyst.Orchestrator.Graph.{
  Node, CoverageState, retries, Handlers, stubs, run, visit, answer_of_node, crashed,
}
use stock_analyst.Orchestrator.Graph.Retries.{
  IsSettled, validations, KeepsCount, research_run_settles, IsRetryNode, research_visited_once,
}
use stock_analyst.Orchestrator.Tasks.{
  Agents, returned, threw, World, TaskRow, TaskStatus, execute, set_task_status,
  resolve_agent_class, registered, run_agent, stored_output,
}
use stock_analyst.Orchestrator.Tasks.Lifecycle.{Settles, execute-Settles}
use stock_analyst.Orchestrator.Tasks.Saves.{saving_run}
use stock_analyst.Enforcer.Validate.{ValidationResult}

abbrev output : Bool → EnforcerStatus → Text → AgentOutput
output approved status content = record {
  message_id = codes "m";
  agent = AgentType.lynch_pitch;
  task_id = codes "t";
  coverage_id = codes "c";
  tenant_id = codes "n";
  content = content;
  citations = [];
  citation_coverage_pct = record { cited = 0; claims = 0 };
  llm_used = codes "llama";
  tokens_used = 10;
  latency_ms = 20;
  approved_by_enforcer = approved;
  enforcer_status = status;
  error = none;
}

abbrev parse : Text → Option ℕ
parse t = some (length t)

-- A store that holds nothing.
abbrev store : Text → Text → QuoteSearch
store tenant coverage = record { Chunk = ℕ; exact = λ q. ok none; semantic = λ q. ok none }

abbrev state : CoverageState
state = record {
  coverage_id = codes "c";
  tenant_id = codes "n";
  user_intent = codes "bull";
  current_step = codes "";
  prerequisites_met = true;
  missing_prerequisites = [];
  industry_loaded = true;
  documents_loaded = true;
  min_filings_present = true;
  lynch_pitch_complete = false;
  munger_invert_complete = false;
  quarterly_monitor_active = false;
  task_history = [];
  output = some (record {
    output = output false EnforcerStatus.pending (codes "Sales will grow.");
    retry_count = none;
    retry_prompt = none;
    hallucination_count = none;
  });
  error = none;
}

-- Agents that leave the draft as it is.
abbrev idle : Handlers
idle n s = ok s

idle-KeepsCount : KeepsCount parse store idle
idle-KeepsCount s s' h = sym (ap retries (ok-injective _ _ h))

research_run_settles_example :
    let (trace, o) = run parse store idle 6 Node.munger_invert state in
    IsSettled o × (validations trace ≤ 3)
research_run_settles_example =
    research_run_settles parse store idle idle-KeepsCount Node.munger_invert tt 6 state
      (omega arith)

research_visited_once_example :
    (rest : List Node) × ((run parse store idle 6 Node.munger_invert state).0
      ≡ Node.munger_invert ∷ rest)
    × All (IsRetryNode parse store idle) rest
research_visited_once_example = research_visited_once parse store idle 5 Node.munger_invert state tt

-- The nodes as they stand raise.
stubs_crash :
    run parse store stubs 6 Node.coverage_init state
    ≡ (Node.coverage_init ∷ [], crashed Error.not_implemented)
unfolding run visit answer_of_node stubs
stubs_crash = refl

-- The log of a node that returns the state with its log is doubled.
log_doubled :
    visit parse store idle Node.munger_invert (record state { task_history = codes "a" ∷ [] })
    ≡ ok (record state { task_history = codes "a" ∷ codes "a" ∷ [] })
unfolding visit answer_of_node
log_doubled = refl

abbrev row : TaskRow
row = record {
  tenant_id = 4;
  coverage_id = some 9;
  status = TaskStatus.queued;
  started_at = none;
  completed_at = none;
  error = none;
  result = none;
}

abbrev world : World
world = record { task = some row; events = []; outputs = []; acts = [] }

-- One agent has an approved output, the others raise.
abbrev agents : Agents
agents AgentType.lynch_pitch t = record {
  progressed = chunk (codes "Sales.") [] ∷ [];
  saved = [];
  outcome = returned (output true EnforcerStatus.approved (codes "Sales."));
}
agents _ t = record { progressed = []; saved = []; outcome = threw (codes "boom") }

execute-Settles_example : Settles 8 row world (execute agents 3 8 (codes "lynch_pitch") world)
execute-Settles_example = execute-Settles agents 3 8 (codes "lynch_pitch") world row refl

-- The verdict of an approval, and one that is partial.
abbrev result : Bool → EnforcerStatus → ValidationResult
result is_approved status = record {
  is_approved = is_approved;
  enforcer_status = status;
  failed_checks = [];
  citation_coverage_pct = record { cited = 9; claims = 10 };
  retry_prompt = none;
  hallucination_count = 0;
  paraphrase_warnings = [];
}

-- The agents that save what they wrote.
abbrev saving : ValidationResult → Agents
saving v agent t =
    saving_run agent t 9 [] (codes "o") 20 (output false EnforcerStatus.pending (codes "Sales.")) v

abbrev good : ValidationResult
good = result true EnforcerStatus.approved

-- The runner stores what is returned as approved; a failed run, and the agent whose package is
-- missing, store nothing. Of the agents that save, the pitch is stored once, also where it was not
-- approved, and an approved quarterly update twice.
stored_counts :
    (length (execute agents 3 8 (codes "lynch_pitch") world).outputs ≡ 1)
    × (length (execute agents 3 8 (codes "kpi_tracker") world).outputs ≡ 0)
    × (length (execute agents 3 8 (codes "document_ingestion") world).outputs ≡ 0)
unfolding execute set_task_status resolve_agent_class registered run_agent stored_output
stored_counts = (refl, refl, refl)

saved_counts :
    (length (execute (saving good) 3 8 (codes "lynch_pitch") world).outputs ≡ 1)
    × (length
          (execute
            (saving (result false EnforcerStatus.partial))
            3
            8
            (codes "munger_invert")
            world).outputs
        ≡ 1)
    × (length (execute (saving good) 3 8 (codes "earnings_monitor") world).outputs ≡ 2)
unfolding execute set_task_status resolve_agent_class registered run_agent stored_output saving_run
saved_counts = (refl, refl, refl)
