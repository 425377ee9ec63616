-- ===== src/Orchestrator/Tasks/Saves.antt =====
-- The agents that store their output themselves: the ends of `_execute` of lynch_pitch/agent.py,
-- munger_invert/agent.py and earnings_monitor/agent.py, with the `save_` functions of their tools.
use stock_analyst.Shared.{ℕ, Text, List, [], ◌∷◌, Bool, false, if◌then◌else◌}
use stock_analyst.Streaming.{Progress}
use stock_analyst.Message.{AgentOutput, AgentType, lynch_pitch, munger_invert, earnings_monitor}
use stock_analyst.Enforcer.Validate.{ValidationResult}
use stock_analyst.Orchestrator.Tasks.{
  returned, TaskRow, OutputType, quarterly_update, ResearchOutput, AgentRun,
}

abbrev pub IsSaver : AgentType → Type 0
IsSaver lynch_pitch = Unit
IsSaver munger_invert = Unit
IsSaver earnings_monitor = Unit
IsSaver _ = ⊥

-- The type of the row, by the function that saves it.
abbrev pub saved_type : AgentType → OutputType
saved_type lynch_pitch = OutputType.lynch_pitch
saved_type munger_invert = OutputType.munger_invert
saved_type _ = quarterly_update

-- `approved_by_enforcer` of the output that is returned: two of the agents leave it at its default.
abbrev pub returned_approval : AgentType → Bool → Bool
returned_approval earnings_monitor is_approved = is_approved
returned_approval _ is_approved = false

-- The row of `save_bull_case`, `save_bear_case` or `save_quarterly_update`, from the draft and the
-- enforcer's result.
abbrev pub saved_row : AgentType → TaskRow → ℕ → AgentOutput → ValidationResult → ResearchOutput
saved_row agent t coverage draft v = record {
  coverage_id = coverage;
  tenant_id = t.tenant_id;
  output_type = saved_type agent;
  content = draft.content;
  citations = draft.citations;
  citation_coverage_pct = v.citation_coverage_pct;
  approved_by_enforcer = v.is_approved;
  enforcer_status = v.enforcer_status;
  llm_used = draft.llm_used;
  tokens_used = draft.tokens_used;
}

-- The output that is returned; `BaseAgent.run` sets the latency.
abbrev pub returned_output : AgentType → Text → ℕ → AgentOutput → ValidationResult → AgentOutput
returned_output agent output_id latency draft v = record draft {
  message_id = output_id;
  citation_coverage_pct = v.citation_coverage_pct;
  latency_ms = latency;
  approved_by_enforcer = returned_approval agent v.is_approved;
  enforcer_status = v.enforcer_status;
}

-- A run that comes to the end of `_execute`.
unfoldable pub saving_run :
    AgentType → TaskRow → ℕ → List Progress → Text → ℕ → AgentOutput → ValidationResult → AgentRun
saving_run agent t coverage progressed output_id latency draft v = record {
  progressed = progressed;
  saved = saved_row agent t coverage draft v ∷ [];
  outcome = returned (returned_output agent output_id latency draft v);
}

-- The runner's own row: of the three agents only the earnings monitor returns its approval.
abbrev pub repeated : AgentType → ResearchOutput → List ResearchOutput
repeated earnings_monitor row = if row.approved_by_enforcer then row ∷ [] else []
repeated _ row = []
