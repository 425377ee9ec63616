-- ===== src/Message.antt =====
-- The envelope of packages/agents/src/agents/shared/message.py: who speaks, and what an agent
-- returns. Identifiers are texts, as the source passes them.
use stock_analyst.Shared.{ℕ, ◌*◌, Text, codes, List, Bool, ◌||◌, Option, leb, ◌==◌}

pub data AgentType : Type 0 where
  orchestrator industry_analyst document_ingestion lynch_pitch : AgentType
  munger_invert earnings_monitor kpi_tracker citation_enforcer : AgentType

-- The values of the enumeration.
abbrev pub agent_value : AgentType → Text
agent_value orchestrator = codes "orchestrator"
agent_value industry_analyst = codes "industry_analyst"
agent_value document_ingestion = codes "document_ingestion"
agent_value lynch_pitch = codes "lynch_pitch"
agent_value munger_invert = codes "munger_invert"
agent_value earnings_monitor = codes "earnings_monitor"
agent_value kpi_tracker = codes "kpi_tracker"
agent_value citation_enforcer = codes "citation_enforcer"

pub data EnforcerStatus : Type 0 where
  pending approved partial failed : EnforcerStatus

-- `len(cited) / len(claims)`, and 1.0 with no claims. A double quotient of two lengths compares
-- with 0.95 and 0.80 as the exact fraction does: they differ by far more than a rounding step.
pub record Coverage : Type 0 where
  pub cited : ℕ
  pub claims : ℕ

-- `coverage >= pct / 100`
abbrev pub at_least_pct : ℕ → Coverage → Bool
at_least_pct pct c = c.claims == 0 || leb (pct * c.claims) (100 * c.cited)

pub record Citation : Type 0 where
  pub doc : Text
  pub section : Text
  pub quote : Text

pub record AgentOutput : Type 0 where
  pub message_id : Text
  pub agent : AgentType
  pub task_id : Text
  pub coverage_id : Text
  pub tenant_id : Text
  pub content : Text
  pub citations : List Citation
  pub citation_coverage_pct : Coverage
  pub llm_used : Text
  pub tokens_used : ℕ
  pub latency_ms : ℕ
  pub approved_by_enforcer : Bool
  pub enforcer_status : EnforcerStatus
  pub error : Option Text
