-- ===== src/Orchestrator/Tasks.antt =====
-- The task runner of packages/agents/src/agents/orchestrator/tasks.py: one dispatched task, from
-- its row in `task_queue` to its final status, with the events published on the way.
pub mod Runs
pub mod Lifecycle
pub mod Storage
pub mod Saves
use stock_analyst.Shared.{
  ℕ, Text, codes, List, [], ◌∷◌, ◌++◌, map, Bool, true, false, ◌&&◌, Option, none, some, take,
  same_text, if◌then◌else◌, ◌≡◌, refl, ◌⊎◌, inl, inr,
}
use stock_analyst.Shared.Regex.{is_some}
use stock_analyst.Streaming.{Progress, starting}
use stock_analyst.Message.{
  AgentOutput, AgentType, industry_analyst, document_ingestion, earnings_monitor, kpi_tracker,
  agent_value, Citation, Coverage, EnforcerStatus,
}

pub data TaskStatus : Type 0 where
  queued running completed failed cancelled : TaskStatus

-- A row of `task_queue`. Times are ticks of the clock.
pub record TaskRow : Type 0 where
  pub tenant_id : ℕ
  pub coverage_id : Option ℕ
  pub status : TaskStatus
  pub started_at : Option ℕ
  pub completed_at : Option ℕ
  pub error : Option Text
  pub result : Option AgentOutput

pub data Event : Type 0 where
  progress : Progress → Event
  complete : Text → Coverage → Text → Event
  partial : Text → Coverage → Event
  error : Text → Event

-- The types after which a subscriber stops listening (packages/shared/src/shared/streaming.py).
abbrev pub is_terminal : Event → Bool
is_terminal (progress _) = false
is_terminal _ = true

pub data OutputType : Type 0 where
  industry_primer lynch_pitch munger_invert quarterly_update kpi_snapshot : OutputType

-- A row of `research_outputs`.
pub record ResearchOutput : Type 0 where
  pub coverage_id : ℕ
  pub tenant_id : ℕ
  pub output_type : OutputType
  pub content : Text
  pub citations : List Citation
  pub citation_coverage_pct : Coverage
  pub approved_by_enforcer : Bool
  pub enforcer_status : EnforcerStatus
  pub llm_used : Text
  pub tokens_used : ℕ

-- What the runner does to the row and to the channel of its task.
pub data Act : Type 0 where
  set : TaskRow → Act
  publish : Event → Act

-- What the runner reads and writes: the task's row, the channel of the task, the outputs; and the
-- acts on the row and the channel, in the order in which they are done.
pub record World : Type 0 where
  pub task : Option TaskRow
  pub events : List Event
  pub outputs : List ResearchOutput
  pub acts : List Act

-- `_AGENT_REGISTRY`
find_agent : Text → List AgentType → Option AgentType
find_agent name [] = none
find_agent name (a ∷ rest) =
    let later = find_agent name rest in if same_text name (agent_value a) then some a else later

unfoldable pub registered : Text → Option AgentType
unfolding find_agent
registered name = find_agent name (
    industry_analyst ∷ document_ingestion ∷ AgentType.lynch_pitch ∷ AgentType.munger_invert
    ∷ earnings_monitor ∷ kpi_tracker ∷ [])

-- `_OUTPUT_TYPE_BY_AGENT`
abbrev pub output_type_of : AgentType → Option OutputType
output_type_of industry_analyst = some industry_primer
output_type_of AgentType.lynch_pitch = some OutputType.lynch_pitch
output_type_of AgentType.munger_invert = some OutputType.munger_invert
output_type_of earnings_monitor = some quarterly_update
output_type_of kpi_tracker = some kpi_snapshot
output_type_of _ = none

-- A result, or the text of the exception.
pub data Attempt (A : Type 0) : Type 0 where
  returned : A → Attempt A
  threw : Text → Attempt A

pub Attempt-cases :
    {A : Type 0} (r : Attempt A) → ((e : Text) × (r ≡ threw e)) ⊎ ((a : A) × (r ≡ returned a))
Attempt-cases (returned a) = inr (a, refl)
Attempt-cases (threw e) = inl (e, refl)

-- `_resolve_agent_class`. The package `agents.document_ingestion` is not in the tree; the others
-- define their class.
unfoldable pub resolve_agent_class : Text → Attempt AgentType
resolve_agent_class name = elim (registered name) [
  | none ↦ threw (codes "Unknown agent '" ++ (name ++ codes "' — no entry in the agent registry"))
  | some document_ingestion ↦ threw (
      codes "Agent '"
      ++ (name
          ++ codes
              "' is registered but not yet implemented (No module named 'agents.document_ingestion')"))
  | some a ↦ returned a
]

abbrev store_row : TaskRow → World → World
store_row t w = record w { task = some t; acts = w.acts ++ (set t ∷ []) }

-- `_set_task_status`
unfoldable pub set_task_status :
    TaskStatus → Option ℕ → Option ℕ → Option Text → Option AgentOutput → World → World
set_task_status status started ended err result w = elim w.task [
  | none ↦ w
  | some t ↦
      store_row
        (record t {
          status = status;
          started_at = elim started [ none ↦ t.started_at | some n ↦ some n ];
          completed_at = elim ended [ none ↦ t.completed_at | some n ↦ some n ];
          error = elim err [ none ↦ t.error | some e ↦ some e ];
          result = elim result [ none ↦ t.result | some o ↦ some o ];
        })
        w
]

abbrev pub publish_all : List Event → World → World
publish_all es w = record w { events = w.events ++ es; acts = w.acts ++ map publish es }

abbrev error_event : Text → Event
error_event detail = error (take 500 detail)

-- `_terminal_event`
unfoldable pub terminal_event : AgentOutput → Event
terminal_event o = elim o.enforcer_status [
  | EnforcerStatus.partial ↦ partial o.message_id o.citation_coverage_pct
  | EnforcerStatus.failed ↦ partial o.message_id o.citation_coverage_pct
  | _ ↦ complete o.message_id o.citation_coverage_pct o.llm_used
]

-- The row that `_run_agent` inserts for an approved output.
unfoldable pub stored_output : TaskRow → AgentType → AgentOutput → List ResearchOutput
stored_output t agent o = elim (output_type_of agent) [
  | none ↦ []
  | some kind ↦ elim t.coverage_id [
    | none ↦ []
    | some coverage ↦
        if o.approved_by_enforcer
        then record {
          coverage_id = coverage;
          tenant_id = t.tenant_id;
          output_type = kind;
          content = o.content;
          citations = o.citations;
          citation_coverage_pct = o.citation_coverage_pct;
          approved_by_enforcer = o.approved_by_enforcer;
          enforcer_status = o.enforcer_status;
          llm_used = o.llm_used;
          tokens_used = o.tokens_used;
        }
          ∷ []
        else []
  ]
]

-- What a run of an agent does: it publishes progress, and inserts rows into `research_outputs` that
-- it commits itself, before it returns an output or raises.
pub record AgentRun : Type 0 where
  pub progressed : List Progress
  pub saved : List ResearchOutput
  pub outcome : Attempt AgentOutput

-- An agent is given the task's tenant and coverage.
abbrev pub Agents : Type 0
Agents = AgentType → TaskRow → AgentRun

-- `_run_agent`, and the world that it leaves.
unfoldable pub run_agent : Agents → TaskRow → Text → AgentType → World → Attempt AgentOutput × World
run_agent agents t name agent w =
    let r = agents agent t in
    let w₁ = publish_all (progress (starting name) ∷ map progress r.progressed) w in
    let w₂ : World = record w₁ { outputs = w₁.outputs ++ r.saved } in
    elim r.outcome [
      | threw e ↦ (threw e, w₂)
      | returned o ↦ (
        returned o,
        publish_all (terminal_event o ∷ [])
            (record w₂ { outputs = w₂.outputs ++ stored_output t agent o }),
      )
    ]

-- The two handlers of `_execute`: publish the error, then mark the task failed.
fail : ℕ → Text → Text → World → World
unfolding set_task_status
fail now detail stored w =
    set_task_status failed none (some now) (some stored) none
      (publish_all (error_event detail ∷ []) w)

-- The end of `_execute`: a caught exception, or the completed task.
finish : ℕ → Attempt AgentOutput × World → World
unfolding set_task_status fail
finish ended (threw e, w) = fail ended e (take 2000 e) w
finish ended (returned o, w) = set_task_status completed none (some ended) none (some o) w

-- `_execute`, begun at one time and ended at another.
unfoldable pub execute : Agents → ℕ → ℕ → Text → World → World
unfolding set_task_status finish fail
execute agents begun ended name w = elim w.task [
  | none ↦ w
  | some t ↦
      let w₁ = set_task_status running (some begun) none none none w in
      elim (resolve_agent_class name) [
        | threw e ↦ fail ended e e w₁
        | returned agent ↦ finish ended (run_agent agents t name agent w₁)
      ]
]
