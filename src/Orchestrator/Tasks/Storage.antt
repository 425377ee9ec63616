-- ===== src/Orchestrator/Tasks/Storage.antt =====
-- What a run of the task runner adds to `research_outputs`.
use stock_analyst.Shared.{ℕ, ◌≤◌, Text, List, [], ◌++◌, true, some, ◌≡◌, All, length}
use stock_analyst.Orchestrator.Tasks.{
  returned, threw, TaskRow, Event, Act, ResearchOutput, World, resolve_agent_class, Agents,
}

-- The row comes from an approved output, and stands under the task's tenant and coverage.
abbrev pub IsApprovedRow : TaskRow → ResearchOutput → Type 0
IsApprovedRow t r =
    (r.approved_by_enforcer ≡ true)
    × (r.tenant_id ≡ t.tenant_id)
    × (t.coverage_id ≡ some r.coverage_id)

-- The rows that the agent of the task inserts itself, where it is run.
abbrev pub own_rows : Agents → Text → TaskRow → List ResearchOutput
own_rows agents name t = elim (resolve_agent_class name) [
  | threw e ↦ []
  | returned agent ↦ (agents agent t).saved
]

-- What a run of the task with row `t` from `w` to `w'` adds.
pub record Stores (agents : Agents) (name : Text) (t : TaskRow) (w w' : World) : Type 0 where
  pub by_runner : List ResearchOutput
  pub appended : w'.outputs ≡ w.outputs ++ (own_rows agents name t ++ by_runner)
  pub at_most_one : length by_runner ≤ 1
  pub approved_rows : All (IsApprovedRow t) by_runner

module _ (agents : Agents) (begun ended : ℕ) (name : Text) (t : TaskRow) (es : List Event)
    (os : List ResearchOutput) (log : List Act) where
  abbrev OnlyOwnRows : World → Type 0
  OnlyOwnRows w' = w'.outputs ≡ os ++ own_rows agents name t
