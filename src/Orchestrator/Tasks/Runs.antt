-- ===== src/Orchestrator/Tasks/Runs.antt =====
-- The world that a run of the task runner leaves, at each of its three ends.
use stock_analyst.Shared.{ℕ, Text, List, [], ◌∷◌, ◌++◌, map, some, ◌≡◌, take, ap}
use stock_analyst.Streaming.{starting}
use stock_analyst.Message.{AgentOutput, AgentType}
use stock_analyst.Orchestrator.Tasks.{
  TaskRow, TaskStatus, completed, failed, Event, progress, error, Act, set, publish, ResearchOutput,
  World, threw, returned, resolve_agent_class, terminal_event, stored_output, Agents, run_agent,
  finish, execute,
}

module _ (agents : Agents) (begun ended : ℕ) (name : Text) (t : TaskRow) (es : List Event)
    (os : List ResearchOutput) (log : List Act) where
  -- The world in which the runner finds its row.
  abbrev pub found : World
  found = record { task = some t; events = es; outputs = os; acts = log }

  abbrev pub steps : AgentType → List Event
  steps agent = progress (starting name) ∷ map progress (agents agent t).progressed

  abbrev pub running_row : TaskRow
  running_row = record t { status = TaskStatus.running; started_at = some begun }

  -- The acts once the row is marked as running, and the world.
  abbrev pub marked_log : List Act
  marked_log = log ++ (set running_row ∷ [])

  abbrev pub marked : World
  marked = record { task = some running_row; events = es; outputs = os; acts = marked_log }

  -- The row at each end.
  abbrev pub failed_row : Text → TaskRow
  failed_row e = record t {
    status = failed;
    started_at = some begun;
    completed_at = some ended;
    error = some e;
  }

  abbrev pub completed_row : AgentOutput → TaskRow
  completed_row o = record t {
    status = completed;
    started_at = some begun;
    completed_at = some ended;
    result = some o;
  }

  run_agent-threw :
      (agent : AgentType) (e : Text) (w : World)
      → (agents agent t).outcome ≡ threw e
      → run_agent agents t name agent w ≡ (
        threw e,
        record w {
          events = w.events ++ steps agent;
          outputs = w.outputs ++ (agents agent t).saved;
          acts = w.acts ++ map publish (steps agent);
        },
      )
  unfolding run_agent
  run_agent-threw agent e w k = rw (k, run_agent)

  run_agent-returned :
      (agent : AgentType) (o : AgentOutput) (w : World)
      → (agents agent t).outcome ≡ returned o
      → run_agent agents t name agent w ≡ (
        returned o,
        record {
          task = w.task;
          events = (w.events ++ steps agent) ++ (terminal_event o ∷ []);
          outputs = (w.outputs ++ (agents agent t).saved) ++ stored_output t agent o;
          acts = (w.acts ++ map publish (steps agent)) ++ (publish (terminal_event o) ∷ []);
        },
      )
  unfolding run_agent
  run_agent-returned agent o w k = rw (k, run_agent)

  pub execute-unresolved :
      (e : Text)
      → resolve_agent_class name ≡ threw e
      → execute agents begun ended name found ≡ record {
        task = some (failed_row e);
        events = es ++ (error (take 500 e) ∷ []);
        outputs = os;
        acts = (marked_log ++ (publish (error (take 500 e)) ∷ [])) ++ (set (failed_row e) ∷ []);
      }
  unfolding execute
  execute-unresolved e h = rw (h, execute)

  pub execute-threw :
      (agent : AgentType) (e : Text)
      → resolve_agent_class name ≡ returned agent
      → (agents agent t).outcome ≡ threw e
      → execute agents begun ended name found ≡ record {
        task = some (failed_row (take 2000 e));
        events = (es ++ steps agent) ++ (error (take 500 e) ∷ []);
        outputs = os ++ (agents agent t).saved;
        acts =
            ((marked_log ++ map publish (steps agent)) ++ (publish (error (take 500 e)) ∷ []))
            ++ (set (failed_row (take 2000 e)) ∷ []);
      }
  unfolding execute
  execute-threw agent e h k = rw (h, execute) (ap (finish ended) (run_agent-threw agent e marked k))

  pub execute-returned :
      (agent : AgentType) (o : AgentOutput)
      → resolve_agent_class name ≡ returned agent
      → (agents agent t).outcome ≡ returned o
      → execute agents begun ended name found ≡ record {
        task = some (completed_row o);
        events = (es ++ steps agent) ++ (terminal_event o ∷ []);
        outputs = (os ++ (agents agent t).saved) ++ stored_output t agent o;
        acts =
            ((marked_log ++ map publish (steps agent)) ++ (publish (terminal_event o) ∷ []))
            ++ (set (completed_row o) ∷ []);
      }
  unfolding execute
  execute-returned agent o h k =
      rw (h, execute) (ap (finish ended) (run_agent-returned agent o marked k))
