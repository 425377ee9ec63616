-- ===== src/Orchestrator/Tasks/Lifecycle.antt =====
-- How `_execute` of the task runner leaves the row and the channel of its task.
use stock_analyst.Shared.{
  ℕ, Text, List, [], ◌∷◌, ◌++◌, map, true, false, some, ◌≡◌, refl, ◌⊎◌, inl, inr, All, arith, take,
  subst, ap, sym, ◌∙◌,
}
use mathlib.Core.List.{append_assoc, append-nil}
use stock_analyst.Streaming.{Progress}
use stock_analyst.Message.{AgentOutput, AgentType}
use stock_analyst.Orchestrator.Tasks.{
  Attempt-cases, TaskRow, completed, failed, Event, progress, error, is_terminal, Act, set, publish,
  ResearchOutput, World, resolve_agent_class, terminal_event, Agents, execute,
}
use stock_analyst.Orchestrator.Tasks.Runs.{
  found, steps, marked_log, failed_row, completed_row, execute-unresolved, execute-threw,
  execute-returned,
}

-- No event closes the channel.
abbrev pub AllOpen : List Event → Type 0
AllOpen = All (λ e. is_terminal e ≡ false)

-- A list of events that ends with the only closing one.
abbrev pub ClosesOnce : List Event → Event → Type 0
ClosesOnce es last =
    (before : List Event) × (es ≡ before ++ (last ∷ []))
    × AllOpen before
    × (is_terminal last ≡ true)

-- A settled row: completed with its output, or failed with an error.
pub record IsSettled (now : ℕ) (before after : TaskRow) : Type 0 where
  pub same_tenant : after.tenant_id ≡ before.tenant_id
  pub same_coverage : after.coverage_id ≡ before.coverage_id
  pub closed : after.completed_at ≡ some now
  pub outcome :
      ((after.status ≡ completed) × ((o : AgentOutput) × (after.result ≡ some o)))
      ⊎ ((after.status ≡ failed) × ((e : Text) × (after.error ≡ some e)))

progress-AllOpen : (ps : List Progress) → AllOpen (map progress ps)
progress-AllOpen [] = tt
progress-AllOpen (p ∷ ps) = (refl, progress-AllOpen ps)

pub terminal_event_closes : (o : AgentOutput) → is_terminal (terminal_event o) ≡ true
unfolding terminal_event
terminal_event_closes o = ground arith

-- What the run of a task with row `t` in world `w` has done.
pub record Settles (ended : ℕ) (t : TaskRow) (w w' : World) : Type 0 where
  pub row : TaskRow
  pub held : w'.task ≡ some row
  pub settled : IsSettled ended t row
  pub published : List Event
  pub last : Event
  pub appended : w'.events ≡ w.events ++ published
  pub once : ClosesOnce published last

module _ (agents : Agents) (begun ended : ℕ) (name : Text) (t : TaskRow) (es : List Event)
    (os : List ResearchOutput) (log : List Act) where
  -- The settled row, the events appended, the last of them.
  failed-Settles :
      (before : List Event) (e detail : Text) (stored : List ResearchOutput) (done : List Act)
      → AllOpen before
      → Settles ended t (found agents begun ended name t es os log) (record {
        task = some (failed_row agents begun ended name t es os log e);
        events = (es ++ before) ++ (error detail ∷ []);
        outputs = stored;
        acts = done;
      })
  failed-Settles before e detail stored done opened = record {
    row = (failed_row agents begun ended name t es os log) e;
    held = refl;
    settled = record {
      same_tenant = refl;
      same_coverage = refl;
      closed = refl;
      outcome = inr (refl, (e, refl));
    };
    published = before ++ (error detail ∷ []);
    last = error detail;
    appended = append_assoc es before (error detail ∷ []);
    once = (before, refl, opened, refl);
  }

  completed-Settles :
      (before : List Event) (o : AgentOutput) (stored : List ResearchOutput) (done : List Act)
      → AllOpen before
      → Settles ended t (found agents begun ended name t es os log) (record {
        task = some (completed_row agents begun ended name t es os log o);
        events = (es ++ before) ++ (terminal_event o ∷ []);
        outputs = stored;
        acts = done;
      })
  completed-Settles before o stored done opened = record {
    row = (completed_row agents begun ended name t es os log) o;
    held = refl;
    settled = record {
      same_tenant = refl;
      same_coverage = refl;
      closed = refl;
      outcome = inl (refl, (o, refl));
    };
    published = before ++ (terminal_event o ∷ []);
    last = terminal_event o;
    appended = append_assoc es before (terminal_event o ∷ []);
    once = (before, refl, opened, terminal_event_closes o);
  }

  pub steps-AllOpen :
      (agent : AgentType) → AllOpen (steps agents begun ended name t es os log agent)
  steps-AllOpen agent = (refl, progress-AllOpen (agents agent t).progressed)

  found-Settles :
      Settles ended t
        (found agents begun ended name t es os log)
        (execute agents begun ended name (found agents begun ended name t es os log))
  found-Settles = elim (Attempt-cases (resolve_agent_class name)) [
    | inl (e, h) ↦
        subst (Settles ended t (found agents begun ended name t es os log))
          (ap
              (λ (l : List Event).
                let w : World = record {
                  task = some (failed_row agents begun ended name t es os log e);
                  events = l ++ (error (take 500 e) ∷ []);
                  outputs = os;
                  acts =
                      (marked_log agents begun ended name t es os log
                        ++ (publish (error (take 500 e)) ∷ []))
                      ++ (set (failed_row agents begun ended name t es os log e) ∷ []);
                } in
                w)
              (append-nil es)
            ∙ sym (execute-unresolved agents begun ended name t es os log e h))
          (failed-Settles [] e (take 500 e) _ _ tt)
    | inr (agent, h) ↦ elim (Attempt-cases (agents agent t).outcome) [
      | inl (e, k) ↦
          subst (Settles ended t (found agents begun ended name t es os log))
            (sym (execute-threw agents begun ended name t es os log agent e h k))
            (failed-Settles (steps agents begun ended name t es os log agent) (take 2000 e)
              (take 500 e) _ _ (steps-AllOpen agent))
      | inr (o, k) ↦
          subst (Settles ended t (found agents begun ended name t es os log))
            (sym (execute-returned agents begun ended name t es os log agent o h k))
            (completed-Settles (steps agents begun ended name t es os log agent) o _ _
              (steps-AllOpen agent))
    ]
  ]

-- A dispatched task that has a row ends completed with its output or failed with an error, at the
-- end time, still with its tenant and coverage. To the channel the run appends events of which
-- the last, and only the last, ends a subscription.
pub execute-Settles :
    (agents : Agents) (begun ended : ℕ) (name : Text) (w : World) (t : TaskRow)
    → w.task ≡ some t
    → Settles ended t w (execute agents begun ended name w)
execute-Settles agents begun ended name w t h =
    subst (λ (v : World). Settles ended t v (execute agents begun ended name v))
      (λ i. record { task = sym h i; events = w.events; outputs = w.outputs; acts = w.acts })
      (found-Settles agents begun ended name t w.events w.outputs w.acts)
