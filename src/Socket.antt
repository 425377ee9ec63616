-- ===== src/Socket.antt =====
-- The websocket of a task (`task_websocket` of apps/api/routers/tasks.py) and the channel that it
-- listens to (packages/shared/src/shared/streaming.py), beside the worker that runs the task: two
-- processes whose steps interleave.
pub mod Delivery
pub mod Late
pub mod Acts
mod Examples
use stock_analyst.Shared.{
  ℕ, zero, suc, ◌+◌, ◌*◌, Text, List, [], ◌∷◌, ◌++◌, Bool, true, false, Option, none, some, ◌==◌,
  length, if◌then◌else◌, ◌≡◌, refl,
}
use stock_analyst.Message.{AgentOutput}
use stock_analyst.Orchestrator.Tasks.{
  TaskRow, TaskStatus, completed, failed, Event, is_terminal, World, Act, set, publish,
}

-- What the socket sends: a published event, or the outcome that it read from the row.
pub data Frame : Type 0 where
  forwarded : Event → Frame
  already_complete : Option Text → Frame
  task_failed : Text → Frame

-- The socket before it has read the row, between reading it and subscribing, with the messages that
-- its subscription holds, and closed.
pub data Phase : Type 0 where
  accepted checked closed : Phase
  listening : List Event → Phase

pub record State : Type 0 where
  pub row : Option TaskRow
  pub rest : List Act
  pub phase : Phase
  pub sent : List Frame

-- The channel delivers to a subscriber that is there.
abbrev pub delivered : Event → Phase → Phase
delivered e (listening inbox) = listening (inbox ++ (e ∷ []))
delivered e phase = phase

-- `(task.result or {}).get("message_id")`
abbrev pub output_id : TaskRow → Option Text
output_id t = elim t.result [ none ↦ none | some o ↦ some o.message_id ]

abbrev pub error_text : TaskRow → Text
error_text t = elim t.error [ none ↦ [] | some e ↦ e ]

-- The branches on the row that was read.
unfoldable pub on_row : ℕ → Option TaskRow → List Frame → Phase × List Frame
on_row tenant none sent = (closed, sent)
on_row tenant (some t) sent =
    if t.tenant_id == tenant
    then elim t.status [
      | completed ↦ (closed, sent ++ (already_complete (output_id t) ∷ []))
      | failed ↦ (closed, sent ++ (task_failed (error_text t) ∷ []))
      | _ ↦ (checked, sent)
    ]
    else (closed, sent)

-- The body of the loop over the subscription.
unfoldable pub on_event : Event → List Event → Phase
on_event e inbox = if is_terminal e then closed else listening inbox

-- One step of the worker or of the socket; the tenant is that of the user of the socket.
pub data Step (tenant : ℕ) : State → State → Type 0 where
  store :
      (s : State) (t : TaskRow) (rest : List Act)
      → s.rest ≡ set t ∷ rest
      → Step tenant s (record s { row = some t; rest = rest })
  emit :
      (s : State) (e : Event) (rest : List Act)
      → s.rest ≡ publish e ∷ rest
      → Step tenant s (record s { rest = rest; phase = delivered e s.phase })
  read :
      (s : State)
      → s.phase ≡ accepted
      → Step tenant s (record s {
        phase = (on_row tenant s.row s.sent).0;
        sent = (on_row tenant s.row s.sent).1;
      })
  subscribe : (s : State) → s.phase ≡ checked → Step tenant s (record s { phase = listening [] })
  send :
      (s : State) (e : Event) (inbox : List Event)
      → s.phase ≡ listening (e ∷ inbox)
      → Step tenant s (record s { phase = on_event e inbox; sent = s.sent ++ (forwarded e ∷ []) })

-- The states that some interleaving reaches, with the number of its steps.
pub data Reach (tenant : ℕ) (s : State) : ℕ → State → Type 0 where
  here : Reach tenant s 0 s
  next : {n : ℕ} {t u : State} → Reach tenant s n t → Step tenant t u → Reach tenant s (suc n) u

-- The events that the worker has still to publish.
abbrev pub events_of : List Act → List Event
events_of [] = []
events_of (set t ∷ rest) = events_of rest
events_of (publish e ∷ rest) = e ∷ events_of rest

-- Empty, or with one closing event, which is the last.
abbrev pub Closing : List Event → Type 0
Closing [] = Unit
Closing (e ∷ []) = is_terminal e ≡ true
Closing (e ∷ e' ∷ es) = (is_terminal e ≡ false) × Closing (e' ∷ es)

-- What the acts of a worker leave of its world.
abbrev pub perform : List Act → World → World
perform [] w = w
perform (set t ∷ rest) w = perform rest (record w { task = some t })
perform (publish e ∷ rest) w = perform rest (record w { events = w.events ++ (e ∷ []) })
