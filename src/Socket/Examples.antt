-- ===== src/Socket/Examples.antt =====
-- A worker with two events to publish, heard and unheard.
use stock_analyst.Shared.{
  ℕ, ◌+◌, ◌*◌, ◌≤◌, codes, List, [], ◌∷◌, ◌++◌, none, some, ◌≡◌, ◌≢◌, refl, inr, arith,
}
use stock_analyst.Streaming.{starting}
use stock_analyst.Orchestrator.Tasks.{
  Agents, TaskRow, TaskStatus, Event, progress, error, threw, World, publish, execute,
}
use stock_analyst.Socket.{
  forwarded, accepted, closed, listening, State, emit, send, Reach, here, next, on_event, on_row,
  task_failed,
}
use stock_analyst.Socket.Delivery.{IsFinal, socket_closes}
use stock_analyst.Socket.Late.{late_socket_waits}
use stock_analyst.Socket.Acts.{acts_of, Works, execute_acts}

abbrev row : TaskRow
row = record {
  tenant_id = 4;
  coverage_id = some 9;
  status = TaskStatus.running;
  started_at = some 1;
  completed_at = none;
  error = none;
  result = none;
}

abbrev first_event : Event
first_event = progress (starting (codes "lynch_pitch"))

abbrev last_event : Event
last_event = error (codes "boom")

-- The socket has just subscribed.
abbrev subscribed : State
subscribed = record {
  row = some row;
  rest = publish first_event ∷ publish last_event ∷ [];
  phase = listening [];
  sent = [];
}

abbrev ended : State
ended = record {
  row = some row;
  rest = [];
  phase = closed;
  sent = forwarded first_event ∷ forwarded last_event ∷ [];
}

-- One event is sent before the other is published.
heard : Reach 4 subscribed 4 ended
unfolding on_event
heard =
    next
      (next
        (next (next here (emit subscribed first_event (publish last_event ∷ []) refl))
          (send _ first_event [] refl))
        (emit _ last_event [] refl))
      (send _ last_event [] refl)

socket_closes_example :
    (4 ≤ 2 * 2 + 1)
    × (IsFinal 4 ended
        → (ended.phase ≡ closed) × (ended.sent ≡ forwarded first_event ∷ forwarded last_event ∷ []))
socket_closes_example = socket_closes {tenant = 4} refl (refl, refl) (λ e. ground (arith, e)) heard

abbrev waiting : State
waiting = record subscribed { phase = accepted }

late_socket_waits_example :
    (n : ℕ) × (u : State) × Reach 4 waiting n u
    × (u.rest ≡ [])
    × ((m : ℕ) (v : State) → Reach 4 u m v → (v.phase ≢ closed) × (v.sent ≡ []))
late_socket_waits_example = late_socket_waits 4 waiting row refl refl refl (inr refl)

abbrev raising : Agents
raising agent t = record { progressed = []; saved = []; outcome = threw (codes "boom") }

abbrev world : World
world = record { task = some row; events = []; outputs = []; acts = [] }

execute_acts_example :
    let w' = execute raising 3 8 (codes "lynch_pitch") world in
    (es : List Event) × (settled : TaskRow) × (let acts =
        acts_of (record row { status = TaskStatus.running; started_at = some 3 }) es settled in
      (w'.acts ≡ world.acts ++ acts) × Works acts world w')
execute_acts_example = execute_acts raising 3 8 (codes "lynch_pitch") world row refl

-- A socket that reads the row of a failed task sends its error and closes; one of another tenant
-- closes without a word.
reads_failure :
    on_row 4 (some (record row { status = TaskStatus.failed; error = some (codes "boom") })) []
    ≡ (closed, task_failed (codes "boom") ∷ [])
unfolding on_row
reads_failure = refl

refuses_stranger : on_row 5 (some row) [] ≡ (closed, [])
unfolding on_row
refuses_stranger = refl
