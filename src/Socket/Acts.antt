-- ===== src/Socket/Acts.antt =====
-- The acts of the worker: what `_execute` of the task runner does to the row and to the channel, in
-- its order.
use stock_analyst.Shared.{
  ℕ, Text, List, [], ◌∷◌, ◌++◌, map, true, some, ◌≡◌, ◌≢◌, refl, sym, ap, ◌∙◌, subst, inl, inr,
  take,
}
use mathlib.Core.List.{append_assoc, append-nil, map-append}
use stock_analyst.Orchestrator.Tasks.{
  Attempt-cases, Agents, TaskRow, TaskStatus, Event, error, is_terminal, terminal_event,
  ResearchOutput, World, Act, set, publish, resolve_agent_class, execute,
}
use stock_analyst.Orchestrator.Tasks.Runs.{
  found, steps, running_row, failed_row, completed_row, execute-unresolved, execute-threw,
  execute-returned,
}
use stock_analyst.Orchestrator.Tasks.Lifecycle.{AllOpen, steps-AllOpen, terminal_event_closes}
use stock_analyst.Socket.{events_of, Closing, perform}

events_of-append : (xs ys : List Act) → events_of (xs ++ ys) ≡ events_of xs ++ events_of ys
events_of-append [] ys = refl
events_of-append (set t ∷ xs) ys = events_of-append xs ys
events_of-append (publish e ∷ xs) ys = ap (λ (l : List Event). e ∷ l) (events_of-append xs ys)

events_of-publish : (es : List Event) → events_of (map publish es) ≡ es
events_of-publish [] = refl
events_of-publish (e ∷ es) = ap (λ (l : List Event). e ∷ l) (events_of-publish es)

ClosesOnce-Closing :
    (before : List Event) (last : Event)
    → AllOpen before
    → is_terminal last ≡ true
    → Closing (before ++ (last ∷ []))
ClosesOnce-Closing [] last opened h = h
ClosesOnce-Closing (e ∷ []) last opened h = (opened.0, h)
ClosesOnce-Closing (e ∷ e' ∷ before) last opened h =
    (opened.0, ClosesOnce-Closing (e' ∷ before) last opened.1 h)

snoc_nonempty : (before : List Event) (last : Event) → (before ++ (last ∷ [])) ≢ []
snoc_nonempty [] last h = cc
snoc_nonempty (e ∷ before) last h = cc

-- The acts of one run: the row is set to running, the events are published, the row is settled.
abbrev pub acts_of : TaskRow → List Event → TaskRow → List Act
acts_of begun es settled = set begun ∷ (map publish es ++ (set settled ∷ []))

perform-publish :
    (es : List Event) (settled : TaskRow) (w : World)
    → perform (map publish es ++ (set settled ∷ [])) w
      ≡ record w { task = some settled; events = w.events ++ es }
perform-publish [] settled w =
    ap (λ (l : List Event). record w { task = some settled; events = l })
      (sym (append-nil w.events))
perform-publish (e ∷ es) settled w =
    perform-publish es settled (record w { events = w.events ++ (e ∷ []) })
    ∙ ap (λ (l : List Event). record w { task = some settled; events = l })
        (append_assoc w.events (e ∷ []) es)

-- The acts of a run from `w` to `w'`: their events, of which the last is the only one that ends a
-- subscription, and the row at the end.
pub record Logs (begun : ℕ) (t : TaskRow) (w w' : World) : Type 0 where
  pub before : List Event
  pub last : Event
  pub row : TaskRow
  pub done :
      w'.acts
      ≡ w.acts
        ++ acts_of
            (record t { status = TaskStatus.running; started_at = some begun })
            (before ++ (last ∷ []))
            row
  pub held : w'.task ≡ some row
  pub appended : w'.events ≡ w.events ++ (before ++ (last ∷ []))
  pub opened : AllOpen before
  pub closes : is_terminal last ≡ true

-- The acts as they are done, one behind the other.
abbrev logged : List Act → TaskRow → List Event → Event → TaskRow → List Act
logged log begun es last settled =
    (((log ++ (set begun ∷ [])) ++ map publish es) ++ (publish last ∷ [])) ++ (set settled ∷ [])

logged-acts_of :
    (log : List Act) (begun : TaskRow) (es : List Event) (last : Event) (settled : TaskRow)
    → logged log begun es last settled ≡ log ++ acts_of begun (es ++ (last ∷ [])) settled
logged-acts_of log begun es last settled = simp (append_assoc, map-append)

module _ (agents : Agents) (begun ended : ℕ) (name : Text) (t : TaskRow) (es : List Event)
    (os : List ResearchOutput) (log : List Act) where
  abbrev running : TaskRow
  running = running_row agents begun ended name t es os log

  published-Logs :
      (w' : World) (before : List Event) (last : Event) (row : TaskRow)
      → w'.acts ≡ logged log running before last row
      → w'.task ≡ some row
      → w'.events ≡ (es ++ before) ++ (last ∷ [])
      → AllOpen before
      → is_terminal last ≡ true
      → Logs begun t (found agents begun ended name t es os log) w'
  published-Logs w' before last row acts task events opened closes = record {
    before = before;
    last = last;
    row = row;
    done = acts ∙ logged-acts_of log running before last row;
    held = task;
    appended = events ∙ append_assoc es before (last ∷ []);
    opened = opened;
    closes = closes;
  }

  found-Logs :
      Logs begun t
        (found agents begun ended name t es os log)
        (execute agents begun ended name (found agents begun ended name t es os log))
  found-Logs = elim (Attempt-cases (resolve_agent_class name)) [
    | inl (e, h) ↦
        let run = execute-unresolved agents begun ended name t es os log e h in
        published-Logs _ [] (error (take 500 e)) (failed_row agents begun ended name t es os log e)
          (ap (λ (w : World). w.acts) run ∙ simp (append-nil)) (ap (λ (w : World). w.task) run)
          (ap (λ (w : World). w.events) run ∙ simp (append-nil)) tt refl
    | inr (agent, h) ↦ elim (Attempt-cases (agents agent t).outcome) [
      | inl (e, k) ↦
          let run = execute-threw agents begun ended name t es os log agent e h k in
          published-Logs _ (steps agents begun ended name t es os log agent) (error (take 500 e))
            (failed_row agents begun ended name t es os log (take 2000 e))
            (ap (λ (w : World). w.acts) run) (ap (λ (w : World). w.task) run)
            (ap (λ (w : World). w.events) run)
            (steps-AllOpen agents begun ended name t es os log agent) refl
      | inr (o, k) ↦
          let run = execute-returned agents begun ended name t es os log agent o h k in
          published-Logs _ (steps agents begun ended name t es os log agent) (terminal_event o)
            (completed_row agents begun ended name t es os log o) (ap (λ (w : World). w.acts) run)
            (ap (λ (w : World). w.task) run) (ap (λ (w : World). w.events) run)
            (steps-AllOpen agents begun ended name t es os log agent) (terminal_event_closes o)
    ]
  ]

execute-Logs :
    (agents : Agents) (begun ended : ℕ) (name : Text) (w : World) (t : TaskRow)
    → w.task ≡ some t
    → Logs begun t w (execute agents begun ended name w)
execute-Logs agents begun ended name w t h =
    subst (λ (v : World). Logs begun t v (execute agents begun ended name v))
      (λ i. record { task = sym h i; events = w.events; outputs = w.outputs; acts = w.acts })
      (found-Logs agents begun ended name t w.events w.outputs w.acts)

-- A worker that a socket may meet: its events, at least one, end with the only one that ends a
-- subscription, and done one after another its acts leave the row and the channel of `w'`.
pub record Works (acts : List Act) (w w' : World) : Type 0 where
  pub row_left : (perform acts w).task ≡ w'.task
  pub channel_left : (perform acts w).events ≡ w'.events
  pub closing : Closing (events_of acts)
  pub speaks : events_of acts ≢ []

-- The acts that a run of a task that has a row does, in the order in which it does them: the row is
-- set to running, then the events are published, then the row is settled. The events, at least one,
-- end with the only one that ends a subscription; and done one after another the acts leave the row
-- and the channel that the run leaves.
pub execute_acts :
    (agents : Agents) (begun ended : ℕ) (name : Text) (w : World) (t : TaskRow)
    → w.task ≡ some t
    → let w' = execute agents begun ended name w in
      (es : List Event) × (settled : TaskRow) × (let acts =
          acts_of (record t { status = TaskStatus.running; started_at = some begun }) es settled in
        (w'.acts ≡ w.acts ++ acts) × Works acts w w')
execute_acts agents begun ended name w t h =
    let f : Logs begun t w (execute agents begun ended name w) =
      execute-Logs agents begun ended name w t h in
    let begun_row : TaskRow = record t { status = TaskStatus.running; started_at = some begun } in
    let es = f.before ++ (f.last ∷ []) in
    let ran = perform-publish es f.row (record w { task = some begun_row }) in
    let spelled : events_of (acts_of begun_row es f.row) ≡ es =
      events_of-append (map publish es) (set f.row ∷ [])
      ∙ append-nil (events_of (map publish es))
      ∙ events_of-publish es in
    (
      es,
      f.row,
      (
        f.done,
        record {
          row_left = ap (λ (v : World). v.task) ran ∙ sym f.held;
          channel_left = ap (λ (v : World). v.events) ran ∙ sym f.appended;
          closing =
              subst Closing (sym spelled) (ClosesOnce-Closing f.before f.last f.opened f.closes);
          speaks = λ e. snoc_nonempty f.before f.last (sym spelled ∙ e);
        },
      ),
    )
