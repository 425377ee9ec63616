-- ===== src/Ingestion/Settled.antt =====
-- How `_execute` of apps/api/tasks/ingestion.py and its attempts end.
use stock_analyst.Shared.{
  ℕ, zero, suc, ◌+◌, ◌≤◌, ◌<◌, Text, Option, none, some, ltb, ◌≡◌, refl, sym, ◌∙◌, ◌⊎◌, inl, inr,
  arith, Bool-cases, Option-cases, ltb→lt, take, subst,
}
use stock_analyst.Orchestrator.Tasks.{TaskRow, TaskStatus, running, completed}
use stock_analyst.Ingestion.Rows.{
  Document, World, Tools, IngestStatus, indexed, review_needed, find_document, set_document_status,
  mark_document_failed,
}
use stock_analyst.Ingestion.Run.{
  End, done, duplicate_document, low_text_coverage, exception, Verdict, settled, retry, gave_up,
  set_task_status, run_ingestion, handle_failure, conclude, execute, after_attempt, attempts,
  ingest_document_task,
}
use stock_analyst.Ingestion.Attempts.{HasStatus, update-HasStatus, Ran, run_ingestion-Ran}

module _ {Quality : Type 0} where
  -- The task has its row, ended with this status.
  abbrev pub TaskEnded : TaskStatus → World Quality → Type 0
  TaskEnded status w =
      (t : TaskRow) × (w.task ≡ some t)
      × (t.status ≡ status)
      × ((n : ℕ) × (t.completed_at ≡ some n))

  -- How the task ends, from `w` to `w'`.
  abbrev pub Ends : ℕ → World Quality → World Quality → Verdict → Type 0
  Ends id w w' settled =
      TaskEnded completed w'
      × ((HasStatus id indexed w' × (w'.coverage.document_count ≡ w.coverage.document_count + 1))
          ⊎ (HasStatus id review_needed w' × (w'.coverage ≡ w.coverage)))
  Ends id w w' (gave_up e) =
      TaskEnded TaskStatus.failed w'
      × HasStatus id IngestStatus.failed w'
      × (w'.coverage ≡ w.coverage)
  Ends id w w' retry = ⊥

  -- The document and the task have their rows.
  abbrev HasRows : ℕ → World Quality → Type 0
  HasRows id w =
      ((d : Document Quality) × (find_document id w.documents ≡ some d))
      × ((t : TaskRow) × (w.task ≡ some t))

  -- One attempt: it ends the task, or leaves it for another.
  abbrev Attempted : ℕ → ℕ → World Quality → World Quality → Verdict → Type 0
  Attempted retries id w w' retry = (retries < 3) × HasRows id w' × (w'.coverage ≡ w.coverage)
  Attempted retries id w w' v = Ends id w w' v

  ended :
      (status : TaskStatus) (now : ℕ) (err : Option Text) (w : World Quality) {t : TaskRow}
      → w.task ≡ some t
      → TaskEnded status (set_task_status status none (some now) err w)
  unfolding set_task_status
  ended status now err w {t} h = (
    record t {
      status = status;
      completed_at = some now;
      error = elim err [ none ↦ t.error | some e ↦ some e ];
    },
    rw (h, set_task_status) refl,
    refl,
    (now, refl),
  )

  task_set :
      (status : TaskStatus) (s e : Option ℕ) (err : Option Text) (w : World Quality) {t : TaskRow}
      → w.task ≡ some t
      → (t' : TaskRow) × ((set_task_status status s e err w).task ≡ some t')
  unfolding set_task_status
  task_set status s e err w {t} h = (
    record t {
      status = status;
      started_at = elim s [ none ↦ t.started_at | some n ↦ some n ];
      completed_at = elim e [ none ↦ t.completed_at | some n ↦ some n ];
      error = elim err [ none ↦ t.error | some x ↦ some x ];
    },
    rw (h, set_task_status) refl,
  )

  -- Only the row of the task changes.
  only_task :
      (status : TaskStatus) (s e : Option ℕ) (err : Option Text) (w : World Quality)
      → ((set_task_status status s e err w).documents ≡ w.documents)
        × ((set_task_status status s e err w).coverage ≡ w.coverage)
  unfolding set_task_status
  only_task status s e err w = elim (Option-cases w.task) [
    | inl absent ↦ rw (absent, set_task_status) (refl, refl)
    | inr (t, there) ↦ rw (there, set_task_status) (refl, refl)
  ]

  module _ (tools : ℕ → Tools Quality) (clock : ℕ → ℕ) (tenant_id id coverage_id : ℕ) where
    completed-Ends :
        (now : ℕ) (w w' : World Quality)
        → HasRows id w
        → w'.task ≡ w.task
        → ((HasStatus id indexed w' × (w'.coverage.document_count ≡ w.coverage.document_count + 1))
            ⊎ (HasStatus id review_needed w' × (w'.coverage ≡ w.coverage)))
        → Ends id w (set_task_status completed none (some now) none w') settled
    completed-Ends now w w' rows same h =
        let (documents, coverage) = only_task completed none (some now) none w' in
        (ended completed now none w' (same ∙ rows.1.1), rw (documents, coverage) h)

    failure-Attempted :
        (retries : ℕ) (e : Text) (w : World Quality)
        → HasRows id w
        → let (w₂, v) = handle_failure tools clock tenant_id id coverage_id retries e w in
          Attempted retries id w w₂ v
    unfolding handle_failure mark_document_failed set_document_status
    failure-Attempted retries e w rows = elim (Bool-cases (ltb retries 3)) [
      | inl again ↦ rw again (ltb→lt retries 3 again, rows, refl)
      | inr spent ↦
          let w₁ = mark_document_failed id e w in
          let now = clock retries in
          let (documents, coverage) =
            only_task TaskStatus.failed none (some now) (some (take 2000 e)) w₁ in
          rw spent (
            ended TaskStatus.failed now (some (take 2000 e)) w₁ rows.1.1,
            rw documents
                (update-HasStatus id IngestStatus.failed _ (λ x. refl) (λ x. refl) w rows.0.1),
            coverage,
          )
    ]

    conclude-Attempted :
        (retries : ℕ) (w w' : World Quality) (end : End)
        → HasRows id w
        → Ran id w w' end
        → let (w₂, v) = conclude tools clock tenant_id id coverage_id retries w' end in
          Attempted retries id w w₂ v
    unfolding conclude
    conclude-Attempted retries w w' done rows (status, count, same) =
        completed-Ends (clock retries) w w' rows same (inl (status, count))
    conclude-Attempted retries w w' duplicate_document rows (status, count, same) =
        completed-Ends (clock retries) w w' rows same (inr (status, count))
    conclude-Attempted retries w w' low_text_coverage rows (status, count, same) =
        completed-Ends (clock retries) w w' rows same (inr (status, count))
    conclude-Attempted retries w w' (exception e) rows h =
        subst
          (λ (x : World Quality).
            let (w₂, v) = handle_failure tools clock tenant_id id coverage_id retries e x in
            Attempted retries id w w₂ v)
          (sym h) (failure-Attempted retries e w rows)

    same_coverage-Ends :
        (w w₁ w' : World Quality) (v : Verdict)
        → w₁.coverage ≡ w.coverage
        → Ends id w₁ w' v
        → Ends id w w' v
    same_coverage-Ends w w₁ w' settled same h = rw same at h
    same_coverage-Ends w w₁ w' retry same h = h
    same_coverage-Ends w w₁ w' (gave_up e) same h = rw same at h

    -- What an attempt does is measured from before the task is marked running.
    same_coverage-Attempted :
        (retries : ℕ) (w w₁ w' : World Quality) (v : Verdict)
        → w₁.coverage ≡ w.coverage
        → Attempted retries id w₁ w' v
        → Attempted retries id w w' v
    same_coverage-Attempted retries w w₁ w' settled same h = rw same at h
    same_coverage-Attempted retries w w₁ w' retry same h = rw same at h
    same_coverage-Attempted retries w w₁ w' (gave_up e) same h = rw same at h

    execute-Attempted :
        (retries : ℕ) (w : World Quality)
        → HasRows id w
        → let (w', v) = execute tools clock tenant_id id coverage_id retries w in
          Attempted retries id w w' v
    unfolding execute
    execute-Attempted retries w rows =
        let now = clock retries in
        let w₁ = set_task_status running (some now) none none w in
        let (documents, coverage) = only_task running (some now) none none w in
        let rows₁ : HasRows id w₁ =
          (rw documents rows.0, task_set running (some now) none none w rows.1.1) in
        let (w₂, end) = run_ingestion (tools retries) now tenant_id id coverage_id w₁ in
        let (w₃, v) = conclude tools clock tenant_id id coverage_id retries w₂ end in
        same_coverage-Attempted retries w w₁ w₃ v coverage (
          conclude-Attempted retries w₁ w₂ end rows₁
            (run_ingestion-Ran (tools retries) now tenant_id id coverage_id w₁ rows₁.0.1))

    after_attempt-Ends :
        (retries : ℕ) (w w' : World Quality) (v : Verdict) (next : World Quality × Verdict)
        → Attempted retries id w w' v
        → (HasRows id w' → retries + 1 ≤ 3 → Ends id w' next.0 next.1)
        → let (w₂, v₂) = after_attempt w' v next in Ends id w w₂ v₂
    after_attempt-Ends retries w w' settled next h rest = h
    after_attempt-Ends retries w w' (gave_up e) next h rest = h
    after_attempt-Ends retries w w' retry (w₂, v) (again, rows, same) rest =
        same_coverage-Ends w w' w₂ v same (rest rows (omega arith))

    attempts-Ends :
        (fuel retries : ℕ) (w : World Quality)
        → HasRows id w
        → retries ≤ 3
        → 4 ≤ fuel + retries
        → let (w', v) = attempts tools clock tenant_id id coverage_id fuel retries w in
          Ends id w w' v
    unfolding attempts
    attempts-Ends zero retries w rows few enough = absurd (omega arith)
    attempts-Ends (suc fuel) retries w rows few enough =
        let (w', v) = execute tools clock tenant_id id coverage_id retries w in
        after_attempt-Ends retries w w' v
          (attempts tools clock tenant_id id coverage_id fuel (retries + 1) w')
          (execute-Attempted retries w rows)
          (λ rows' few'. attempts-Ends fuel (retries + 1) w' rows' few' (omega arith))

    -- The ingestion of a document that has a row, by a task that has a row, ends within four
    -- attempts. Either the task is completed, and the document is indexed and counted once more in
    -- its coverage, or is marked for review and the coverage is unchanged; or the task has failed,
    -- and so has the document, and the coverage is unchanged.
    pub ingest_document_task-Ends :
        (w : World Quality) {d : Document Quality} {t : TaskRow}
        → find_document id w.documents ≡ some d
        → w.task ≡ some t
        → let (w', v) = ingest_document_task tools clock tenant_id id coverage_id w in
          Ends id w w' v
    unfolding ingest_document_task
    ingest_document_task-Ends w {d} {t} found queued =
        attempts-Ends 4 0 w ((d, found), (t, queued)) (omega arith) (omega arith)
