-- ===== src/Ingestion/Run.antt =====
-- `_run_ingestion` and `_execute` of apps/api/tasks/ingestion.py, and the attempts of the task.
use stock_analyst.Shared.{
  ℕ, zero, suc, ◌+◌, Text, Option, none, some, length, filter_by, take, ltb, if◌then◌else◌, codes,
}
use stock_analyst.Orchestrator.Tasks.{
  TaskStatus, running, completed, failed, Attempt, returned, threw,
}
use stock_analyst.Ingestion.Rows.{
  Document, World, Tools, IngestStatus, find_document, check_duplicate, set_document_status,
  finalize_success, mark_document_failed, is_searchable,
}

-- How an attempt ends: the message is acknowledged, tried again, or the exception is raised.
pub data Verdict : Type 0 where
  settled retry : Verdict
  gave_up : Text → Verdict

-- How the pipeline ends: it returns, or raises one of its two signals or another exception.
pub data End : Type 0 where
  done duplicate_document low_text_coverage : End
  exception : Text → End

-- The next call of a chain, where the one before returned.
abbrev pub then_call : {W A : Type 0} → W → Attempt A → (A → W × End) → W × End
then_call w (threw e) next = (w, exception e)
then_call w (returned a) next = next a

module _ {Quality : Type 0} where
  -- `_set_task_status`, of the row with this Celery identifier.
  unfoldable pub set_task_status :
      TaskStatus → Option ℕ → Option ℕ → Option Text → World Quality → World Quality
  set_task_status status started ended err w = elim w.task [
    | none ↦ w
    | some t ↦ record w {
      task = some (record t {
        status = status;
        started_at = elim started [ none ↦ t.started_at | some n ↦ some n ];
        completed_at = elim ended [ none ↦ t.completed_at | some n ↦ some n ];
        error = elim err [ none ↦ t.error | some e ↦ some e ];
      });
    }
  ]

  abbrev pub complete_task : ℕ → World Quality → World Quality × Verdict
  complete_task now w = (set_task_status completed none (some now) none w, settled)

  -- Only a retry goes on to the next attempt.
  abbrev pub after_attempt :
      World Quality → Verdict → World Quality × Verdict → World Quality × Verdict
  after_attempt w retry next = next
  after_attempt w settled next = (w, settled)
  after_attempt w (gave_up e) next = (w, gave_up e)

  module _ (tools : Tools Quality) (now tenant_id id coverage_id : ℕ) where
    -- The part behind the duplicate check.
    unfoldable pub index_document :
        tools.Content → Text → Document Quality → World Quality → World Quality × End
    index_document content hash d w = then_call w (tools.parse content id d.file_name) λ parsed.
        then_call w (tools.extract_tables content parsed id d.filing_type d.period) λ tables.
          if tools.is_low parsed.overall_text_coverage
          then (set_document_status id IngestStatus.review_needed w, low_text_coverage)
          else then_call w
              (tools.chunk_document parsed tables tenant_id coverage_id d.filing_type d.period
                d.file_name)
              λ chunks. then_call w (tools.index_chunks chunks) λ indexed_points. (
                finalize_success now id hash (length (filter_by is_searchable chunks))
                    indexed_points parsed.overall_text_coverage parsed.total_pages w,
                done,
              )

    -- What follows the duplicate check.
    unfoldable pub after_check :
        tools.Content
        → Text
        → Document Quality
        → Option (Document Quality) × World Quality
        → World Quality × End
    after_check content hash d (some _, w) = (w, duplicate_document)
    after_check content hash d (none, w) = index_document content hash d w

    unfoldable pub run_ingestion : World Quality → World Quality × End
    run_ingestion w = elim (find_document id w.documents) [
      | none ↦ (w, exception (codes "document not found"))
      | some d ↦ then_call w (tools.download_file d.storage_path) λ content.
          let hash = tools.sha256 content in
          after_check content hash d (check_duplicate id coverage_id hash w)
    ]

abbrev pub max_retries : ℕ
max_retries = 3

module _ {Quality : Type 0} (tools : ℕ → Tools Quality) (clock : ℕ → ℕ)
    (tenant_id id coverage_id : ℕ) where
  -- The handler of `_execute` for an exception that is not one of the two signals.
  unfoldable pub handle_failure : ℕ → Text → World Quality → World Quality × Verdict
  handle_failure retries e w = if ltb retries max_retries then (w, retry) else (
    set_task_status failed none (some (clock retries)) (some (take 2000 e))
        (mark_document_failed id e w),
    gave_up e,
  )

  -- The end of `_execute`.
  unfoldable pub conclude : ℕ → World Quality → End → World Quality × Verdict
  conclude retries w done = complete_task (clock retries) w
  conclude retries w duplicate_document = complete_task (clock retries) w
  conclude retries w low_text_coverage = complete_task (clock retries) w
  conclude retries w (exception e) = handle_failure retries e w

  -- `_execute`, after so many retries.
  unfoldable pub execute : ℕ → World Quality → World Quality × Verdict
  execute retries w =
      let (w', end) =
        run_ingestion (tools retries) (clock retries) tenant_id id coverage_id
          (set_task_status running (some (clock retries)) none none w) in
      conclude retries w' end

  -- The attempts that Celery makes, on fuel.
  unfoldable pub attempts : ℕ → ℕ → World Quality → World Quality × Verdict
  attempts zero retries w = (w, retry)
  attempts (suc fuel) retries w =
      let (w', v) = execute retries w in after_attempt w' v (attempts fuel (retries + 1) w')

  -- `ingest_document_task`: one attempt and three retries.
  unfoldable pub ingest_document_task : World Quality → World Quality × Verdict
  ingest_document_task w = attempts 4 0 w
