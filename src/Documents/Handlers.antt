-- ===== src/Documents/Handlers.antt =====
-- The handlers, each from the user of the request (its tenant) and the fields of the request.
use stock_analyst.Shared.{
  ℕ, ◌-◌, Text, codes, List, [], ◌∷◌, ◌++◌, map, Bool, true, ◌&&◌, not, Option, none, some, ◌==◌,
  filter_by, same_text, if◌then◌else◌,
}
use stock_analyst.Http.{Reply, answer, problem, crashed}
use stock_analyst.Storage.{get_presigned_url, delete_file}
use stock_analyst.Ingestion.Rows.{IngestStatus, pending, processing, indexed, review_needed}
use stock_analyst.Documents.Create.{Upload, check_length, create_document}
use stock_analyst.Documents.{
  Coverage, DocumentRow, Rows, Job, IndexPoint, World, DocumentServices, M, ◌>>=◌, reply, read,
  change, store, get_owned_coverage, get_document, request,
}

abbrev status_number : IngestStatus → ℕ
status_number pending = 0
status_number processing = 1
status_number indexed = 2
status_number IngestStatus.failed = 3
status_number review_needed = 4

abbrev pub same_status : IngestStatus → IngestStatus → Bool
same_status a b = status_number a == status_number b

module _ (s : DocumentServices) where
  -- What Celery makes of a task.
  abbrev pub taken : Job → World → Reply Text → Reply Text × World
  taken job w (answer id) = (answer id, record w { jobs = w.jobs ++ (job ∷ []) })
  taken job w (problem status detail) = (problem status detail, w)
  taken job w (crashed e) = (crashed e, w)

  -- `ingest_document_task.delay`
  unfoldable pub delay : Job → M Text
  delay job w = taken job w (s.send job)

  abbrev pub job_of : DocumentRow → Coverage → ℕ → Job
  job_of d coverage tenant = record {
    document_id = s.show_uuid d.id;
    coverage_id = s.show_uuid coverage.id;
    tenant_id = s.show_uuid tenant;
  }

  -- The row of the task.
  abbrev pub add_task : Coverage → ℕ → Text → M (Unit {0})
  add_task coverage tenant task_id = change λ w. record w {
    rows = record w.rows {
      queue =
          w.rows.queue
          ++ (record {
            tenant_id = tenant;
            coverage_id = coverage.id;
            task_type = codes "document_ingestion";
            celery_task_id = task_id;
          }
              ∷ []);
    };
  }

  -- A document is sent to the workers, and the row of its task is added.
  unfoldable pub enqueue : DocumentRow → Coverage → ℕ → M Text
  enqueue d coverage tenant = do
    task_id ← delay (job_of d coverage tenant)
    _ ← add_task coverage tenant task_id
    reply (answer task_id)

  -- `upload_document`
  unfoldable pub upload_document : ℕ → Text → Upload → M (ℕ × Text)
  upload_document tenant coverage_id u = request do
    coverage ← read (get_owned_coverage s coverage_id tenant)
    _ ← reply (check_length s u.content_length)
    document ← create_document s u coverage tenant
    task_id ← enqueue document coverage tenant
    reply (answer (document.id, task_id))

  abbrev has_status : Option IngestStatus → DocumentRow → Bool
  has_status none d = true
  has_status (some status) d = same_status status d.ingest_status

  -- `list_documents`
  unfoldable pub list_documents : ℕ → Text → Option IngestStatus → M (List DocumentRow)
  list_documents tenant coverage_id status = request do
    coverage ← read (get_owned_coverage s coverage_id tenant)
    read λ rows.
        answer (filter_by (λ d. d.coverage_id == coverage.id && has_status status d) rows.documents)

  -- `get_document_presigned_url`
  unfoldable pub get_document_presigned_url : ℕ → Text → Text → M Text
  get_document_presigned_url tenant coverage_id document_id = request do
    coverage ← read (get_owned_coverage s coverage_id tenant)
    document ← read (get_document s coverage document_id)
    reply (get_presigned_url s.client (s.show_uuid tenant) document.storage_path)

  -- `document.ingest_status = IngestStatusEnum.pending`
  abbrev pub set_pending : DocumentRow → Rows → Rows
  set_pending document rows = record rows {
    documents =
        map (λ d. if d.id == document.id then record d { ingest_status = pending } else d)
          rows.documents;
  }

  -- `retry_document`
  unfoldable pub retry_document : ℕ → Text → Text → M (ℕ × Text)
  retry_document tenant coverage_id document_id = request do
    coverage ← read (get_owned_coverage s coverage_id tenant)
    document ← read (get_document s coverage document_id)
    _ ← change λ w. record w { rows = set_pending document w.rows }
    task_id ← enqueue document coverage tenant
    reply (answer (document.id, task_id))

  -- The points that the filter of a deletion selects, in the collection of the tenant.
  abbrev pub is_selected : Text → Text → IndexPoint → Bool
  is_selected document_id tenant_id p =
      same_text p.collection (codes "tenant_" ++ tenant_id)
      && (same_text p.document_id document_id && same_text p.tenant_id tenant_id)

  -- How a deletion in the index ends.
  abbrev pub deleted : Text → Text → World → Option Text → Reply (Unit {0}) × World
  deleted document_id tenant_id w (some e) = (crashed e, w)
  deleted document_id tenant_id w none = (
    answer tt,
    record w { points = filter_by (λ p. not (is_selected document_id tenant_id p)) w.points },
  )

  -- `QdrantConnector.delete_by_filter`
  unfoldable pub delete_by_filter : Text → Text → M (Unit {0})
  delete_by_filter document_id tenant_id w =
      deleted document_id tenant_id w (s.delete_points document_id)

  -- The rows without the document, which is counted once less in its coverage.
  abbrev pub remove_document : Coverage → DocumentRow → Rows → Rows
  remove_document coverage document rows = record rows {
    coverages =
        map
          (λ c.
            if c.id == coverage.id
            then record c { document_count = coverage.document_count - 1 }
            else c)
          rows.coverages;
    documents = filter_by (λ d. not (d.id == document.id)) rows.documents;
  }

  -- `delete_document`; on ℕ the count stops at zero, as `max(0, count - 1)` does.
  unfoldable pub delete_document : ℕ → Text → Text → M (Unit {0})
  delete_document tenant coverage_id document_id = request do
    coverage ← read (get_owned_coverage s coverage_id tenant)
    document ← read (get_document s coverage document_id)
    _ ← delete_by_filter (s.show_uuid document.id) (s.show_uuid tenant)
    _ ← store (delete_file s.client (s.show_uuid tenant) document.storage_path)
    change λ w. record w { rows = remove_document coverage document w.rows }
