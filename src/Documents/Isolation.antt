-- ===== src/Documents/Isolation.antt =====
-- The handlers and the tenants: what the requests of one tenant leave of another's.
use stock_analyst.Shared.{ℕ, ◌-◌, Text, Option, none, some, ◌==◌, ◌≡◌, refl, sym, subst}
use stock_analyst.Http.{answer}
use stock_analyst.Storage.{delete_file}
use stock_analyst.Storage.Paths.{HasNoSlash}
use stock_analyst.Ingestion.Rows.{IngestStatus, pending}
use stock_analyst.Documents.{
  Coverage, DocumentRow, Rows, World, DocumentServices, ◌>>=◌, reply, read, change, store,
  get_owned_coverage, get_document, find_coverage, find_document_row,
}
use stock_analyst.Documents.Create.{Upload, check_length, create_document}
use stock_analyst.Documents.Handlers.{
  enqueue, deleted, delete_by_filter, set_pending, remove_document, upload_document, list_documents,
  get_document_presigned_url, retry_document, delete_document,
}
use stock_analyst.Documents.Filters.{filter_by-update, filter_by-without}
use stock_analyst.Documents.Tenants.{
  SameRows, Unseen, unseen, bind-Unseen, request-Unseen, other_coverage, other_document,
}
use stock_analyst.Documents.Owned.{
  IsConsistent, get_owned_coverage-owned, get_document-of, own_documents, own_coverages,
}
use stock_analyst.Documents.Calls.{
  create_document-Unseen, enqueue-Unseen, deleted-Unseen, delete_file-Unseen,
}

module _ (s : DocumentServices) (tenant : ℕ) where
  pending-Unseen :
      (coverage : Coverage) (d : DocumentRow) (w : World)
      → IsConsistent w.rows
      → find_coverage coverage.id w.rows ≡ some coverage
      → coverage.tenant_id ≡ tenant
      → find_document_row d.id w.rows ≡ some d
      → d.coverage_id ≡ coverage.id
      → Unseen s tenant w (record w { rows = set_pending s d w.rows })
  pending-Unseen coverage d w ok at own found of = record {
    rows = record {
      coverages = refl;
      documents =
          filter_by-update (other_document s tenant) (λ (x : DocumentRow). x.id == d.id)
            (λ (x : DocumentRow). record x { ingest_status = pending }) w.rows.documents (λ x. refl)
            (own_documents s tenant w.rows coverage d ok at own found of);
      queue = refl;
    };
    objects = refl;
    points = refl;
    jobs = refl;
  }

  removed-Unseen :
      (coverage : Coverage) (d : DocumentRow) (r : Rows) (w : World)
      → w.rows ≡ r
      → IsConsistent r
      → find_coverage coverage.id r ≡ some coverage
      → coverage.tenant_id ≡ tenant
      → find_document_row d.id r ≡ some d
      → d.coverage_id ≡ coverage.id
      → Unseen s tenant w (record w { rows = remove_document s coverage d w.rows })
  removed-Unseen coverage d r w same ok at own found of = record {
    rows =
        subst (λ (x : Rows). SameRows s tenant x (remove_document s coverage d x)) (sym same)
          (record {
            coverages =
                filter_by-update (other_coverage s tenant) (λ (c : Coverage). c.id == coverage.id)
                  (λ (c : Coverage). record c { document_count = coverage.document_count - 1 })
                  r.coverages (λ c. refl) (own_coverages s tenant r coverage ok at own);
            documents =
                filter_by-without (other_document s tenant) (λ (x : DocumentRow). x.id == d.id)
                  r.documents (own_documents s tenant r coverage d ok at own found of);
            queue = refl;
          });
    objects = refl;
    points = refl;
    jobs = refl;
  }

  deleted-rows :
      (document_id : Text) (w : World) (failure : Option Text)
      → (deleted s document_id (s.show_uuid tenant) w failure).1.rows ≡ w.rows
  deleted-rows document_id w none = refl
  deleted-rows document_id w (some e) = refl

  retry-Unseen :
      (coverage_id document_id : Text) (w : World)
      → IsConsistent w.rows
      → Unseen s tenant w (retry_document s tenant coverage_id document_id w).1
  unfolding retry_document
  retry-Unseen coverage_id document_id w ok = request-Unseen s tenant _ w (
      bind-Unseen s tenant (read (get_owned_coverage s coverage_id tenant)) _ w (unseen s tenant w)
        λ coverage owned.
          bind-Unseen s tenant (read (get_document s coverage document_id)) _ w (unseen s tenant w)
            λ d got.
              let (at, own) = get_owned_coverage-owned s tenant coverage_id w.rows coverage owned in
              let (found, of) = get_document-of s tenant coverage document_id w.rows d got in
              bind-Unseen s tenant (change λ w. record w { rows = set_pending s d w.rows })
                (λ _. enqueue s d coverage tenant >>= λ (task_id : Text).
                  reply (answer (d.id, task_id)))
                w (pending-Unseen coverage d w ok at own found of)
                λ _ _.
                  bind-Unseen s tenant (enqueue s d coverage tenant)
                    (λ (task_id : Text). reply (answer (d.id, task_id))) _
                    (enqueue-Unseen s tenant d coverage _) λ id _. unseen s tenant _)

  delete-Unseen :
      (coverage_id document_id : Text) (w : World)
      → HasNoSlash (s.show_uuid tenant)
      → IsConsistent w.rows
      → Unseen s tenant w (delete_document s tenant coverage_id document_id w).1
  unfolding delete_document delete_by_filter
  delete-Unseen coverage_id document_id w plain ok = request-Unseen s tenant _ w (
      bind-Unseen s tenant (read (get_owned_coverage s coverage_id tenant)) _ w (unseen s tenant w)
        λ coverage owned.
          bind-Unseen s tenant (read (get_document s coverage document_id)) _ w (unseen s tenant w)
            λ d got.
              let (at, own) = get_owned_coverage-owned s tenant coverage_id w.rows coverage owned in
              let (found, of) = get_document-of s tenant coverage document_id w.rows d got in
              bind-Unseen s tenant (delete_by_filter s (s.show_uuid d.id) (s.show_uuid tenant)) _ w
                (deleted-Unseen s tenant (s.show_uuid d.id) w (s.delete_points (s.show_uuid d.id)))
                λ _ _.
                  bind-Unseen s tenant
                    (store (delete_file s.client (s.show_uuid tenant) d.storage_path)) _ _
                    (delete_file-Unseen s tenant d.storage_path _ plain)
                    λ _ _.
                      removed-Unseen coverage d w.rows _
                        (deleted-rows (s.show_uuid d.id) w (s.delete_points (s.show_uuid d.id))) ok
                        at own found of)

  upload-Unseen :
      (coverage_id : Text) (u : Upload) (w : World)
      → Unseen s tenant w (upload_document s tenant coverage_id u w).1
  unfolding upload_document
  upload-Unseen coverage_id u w = request-Unseen s tenant _ w (
      bind-Unseen s tenant (read (get_owned_coverage s coverage_id tenant)) _ w (unseen s tenant w)
        λ coverage _.
          bind-Unseen s tenant (reply (check_length s u.content_length)) _ w (unseen s tenant w)
            λ _ _.
              bind-Unseen s tenant (create_document s u coverage tenant) _ w
                (create_document-Unseen s tenant u coverage w)
                λ d _.
                  bind-Unseen s tenant (enqueue s d coverage tenant) _ _
                    (enqueue-Unseen s tenant d coverage _) λ id _. unseen s tenant _)

  list-Unseen :
      (coverage_id : Text) (status : Option IngestStatus) (w : World)
      → Unseen s tenant w (list_documents s tenant coverage_id status w).1
  unfolding list_documents
  list-Unseen coverage_id status w = request-Unseen s tenant _ w (
      bind-Unseen s tenant (read (get_owned_coverage s coverage_id tenant)) _ w (unseen s tenant w)
        λ coverage _. unseen s tenant w)

  presign-Unseen :
      (coverage_id document_id : Text) (w : World)
      → Unseen s tenant w (get_document_presigned_url s tenant coverage_id document_id w).1
  unfolding get_document_presigned_url
  presign-Unseen coverage_id document_id w = request-Unseen s tenant _ w (
      bind-Unseen s tenant (read (get_owned_coverage s coverage_id tenant)) _ w (unseen s tenant w)
        λ coverage _.
          bind-Unseen s tenant (read (get_document s coverage document_id)) _ w (unseen s tenant w)
            λ d _. unseen s tenant w)

  -- A request for the documents of a coverage.
  pub data Operation : Type 0 where
    upload : Text → Upload → Operation
    list_all : Text → Option IngestStatus → Operation
    presign : Text → Text → Operation
    retry : Text → Text → Operation
    delete : Text → Text → Operation

  unfoldable pub perform : Operation → World → World
  perform (upload coverage_id u) w = (upload_document s tenant coverage_id u w).1
  perform (list_all coverage_id status) w = (list_documents s tenant coverage_id status w).1
  perform (presign coverage_id document_id) w =
      (get_document_presigned_url s tenant coverage_id document_id w).1
  perform (retry coverage_id document_id) w = (retry_document s tenant coverage_id document_id w).1
  perform (delete coverage_id document_id) w =
      (delete_document s tenant coverage_id document_id w).1

  -- Where the identifiers of the rows are keys, a document has the tenant of its coverage and the
  -- tenant's identifier has no slash: a request of a tenant, whatever its fields and however its
  -- calls end, leaves the coverages, documents, queued tasks, stored objects, index points and sent
  -- jobs of the other tenants as they are.
  pub perform-Unseen :
      (op : Operation) (w : World)
      → HasNoSlash (s.show_uuid tenant)
      → IsConsistent w.rows
      → Unseen s tenant w (perform op w)
  unfolding perform
  perform-Unseen (upload coverage_id u) w plain ok = upload-Unseen coverage_id u w
  perform-Unseen (list_all coverage_id status) w plain ok = list-Unseen coverage_id status w
  perform-Unseen (presign coverage_id document_id) w plain ok =
      presign-Unseen coverage_id document_id w
  perform-Unseen (retry coverage_id document_id) w plain ok =
      retry-Unseen coverage_id document_id w ok
  perform-Unseen (delete coverage_id document_id) w plain ok =
      delete-Unseen coverage_id document_id w plain ok
