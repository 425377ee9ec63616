-- ===== src/Documents/Calls.antt =====
-- The calls of the handlers, one by one: what each leaves alone.
use stock_analyst.Shared.{
  ℕ, Text, codes, List, ◌∷◌, ◌++◌, true, ◌&&◌, not, Option, none, some, filter_by, same_text,
  same_text_refl, same_text_comm, starts_with, Bool-cases, ◌≡◌, refl, ap, ◌∙◌, inl, inr, arith,
}
use stock_analyst.Http.{Reply, answer, problem, crashed}
use stock_analyst.Storage.{
  bucket_of, object_path, is_object, attempted, split_path, validate_tenant_path, upload_file,
  delete_file,
}
use stock_analyst.Storage.Paths.{HasNoSlash, bucket_of-HasNoSlash, split_path-bucket}
use stock_analyst.Documents.{
  Coverage, DocumentRow, Job, IndexPoint, World, Filing, DocumentServices, ◌>>=◌, reply, store,
}
use stock_analyst.Documents.Create.{
  Upload, check_form, check_body, create_document_from_upload, create_document_from_sec_fetch,
  create_document, download_to_minio, fetched, add_document, found_filing, downloaded,
}
use stock_analyst.Documents.Handlers.{taken, delay, job_of, enqueue, deleted}
use stock_analyst.Documents.Filters.{filter_by-filter_by, filter_by-snoc}
use stock_analyst.Documents.Tenants.{
  Unseen, same_rows, unseen, bind-Unseen, other_object, other_point, other_job, other_document,
  other_queued,
}

module _ (s : DocumentServices) (tenant : ℕ) where
  -- A change of the objects that keeps those of the other buckets.
  objects-Unseen :
      (w : World) (objects : List (Text × Text))
      → filter_by (other_object s tenant) objects ≡ filter_by (other_object s tenant) w.objects
      → Unseen s tenant w (record w { objects = objects })
  objects-Unseen w objects h = record {
    rows = same_rows s tenant w.rows;
    objects = h;
    points = refl;
    jobs = refl;
  }

  -- An object of the bucket of the tenant is none of the others'.
  own_object :
      (key : Text) (o : Text × Text)
      → other_object s tenant o ≡ true
      → not (is_object (bucket_of (s.show_uuid tenant), key) o) ≡ true
  own_object key o h = elim (Bool-cases (same_text (bucket_of (s.show_uuid tenant)) o.0)) [
    | inl same ↦ absurd (ground (arith, same_text_comm (bucket_of (s.show_uuid tenant)) o.0))
    | inr differs ↦ ground (arith, differs)
  ]

  attempted-Unseen :
      {A : Type 0} (e : Option Text) (a : A) (w : World) (objects : List (Text × Text))
      → filter_by (other_object s tenant) objects ≡ filter_by (other_object s tenant) w.objects
      → Unseen s tenant w (record w { objects = (attempted s.client e a w.objects objects).1 })
  attempted-Unseen none a w objects h = objects-Unseen w objects h
  attempted-Unseen (some e) a w objects h = unseen s tenant w

  uploaded :
      (key : Text) (objects : List (Text × Text))
      → filter_by (other_object s tenant) (
          (bucket_of (s.show_uuid tenant), key)
          ∷ filter_by (λ o. not (is_object (bucket_of (s.show_uuid tenant), key) o)) objects)
        ≡ filter_by (other_object s tenant) objects
  uploaded key objects =
      rw (same_text_refl (bucket_of (s.show_uuid tenant)))
        (filter_by-filter_by (other_object s tenant) _ objects (own_object key))

  upload-Unseen :
      (coverage_id kind name : Text) (w : World)
      → Unseen s tenant w
          (store (upload_file s.client (s.show_uuid tenant) coverage_id kind name) w).1
  unfolding upload_file
  upload-Unseen coverage_id kind name w =
      attempted-Unseen {A = Text}
        (s.client.put_object (bucket_of (s.show_uuid tenant))
          (kind ++ (codes "/" ++ (coverage_id ++ (codes "/" ++ name)))))
        (object_path (s.show_uuid tenant) coverage_id kind name) w _
        (uploaded (kind ++ (codes "/" ++ (coverage_id ++ (codes "/" ++ name)))) w.objects)

  add_document-Unseen :
      (d : DocumentRow) (w : World)
      → d.tenant_id ≡ tenant
      → Unseen s tenant w (add_document s d w).1
  add_document-Unseen d w own = record {
    rows = record {
      coverages = refl;
      documents = filter_by-snoc (other_document s tenant) w.rows.documents d (ground arith);
      queue = refl;
    };
    objects = refl;
    points = refl;
    jobs = refl;
  }

  -- A row of the tenant and then an answer.
  added-Unseen :
      (d : DocumentRow) (w : World)
      → d.tenant_id ≡ tenant
      → Unseen s tenant w ((add_document s d >>= (λ _. reply (answer d))) w).1
  added-Unseen d w own = add_document-Unseen d w own

  pub create_document_from_upload-Unseen :
      (u : Upload) (coverage : Coverage) (w : World)
      → Unseen s tenant w (create_document_from_upload s u coverage tenant w).1
  unfolding create_document_from_upload
  create_document_from_upload-Unseen u coverage w =
      bind-Unseen s tenant (reply (check_form s u.form)) _ w (unseen s tenant w) λ f _.
        bind-Unseen s tenant
          (store
            (upload_file s.client (s.show_uuid tenant) (s.show_uuid coverage.id) (codes "raw") f.0))
          _ w (upload-Unseen (s.show_uuid coverage.id) (codes "raw") f.0 w)
          λ path _. added-Unseen _ _ refl

  fetched-Unseen :
      (filing : Filing) (coverage_id : Text) (failure : Option Text) (w : World)
      → Unseen s tenant w (fetched s filing (s.show_uuid tenant) coverage_id failure w).1
  fetched-Unseen filing coverage_id none w =
      bind-Unseen s tenant
        (store (
          upload_file s.client (s.show_uuid tenant) coverage_id (codes "raw")
            (filing.accession_number ++ codes ".pdf")))
        _ w (upload-Unseen coverage_id (codes "raw") (filing.accession_number ++ codes ".pdf") w)
        (λ path _. unseen s tenant _)
  fetched-Unseen filing coverage_id (some e) w = unseen s tenant w

  download_to_minio-Unseen :
      (filing : Filing) (coverage_id : Text) (w : World)
      → Unseen s tenant w (download_to_minio s filing (s.show_uuid tenant) coverage_id w).1
  unfolding download_to_minio
  download_to_minio-Unseen filing coverage_id w =
      fetched-Unseen filing coverage_id (s.download filing) w

  pub create_document_from_sec_fetch-Unseen :
      (u : Upload) (coverage : Coverage) (w : World)
      → Unseen s tenant w (create_document_from_sec_fetch s u coverage tenant w).1
  unfolding create_document_from_sec_fetch
  create_document_from_sec_fetch-Unseen u coverage w =
      bind-Unseen s tenant (reply (check_body s u.body)) _ w (unseen s tenant w) λ b _.
        bind-Unseen s tenant (reply (s.fetch_filing b.0 b.1 b.2)) _ w (unseen s tenant w) λ hit _.
          bind-Unseen s tenant (reply (found_filing s hit)) _ w (unseen s tenant w) λ filing _.
            bind-Unseen s tenant
              (download_to_minio s filing (s.show_uuid tenant) (s.show_uuid coverage.id)) _ w
              (download_to_minio-Unseen filing (s.show_uuid coverage.id) w)
              λ result _.
                bind-Unseen s tenant (reply (downloaded s result)) _ _ (unseen s tenant _)
                  λ path _. added-Unseen _ _ refl

  pub create_document-Unseen :
      (u : Upload) (coverage : Coverage) (w : World)
      → Unseen s tenant w (create_document s u coverage tenant w).1
  unfolding create_document
  create_document-Unseen u coverage w =
      elim (Bool-cases (starts_with u.content_type (codes "multipart/form-data"))) [
        | inl form ↦ rw form (create_document_from_upload-Unseen u coverage w)
        | inr other ↦ elim (Bool-cases (starts_with u.content_type (codes "application/json"))) [
          | inl json ↦ rw (other, json) (create_document_from_sec_fetch-Unseen u coverage w)
          | inr neither ↦ rw (other, neither) (unseen s tenant w)
        ]
      ]

  taken-Unseen :
      (job : Job) (w : World) (r : Reply Text)
      → job.tenant_id ≡ s.show_uuid tenant
      → Unseen s tenant w (taken s job w r).1
  taken-Unseen job w (answer id) own = record {
    rows = same_rows s tenant w.rows;
    objects = refl;
    points = refl;
    jobs =
        filter_by-snoc (other_job s tenant) w.jobs job
          (rw own (rw (same_text_refl (s.show_uuid tenant)) refl));
  }
  taken-Unseen job w (problem status detail) own = unseen s tenant w
  taken-Unseen job w (crashed e) own = unseen s tenant w

  pub enqueue-Unseen :
      (d : DocumentRow) (coverage : Coverage) (w : World)
      → Unseen s tenant w (enqueue s d coverage tenant w).1
  unfolding enqueue delay
  enqueue-Unseen d coverage w =
      bind-Unseen s tenant (delay s (job_of s d coverage tenant)) _ w
        (taken-Unseen (job_of s d coverage tenant) w (s.send (job_of s d coverage tenant)) refl)
        λ id _. record {
          rows = record {
            coverages = refl;
            documents = refl;
            queue = filter_by-snoc (other_queued s tenant) _ _ (ground arith);
          };
          objects = refl;
          points = refl;
          jobs = refl;
        }

  pub deleted-Unseen :
      (document_id : Text) (w : World) (failure : Option Text)
      → Unseen s tenant w (deleted s document_id (s.show_uuid tenant) w failure).1
  deleted-Unseen document_id w (some e) = unseen s tenant w
  deleted-Unseen document_id w none = record {
    rows = same_rows s tenant w.rows;
    objects = refl;
    points =
        filter_by-filter_by (other_point s tenant) _ w.points (λ (p : IndexPoint) h. ground arith);
    jobs = refl;
  }

  -- The objects after the deletion of a file: its path begins with the bucket of the tenant.
  removed-Unseen :
      (path : Text) (w : World)
      → HasNoSlash (s.show_uuid tenant)
      → starts_with path (bucket_of (s.show_uuid tenant) ++ codes "/") ≡ true
      → filter_by
          (other_object s tenant)
          (filter_by (λ o. not (is_object (split_path path) o)) w.objects)
        ≡ filter_by (other_object s tenant) w.objects
  removed-Unseen path w plain own = filter_by-filter_by (other_object s tenant) _ w.objects λ o h.
      let same =
        split_path-bucket (bucket_of (s.show_uuid tenant)) path
          (bucket_of-HasNoSlash (s.show_uuid tenant) plain) own in
      ap (λ b. not (same_text b o.0 && same_text (split_path path).1 o.1)) same
      ∙ own_object (split_path path).1 o h

  pub delete_file-Unseen :
      (path : Text) (w : World)
      → HasNoSlash (s.show_uuid tenant)
      → Unseen s tenant w (store (delete_file s.client (s.show_uuid tenant) path) w).1
  unfolding delete_file validate_tenant_path
  delete_file-Unseen path w plain =
      elim (Bool-cases (starts_with path (bucket_of (s.show_uuid tenant) ++ codes "/"))) [
        | inl own ↦
            rw (own, delete_file, validate_tenant_path)
              (attempted-Unseen {A = Unit {0}}
                (s.client.remove_object (split_path path).0 (split_path path).1) tt w _
                (removed-Unseen path w plain own))
        | inr other ↦ rw (other, delete_file, validate_tenant_path) (unseen s tenant w)
      ]
