-- ===== src/Ingestion/Attempts.antt =====
-- What one run of the pipeline does to the document and to the count of its coverage.
use stock_analyst.Shared.{
  ℕ, ◌+◌, Text, List, [], ◌∷◌, map, true, none, some, ◌==◌, ◌≡◌, refl, ap, ◌∙◌, ◌⊎◌, inl, inr,
  Bool-cases, Option-cases, find_first, if◌then◌else◌,
}
use mathlib.Core.Option.{some-injective}
use stock_analyst.Orchestrator.Tasks.{Attempt, returned, threw}
use stock_analyst.Ingestion.Rows.{
  Document, World, Tools, IngestStatus, indexed, review_needed, find_document, update_document,
  duplicate_detected, log, is_duplicate, check_duplicate, set_document_status, finalize_success,
}
use stock_analyst.Ingestion.Run.{
  End, done, duplicate_document, low_text_coverage, exception, then_call, index_document,
  after_check, run_ingestion,
}

module _ {Quality : Type 0} where
  pub find-update :
      (id : ℕ) (f : Document Quality → Document Quality)
      → ((d : Document Quality) → (f d).id ≡ d.id)
      → (docs : List (Document Quality)) {d : Document Quality} → find_document id docs ≡ some d
      → find_document id (map (λ x. if x.id == id then f x else x) docs) ≡ some (f d)
  find-update id f keeps [] h = absurd (cc)
  find-update id f keeps (x ∷ docs) h = elim (Bool-cases (x.id == id)) [
    | inl here ↦
        let same = some-injective _ _ (rw here at h) in
        let kept : ((f x).id == id) ≡ true = ap (λ (n : ℕ). n == id) (keeps x) ∙ here in
        rw (here, kept) (ap (λ (y : Document Quality). some (f y)) same)
    | inr elsewhere ↦ rw (elsewhere, elsewhere) (find-update id f keeps docs (rw elsewhere at h))
  ]

  -- The document is there, with this status.
  abbrev pub HasStatus : ℕ → IngestStatus → World Quality → Type 0
  HasStatus id status w =
      (d : Document Quality) × (find_document id w.documents ≡ some d) × (d.ingest_status ≡ status)

  pub update-HasStatus :
      (id : ℕ) (status : IngestStatus) (f : Document Quality → Document Quality)
      → ((d : Document Quality) → (f d).id ≡ d.id)
      → ((d : Document Quality) → (f d).ingest_status ≡ status)
      → (w : World Quality) {d : Document Quality} → find_document id w.documents ≡ some d
      → HasStatus id status (update_document id f w)
  update-HasStatus id status f keeps sets w {d} h =
      (f d, find-update id f keeps w.documents h, sets d)

  -- A run of the pipeline from `w` to `w'`, by how it ended.
  abbrev pub Ran : ℕ → World Quality → World Quality → End → Type 0
  Ran id w w' done =
      HasStatus id indexed w'
      × (w'.coverage.document_count ≡ w.coverage.document_count + 1)
      × (w'.task ≡ w.task)
  Ran id w w' duplicate_document =
      HasStatus id review_needed w' × (w'.coverage ≡ w.coverage) × (w'.task ≡ w.task)
  Ran id w w' low_text_coverage =
      HasStatus id review_needed w' × (w'.coverage ≡ w.coverage) × (w'.task ≡ w.task)
  Ran id w w' (exception e) = w' ≡ w

  pub check_duplicate-cases :
      (id coverage_id : ℕ) (hash : Text) (w : World Quality) {d : Document Quality}
      → find_document id w.documents ≡ some d
      → (check_duplicate id coverage_id hash w ≡ (none, w))
        ⊎ ((other : Document Quality) × (w' : World Quality) × (check_duplicate id coverage_id hash
                w
              ≡ (some other, w'))
            × Ran id w w' duplicate_document)
  unfolding check_duplicate
  check_duplicate-cases id coverage_id hash w h =
      elim (Option-cases (find_first (is_duplicate id coverage_id hash) w.documents)) [
        | inl unique ↦ inl (rw (unique, check_duplicate) refl)
        | inr (other, twin) ↦ inr (
          other,
          log (duplicate_detected other.id) (
              update_document id
                (λ d. record d { file_hash = some hash; ingest_status = review_needed }) w),
          rw (twin, check_duplicate) refl,
          (update-HasStatus id review_needed _ (λ x. refl) (λ x. refl) w h, refl, refl),
        )
      ]

  module _ (tools : Tools Quality) (now tenant_id id coverage_id : ℕ) where
    then_call-Ran :
        {A : Type 0} (w : World Quality) (r : Attempt A) (next : A → World Quality × End)
        → ((a : A) → let (w', end) = next a in Ran id w w' end)
        → let (w', end) = then_call w r next in Ran id w w' end
    then_call-Ran w (threw e) next h = refl
    then_call-Ran w (returned a) next h = h a

    index_document-Ran :
        (content : tools.Content) (hash : Text) (d : Document Quality) (w : World Quality)
        → find_document id w.documents ≡ some d
        → let (w', end) = index_document tools now tenant_id id coverage_id content hash d w in
          Ran id w w' end
    unfolding index_document finalize_success set_document_status
    index_document-Ran content hash d w h =
        then_call-Ran w (tools.parse content id d.file_name) _ λ parsed.
          then_call-Ran w (tools.extract_tables content parsed id d.filing_type d.period) _
            λ tables. elim (Bool-cases (tools.is_low parsed.overall_text_coverage)) [
              | inl low ↦
                  rw low
                    (update-HasStatus id review_needed _ (λ x. refl) (λ x. refl) w h, refl, refl)
              | inr fine ↦ rw fine (
                  then_call-Ran w
                    (tools.chunk_document parsed tables tenant_id coverage_id d.filing_type d.period
                      d.file_name)
                    _
                    λ chunks. then_call-Ran w (tools.index_chunks chunks) _ λ points.
                      (update-HasStatus id indexed _ (λ x. refl) (λ x. refl) w h, refl, refl))
            ]

    after_check-Ran :
        (content : tools.Content) (hash : Text) (d : Document Quality) (w : World Quality)
        → find_document id w.documents ≡ some d
        → let (w', end) =
            after_check tools now tenant_id id coverage_id content hash d
              (check_duplicate id coverage_id hash w) in
          Ran id w w' end
    unfolding after_check
    after_check-Ran content hash d w h = elim (check_duplicate-cases id coverage_id hash w h) [
      | inl unique ↦ rw unique (index_document-Ran content hash d w h)
      | inr (other, w', twin, marked) ↦ rw twin marked
    ]

    pub run_ingestion-Ran :
        (w : World Quality) {d : Document Quality}
        → find_document id w.documents ≡ some d
        → let (w', end) = run_ingestion tools now tenant_id id coverage_id w in Ran id w w' end
    unfolding run_ingestion
    run_ingestion-Ran w {d} h =
        rw (h, run_ingestion)
          (then_call-Ran w (tools.download_file d.storage_path) _
            λ content. after_check-Ran content (tools.sha256 content) d w h)
