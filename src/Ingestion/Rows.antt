-- ===== src/Ingestion/Rows.antt =====
-- The rows that ingestion writes, the tools that it calls, and its single transactions.
use stock_analyst.Shared.{
  ℕ, ◌+◌, Text, List, [], ◌∷◌, ◌++◌, map, Bool, ◌&&◌, not, true, false, Option, none, some, ◌==◌,
  take, find_first, same_text, if◌then◌else◌,
}
use stock_analyst.Chunker.Defs.{Chunk, parent}
use stock_analyst.Chunker.Pages
use stock_analyst.Orchestrator.Tasks.{TaskRow, Attempt}

-- `chunk_type in _SEARCHABLE_CHUNK_TYPES`
abbrev pub is_searchable : Chunk → Bool
is_searchable c = elim c.chunk_type [ parent ↦ false | _ ↦ true ]

pub data IngestStatus : Type 0 where
  pending processing indexed failed review_needed : IngestStatus

module _ (Quality : Type 0) where
  -- A row of `documents`.
  pub record Document : Type 0 where
    pub id : ℕ
    pub coverage_id : ℕ
    pub file_name : Text
    pub filing_type : Text
    pub period : Text
    pub storage_path : Text
    pub page_count : Option ℕ
    pub chunk_count : ℕ
    pub ingested_at : Option ℕ
    pub quality_score : Option Quality
    pub ingest_status : IngestStatus
    pub file_hash : Option Text

-- A row of `coverages`, as far as ingestion changes it.
pub record Coverage : Type 0 where
  pub id : ℕ
  pub document_count : ℕ
  pub last_updated : Option ℕ

pub data Action : Type 0 where
  duplicate_detected : ℕ → Action
  ingest_complete : ℕ → ℕ → Action
  ingest_failed : Text → Action

module _ (Quality : Type 0) where
  pub record World : Type 0 where
    pub documents : List (Document Quality)
    pub coverage : Coverage
    pub audit : List Action
    pub task : Option TaskRow

-- What the parser returns of a file: its contents, as the chunker sees them, and its quality.
module _ (Quality : Type 0) where
  pub record ParsedDocument : Type 0 where
    pub contents : Pages.ParsedDocument
    pub overall_text_coverage : Quality
    pub total_pages : ℕ

-- What the pipeline calls: storage, hash, parsers, chunker and index; any call may raise.
module _ (Quality : Type 0) where
  pub record Tools : Type 1 where
    pub Content : Type 0
    pub Table : Type 0
    pub is_low : Quality → Bool
    pub download_file : Text → Attempt Content
    pub sha256 : Content → Text
    pub parse : Content → ℕ → Text → Attempt (ParsedDocument Quality)
    pub extract_tables : Content → ParsedDocument Quality → ℕ → Text → Text → Attempt (List Table)
    pub chunk_document :
        ParsedDocument Quality → List Table → ℕ → ℕ → Text → Text → Text → Attempt (List Chunk)
    pub index_chunks : List Chunk → Attempt ℕ

module _ {Quality : Type 0} where
  -- `session.get(Document, id)`
  abbrev pub find_document : ℕ → List (Document Quality) → Option (Document Quality)
  find_document id docs = find_first (λ d. d.id == id) docs

  -- The assignments to the attributes of one row.
  abbrev pub update_document :
      ℕ → (Document Quality → Document Quality) → World Quality → World Quality
  update_document id f w = record w {
    documents = map (λ d. if d.id == id then f d else d) w.documents;
  }

  abbrev pub log : Action → World Quality → World Quality
  log a w = record w { audit = w.audit ++ (a ∷ []) }

  abbrev pub has_hash : Text → Document Quality → Bool
  has_hash hash d = elim d.file_hash [ none ↦ false | some h ↦ same_text h hash ]

  -- Another document of the coverage with the same hash, whatever its status.
  abbrev pub is_duplicate : ℕ → ℕ → Text → Document Quality → Bool
  is_duplicate id coverage_id hash d =
      d.coverage_id == coverage_id && (has_hash hash d && not (d.id == id))

  -- `_check_duplicate`
  unfoldable pub check_duplicate :
      ℕ → ℕ → Text → World Quality → Option (Document Quality) × World Quality
  check_duplicate id coverage_id hash w =
      elim (find_first (is_duplicate id coverage_id hash) w.documents) [
        | none ↦ (none, w)
        | some other ↦ (
          some other,
          log (duplicate_detected other.id) (
              update_document id
                (λ d. record d {
                  file_hash = some hash;
                  ingest_status = IngestStatus.review_needed;
                })
                w),
        )
      ]

  -- `_set_document_status`
  unfoldable pub set_document_status : ℕ → IngestStatus → World Quality → World Quality
  set_document_status id status = update_document id (λ d. record d { ingest_status = status })

  -- `_finalize_success`
  unfoldable pub finalize_success :
      ℕ → ℕ → Text → ℕ → ℕ → Quality → ℕ → World Quality → World Quality
  finalize_success now id hash chunk_count indexed_points quality_score page_count w =
      let w₁ =
        update_document id
          (λ d. record d {
            chunk_count = chunk_count;
            quality_score = some quality_score;
            ingest_status = IngestStatus.indexed;
            ingested_at = some now;
            page_count = some page_count;
            file_hash = some hash;
          })
          w in
      log (ingest_complete chunk_count indexed_points) (record w₁ {
        coverage = record w₁.coverage {
          document_count = w₁.coverage.document_count + 1;
          last_updated = some now;
        };
      })

  -- `_mark_document_failed`
  unfoldable pub mark_document_failed : ℕ → Text → World Quality → World Quality
  mark_document_failed id e w =
      log (ingest_failed (take 2000 e)) (set_document_status id IngestStatus.failed w)
