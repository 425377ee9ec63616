-- ===== src/Ingestion/Completed.antt =====
-- What `_run_ingestion` of apps/api/tasks/ingestion.py has called when it is done.
use stock_analyst.Shared.{
  ℕ, Text, List, some, length, filter_by, ◌≡◌, refl, sym, ap, inl, inr, Bool-cases,
}
use stock_analyst.Chunker.Defs.{Chunk}
use stock_analyst.Orchestrator.Tasks.{Attempt, returned, threw}
use stock_analyst.Ingestion.Rows.{
  Document, World, ParsedDocument, Tools, IngestStatus, find_document, finalize_success,
  is_searchable,
}
use stock_analyst.Ingestion.Run.{End, done, then_call, index_document, after_check, run_ingestion}
use stock_analyst.Ingestion.Attempts.{find-update, check_duplicate-cases}

-- The document after `_finalize_success`.
pub finalized :
    {Quality : Type 0} (now id : ℕ) (hash : Text) (n count : ℕ) (quality : Quality) (pages : ℕ)
    (w : World Quality) {d : Document Quality}
    → find_document id w.documents ≡ some d
    → (d' : Document Quality) × (find_document id
          (finalize_success now id hash n count quality pages w).documents
        ≡ some d')
      × (d'.ingest_status ≡ IngestStatus.indexed)
      × (d'.chunk_count ≡ n)
unfolding finalize_success
finalized now id hash n count quality pages w {d} found =
    (_, find-update id _ (λ x. refl) w.documents found, refl, refl)

module _ {Quality : Type 0} (tools : Tools Quality) (now tenant_id id coverage_id : ℕ) where
  -- The calls of a run from `w` to `w'`, each with what it returned.
  pub record Completed (w w' : World Quality) : Type 0 where
    pub document : Document Quality
    pub found : find_document id w.documents ≡ some document
    pub content : tools.Content
    pub parsed : ParsedDocument Quality
    pub parses : tools.parse content id document.file_name ≡ returned parsed
    pub tables : List tools.Table
    pub extracts :
        tools.extract_tables content parsed id document.filing_type document.period
        ≡ returned tables
    pub chunks : List Chunk
    pub cuts :
        tools.chunk_document parsed tables tenant_id coverage_id document.filing_type
          document.period document.file_name
        ≡ returned chunks
    pub count : ℕ
    pub indexes : tools.index_chunks chunks ≡ returned count
    pub ends :
        w'
        ≡ finalize_success now id
            (tools.sha256 content)
            (length (filter_by is_searchable chunks))
            count
            parsed.overall_text_coverage
            parsed.total_pages
            w

  then_call-done :
      {A : Type 0} (w w' : World Quality) (r : Attempt A) (next : A → World Quality × End)
      → then_call w r next ≡ (w', done)
      → (a : A) × (r ≡ returned a) × (next a ≡ (w', done))
  then_call-done w w' (returned a) next h = (a, refl, h)
  then_call-done w w' (threw e) next h = absurd (cc h)

  -- What follows the quality check.
  cut-Completed :
      (content : tools.Content) (d : Document Quality) (w w' : World Quality)
      (parsed : ParsedDocument Quality) (tables : List tools.Table)
      → find_document id w.documents ≡ some d
      → tools.parse content id d.file_name ≡ returned parsed
      → tools.extract_tables content parsed id d.filing_type d.period ≡ returned tables
      → then_call w
          (tools.chunk_document parsed tables tenant_id coverage_id d.filing_type d.period
            d.file_name)
          (λ chunks. then_call w (tools.index_chunks chunks) (λ count. (
            finalize_success now id
                (tools.sha256 content)
                (length (filter_by is_searchable chunks))
                count
                parsed.overall_text_coverage
                parsed.total_pages
                w,
            done,
          )))
        ≡ (w', done)
      → Completed w w'
  cut-Completed content d w w' parsed tables found parses extracts h =
      let (chunks, cuts, h₁) =
        then_call-done w w'
          (tools.chunk_document parsed tables tenant_id coverage_id d.filing_type d.period
            d.file_name)
          _ h in
      let (count, indexes, h₂) = then_call-done w w' (tools.index_chunks chunks) _ h₁ in
      record {
        document = d;
        found = found;
        content = content;
        parsed = parsed;
        parses = parses;
        tables = tables;
        extracts = extracts;
        chunks = chunks;
        cuts = cuts;
        count = count;
        indexes = indexes;
        ends = sym (ap (λ (p : World Quality × End). p.0) h₂);
      }

  index_document-Completed :
      (content : tools.Content) (d : Document Quality) (w w' : World Quality)
      → find_document id w.documents ≡ some d
      → index_document tools now tenant_id id coverage_id content (tools.sha256 content) d w
        ≡ (w', done)
      → Completed w w'
  unfolding index_document
  index_document-Completed content d w w' found h =
      let (parsed, parses, h₁) = then_call-done w w' (tools.parse content id d.file_name) _ h in
      let (tables, extracts, h₂) =
        then_call-done w w' (tools.extract_tables content parsed id d.filing_type d.period) _ h₁ in
      elim (Bool-cases (tools.is_low parsed.overall_text_coverage)) [
        | inl low ↦ absurd (cc (rw low at h₂))
        | inr fine ↦
            cut-Completed content d w w' parsed tables found parses extracts (rw fine at h₂)
      ]

  -- A run that is done has made these calls.
  pub run_ingestion-Completed :
      (w w' : World Quality) {d : Document Quality}
      → find_document id w.documents ≡ some d
      → run_ingestion tools now tenant_id id coverage_id w ≡ (w', done)
      → Completed w w'
  unfolding run_ingestion after_check
  run_ingestion-Completed w w' {d} found h =
      let (content, _, h₁) =
        then_call-done w w' (tools.download_file d.storage_path) _
          (rw (found, run_ingestion) at h) in
      elim (check_duplicate-cases id coverage_id (tools.sha256 content) w found) [
        | inl unique ↦ index_document-Completed content d w w' found (rw unique at h₁)
        | inr (other, w₁, twin, _) ↦ absurd (cc (rw twin at h₁))
      ]
