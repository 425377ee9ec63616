-- ===== src/Ingestion/Examples.antt =====
-- Documents ingested with small tools.
use stock_analyst.Shared.{
  ℕ, Text, codes, List, [], ◌∷◌, map, Option, none, some, ◌≡◌, refl, ltb, length, ok, if◌then◌else◌,
}
use stock_analyst.Orchestrator.Tasks.{TaskStatus, Attempt, returned, threw}
use stock_analyst.Ingestion.Rows.{
  Document, World, ParsedDocument, Tools, IngestStatus, check_duplicate, set_document_status,
  finalize_success, mark_document_failed,
}
use stock_analyst.Ingestion.Run.{
  End, done, set_task_status, index_document, after_check, run_ingestion, handle_failure, conclude,
  execute, attempts, ingest_document_task,
}
use stock_analyst.Ingestion.Assembled.{External, assembled_tools}
use stock_analyst.Ingestion.Points.{Searchable, run_ingestion-Searchable}
use stock_analyst.Tables.Extract.{extract_tables, extract_from, page_sections, page_sections_from}
use stock_analyst.Chunker.Document.{
  chunk_document, group_tables, add_table, sections_from, leftover_chunks, pop_tables, table_chunks,
  create_table_chunk,
}
use stock_analyst.Chunker.Defs.{make_chunk}
use stock_analyst.Index.{index_chunks, ensure_collection, upsert_batches, store_points}
use stock_analyst.Index.Embed.{batches_on, batches, gather_vectors, embed_batches}
use stock_analyst.Ingestion.Settled.{Ends, ingest_document_task-Ends}

abbrev parsed_file : ParsedDocument ℕ
parsed_file = record {
  contents = record {
    document_id = codes "7";
    file_name = codes "a.pdf";
    pages = [];
    sections = [];
  };
  overall_text_coverage = 90;
  total_pages = 3;
}

-- A quality is a percentage; the content of a file is its path, and so is its hash.
abbrev tools : Attempt Text → Tools ℕ
tools download = record {
  Content = Text;
  Table = ℕ;
  is_low = λ q. ltb q 50;
  download_file = λ path. download;
  sha256 = λ content. content;
  parse = λ content id name. returned parsed_file;
  extract_tables = λ content parsed id kind period. returned [];
  chunk_document = λ parsed tables tenant coverage kind period name. returned [];
  index_chunks = λ chunks. returned (length chunks);
}

-- The first download fails.
abbrev flaky : ℕ → Tools ℕ
flaky n = tools (if ltb n 1 then threw (codes "timeout") else returned (codes "file"))

abbrev steady : ℕ → Tools ℕ
steady n = tools (returned (codes "file"))

abbrev down : ℕ → Tools ℕ
down n = tools (threw (codes "timeout"))

abbrev document : ℕ → IngestStatus → Option Text → Document ℕ
document id status hash = record {
  id = id;
  coverage_id = 2;
  file_name = codes "a.pdf";
  filing_type = codes "10-K";
  period = codes "FY2023";
  storage_path = codes "file";
  page_count = none;
  chunk_count = 0;
  ingested_at = none;
  quality_score = none;
  ingest_status = status;
  file_hash = hash;
}

abbrev world : List (Document ℕ) → World ℕ
world documents = record {
  documents = documents;
  coverage = record { id = 2; document_count = 5; last_updated = none };
  audit = [];
  task = some (record {
    tenant_id = 1;
    coverage_id = some 2;
    status = TaskStatus.queued;
    started_at = none;
    completed_at = none;
    error = none;
    result = none;
  });
}

abbrev fresh : World ℕ
fresh = world (document 7 IngestStatus.pending none ∷ [])

ingest_document_task-Ends_example :
    let (w', v) = ingest_document_task flaky (λ n. n) 1 7 2 fresh in Ends 7 fresh w' v
ingest_document_task-Ends_example = ingest_document_task-Ends flaky (λ n. n) 1 7 2 fresh refl refl

abbrev summary : World ℕ → List IngestStatus × ℕ
summary w = (map (λ d. d.ingest_status) w.documents, w.coverage.document_count)

-- After a failed attempt the document is indexed; a store that stays down fails it.
two_runs :
    (summary (ingest_document_task flaky (λ n. n) 1 7 2 fresh).0 ≡ (IngestStatus.indexed ∷ [], 6))
    × (summary (ingest_document_task down (λ n. n) 1 7 2 fresh).0 ≡ (IngestStatus.failed ∷ [], 5))
unfolding ingest_document_task attempts execute conclude handle_failure run_ingestion after_check
    index_document set_task_status check_duplicate set_document_status finalize_success
    mark_document_failed
two_runs = (refl, refl)

-- A document that is ingested again is counted again.
counted_twice :
    summary
      (ingest_document_task steady
        (λ n. n)
        1
        7
        2
        (ingest_document_task steady (λ n. n) 1 7 2 fresh).0).0
    ≡ (IngestStatus.indexed ∷ [], 7)
unfolding ingest_document_task attempts execute conclude handle_failure run_ingestion after_check
    index_document set_task_status check_duplicate set_document_status finalize_success
    mark_document_failed
counted_twice = refl

-- The indexed original, ingested again, is taken for the duplicate of its own duplicate.
both_reviewed :
    summary
      (ingest_document_task steady
        (λ n. n)
        1
        7
        2
        (world (
          document 7 IngestStatus.pending (some (codes "file"))
          ∷ document 8 IngestStatus.review_needed (some (codes "file"))
          ∷ []))).0
    ≡ (IngestStatus.review_needed ∷ IngestStatus.review_needed ∷ [], 5)
unfolding ingest_document_task attempts execute conclude handle_failure run_ingestion after_check
    index_document set_task_status check_duplicate set_document_status finalize_success
    mark_document_failed
both_reviewed = refl

-- A file with one table, and a store that has the collection.
abbrev external : External ℕ ℕ
external = record {
  Content = Text;
  is_low = λ q. ltb q 50;
  download_file = λ path. returned path;
  sha256 = λ content. content;
  parse = λ content id name. returned parsed_file;
  convert = λ content. returned (record { prov = 3 ∷ []; table_cells = [] } ∷ []);
  dumps = λ t. codes "{}";
  show_uuid = λ n. codes "id";
  show_error = λ e. codes "error";
  clients = record {
    embed = λ t. ok (length t);
    crc32 = length;
    k1 = record { num = 3; den = 2 };
    collections = λ calls. ok (codes "tenant_id" ∷ []);
    fails = λ calls c. none;
  };
}

abbrev ingested : World ℕ × End
ingested = run_ingestion (assembled_tools external 1 []) 5 1 7 2 fresh

ingested_done : ingested.1 ≡ done
unfolding run_ingestion after_check index_document check_duplicate finalize_success
    set_document_status extract_tables extract_from page_sections page_sections_from chunk_document
    group_tables add_table sections_from leftover_chunks pop_tables table_chunks index_chunks
    ensure_collection upsert_batches store_points batches batches_on embed_batches gather_vectors
    create_table_chunk make_chunk
ingested_done = refl

run_ingestion-Searchable_example : Searchable external 5 1 7 2 [] fresh ingested.0
run_ingestion-Searchable_example =
    run_ingestion-Searchable external 5 1 7 2 [] fresh ingested.0 refl
      (λ i. (ingested.0, ingested_done i))
