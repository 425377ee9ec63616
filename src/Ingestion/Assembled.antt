-- ===== src/Ingestion/Assembled.antt =====
-- `_run_ingestion` of apps/api/tasks/ingestion.py with the table extractor, the chunker and the index
-- of packages/rag that it calls.
use stock_analyst.Shared.{ℕ, Text, codes, List, map, Bool, some, Raises, ok, raised, Error}
use stock_analyst.Chunker.Defs.{Chunk, default_chunker}
use stock_analyst.Chunker.Document.{ExtractedTable, chunk_document}
use stock_analyst.Tables.{DoclingTable}
use stock_analyst.Tables.Extract.{JsonTable, Extracted, extract_tables}
use stock_analyst.Index.{Call, IndexClients, index_chunks}
use stock_analyst.Orchestrator.Tasks.{Attempt, returned, threw}
use stock_analyst.Ingestion.Rows.{Document, ParsedDocument, Tools}

-- What is called outside the repository's own code, and the parser of PDF files.
module _ (Quality Vector : Type 0) where
  pub record External : Type 1 where
    pub Content : Type 0
    pub is_low : Quality → Bool
    pub download_file : Text → Attempt Content
    pub sha256 : Content → Text
    pub parse : Content → ℕ → Text → Attempt (ParsedDocument Quality)
    pub convert : Content → Attempt (List DoclingTable)
    pub dumps : JsonTable → Text
    pub show_uuid : ℕ → Text
    pub show_error : Error → Text
    pub clients : IndexClients Vector

abbrev pub attempt_of : {A : Type 0} → (Error → Text) → Raises A → Attempt A
attempt_of show (ok a) = returned a
attempt_of show (raised e) = threw (show e)

abbrev pub after_call : {A B : Type 0} → (A → B) → Attempt A → Attempt B
after_call f (returned a) = returned (f a)
after_call f (threw e) = threw e

-- A table as the chunker reads it.
abbrev pub table_for_chunker : (JsonTable → Text) → Extracted → ExtractedTable
table_for_chunker dumps t = record {
  page_number = t.page_number;
  caption = t.caption;
  section_name = t.section_name;
  as_markdown = t.as_markdown;
  as_json = dumps t.as_json;
  document_id = t.document_id;
  filing_type = t.filing_type;
  period = t.period;
}

module _ {Quality Vector : Type 0} (x : External Quality Vector) (tenant_id : ℕ)
    (before : List (Call Vector)) where
  -- The index after the calls `before`.
  abbrev pub indexing : List Chunk → Raises ℕ × List (Call Vector)
  indexing chunks = index_chunks x.clients (codes "tenant") chunks (x.show_uuid tenant_id) before

  -- The chunks of a document.
  abbrev pub cut_chunks :
      ℕ → Document Quality → ParsedDocument Quality → List ExtractedTable → List Chunk
  cut_chunks coverage d parsed tables =
      chunk_document default_chunker parsed.contents tables (x.show_uuid tenant_id)
        (x.show_uuid coverage) (some d.filing_type) (some d.period) (some d.file_name)

  abbrev pub assembled_tools : Tools Quality
  assembled_tools = record {
    Content = x.Content;
    Table = ExtractedTable;
    is_low = x.is_low;
    download_file = x.download_file;
    sha256 = x.sha256;
    parse = x.parse;
    extract_tables = λ content parsed id filing_type period.
        after_call
          (λ tables.
            map (table_for_chunker x.dumps)
              (extract_tables parsed.contents (x.show_uuid id) filing_type period tables))
          (x.convert content);
    chunk_document = λ parsed tables tenant coverage filing_type period name. returned (
        chunk_document default_chunker parsed.contents tables (x.show_uuid tenant)
          (x.show_uuid coverage) (some filing_type) (some period) (some name));
    index_chunks = λ chunks. attempt_of x.show_error (indexing chunks).0;
  }
