-- ===== src/Chunker/Document/Examples.antt =====
-- A small filing, cut into chunks.
use stock_analyst.Shared.{Text, codes, List, [], ◌∷◌, map, none, ◌≡◌, refl, length, All}
use stock_analyst.Shared.Regex.{occurs_in}
use stock_analyst.Chunker.Defs.{default_chunker}
use stock_analyst.Chunker.Pages.{ParsedDocument}
use stock_analyst.Chunker.Pages.{section_first_pages}
use stock_analyst.Chunker.Pages.{section_patterns}
use stock_analyst.Chunker.Pages.{page_of, first_pages_from, set_first}
use stock_analyst.Chunker.Document.{ExtractedTable, given, chunk_document}
use stock_analyst.Chunker.Document.Links.{IsLinked, chunk_document-IsLinked}
use stock_analyst.Chunker.Document.Scoped.{IsUnder, table_count, chunk_document-IsUnder}

abbrev filing : ParsedDocument
filing = record {
  document_id = codes "d";
  file_name = codes "a.pdf";
  pages =
      record { page_number = 4; text_blocks = codes "Item 1. Business" ∷ [] }
      ∷ record {
        page_number = 9;
        text_blocks = codes "ITEM 1A. Risk  factors" ∷ codes "Rates." ∷ [];
      }
      ∷ record { page_number = 10; text_blocks = codes "More risks." ∷ [] }
      ∷ [];
  sections =
      (codes "business", codes "We sell shoes. We sell hats.")
      ∷ (codes "risk_factors", codes "Rates may rise.")
      ∷ [];
}

abbrev table_in : Text → ExtractedTable
table_in section = record {
  page_number = 9;
  caption = none;
  section_name = section;
  as_markdown = codes "|a|";
  as_json = codes "{}";
  document_id = codes "d";
  filing_type = codes "10-K";
  period = codes "FY2023";
}

abbrev tables : List ExtractedTable
tables = table_in (codes "exhibits") ∷ table_in (codes "business") ∷ []

chunk_document-IsLinked_example :
    IsLinked none
      (chunk_document default_chunker filing tables (codes "n") (codes "c") none none none)
chunk_document-IsLinked_example =
    chunk_document-IsLinked default_chunker filing tables (codes "n") (codes "c") none none none

chunk_document-IsUnder_example :
    let chunks =
      chunk_document default_chunker filing tables (codes "n") (codes "c") none none none in
    All (λ x. IsUnder (given none filing.file_name) (codes "n") (codes "c") x.metadata.base) chunks
    × (table_count chunks ≡ length tables)
chunk_document-IsUnder_example =
    chunk_document-IsUnder default_chunker filing tables (codes "n") (codes "c") none none none

-- The first page of a section is found by its heading; the others stand on page 1.
pages_of_sections :
    let firsts = section_first_pages section_patterns filing in
    map (λ n. page_of n firsts) (codes "business" ∷ codes "risk_factors" ∷ codes "mda" ∷ [])
    ≡ 4 ∷ 9 ∷ 1 ∷ []
unfolding section_first_pages section_patterns occurs_in first_pages_from set_first
pages_of_sections = refl
