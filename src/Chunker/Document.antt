-- ===== src/Chunker/Document.antt =====
-- `chunk_document` and `_create_table_chunk` of hierarchical.py.
pub mod Links
pub mod Scoped
mod Examples
use stock_analyst.Shared.{
  ℕ, ◌+◌, Text, codes, List, [], ◌∷◌, ◌++◌, map, Bool, true, false, Option, none, some, length,
  is_empty, is_space, same_text, strip, if◌then◌else◌, not, ◌==◌,
}
use stock_analyst.Shared.Regex.{
  Regex, occurs_in, seq, chain, star, plus, maybe, exactly, exactly_i, not_among, empty, one,
  literal_i, any_of, literal,
}
use stock_analyst.Chunker.Defs.{Chunk, ChunkType, table, Base, Chunker, make_chunk, token_estimate}
use stock_analyst.Chunker.Pages.{ParsedDocument, section_patterns, section_first_pages, page_of}
use stock_analyst.Chunker.Parents.{split_into_parent_chunks, not_blank}
use stock_analyst.Chunker.Children.{split_into_child_chunks}

-- `as_json` is the text that `json.dumps` gives.
pub record ExtractedTable : Type 0 where
  pub page_number : ℕ
  pub caption : Option Text
  pub section_name : Text
  pub as_markdown : Text
  pub as_json : Text
  pub document_id : Text
  pub filing_type : Text
  pub period : Text

-- `a or b`, of texts
abbrev pub or_else : Text → Text → Text
or_else [] b = b
or_else (a ∷ t) b = a ∷ t

abbrev pub given : Option Text → Text → Text
given none b = b
given (some t) b = or_else t b

-- `_create_table_chunk`, with the identifier drawn
unfoldable pub create_table_chunk : ℕ → ExtractedTable → Text → Text → Text → Chunk
create_table_chunk id t document_name tenant_id coverage_id =
    let content =
      codes "TABLE: "
      ++ (given t.caption (codes "Untitled")
          ++ (10 ∷ 10 ∷ (t.as_markdown ++ (10 ∷ 10 ∷ (codes "JSON:" ++ (10 ∷ t.as_json)))))) in
    make_chunk id content table none
      (record {
        document_id = t.document_id;
        document_name = document_name;
        filing_type = t.filing_type;
        period = t.period;
        section_name = t.section_name;
        tenant_id = tenant_id;
        coverage_id = coverage_id;
        page_number = t.page_number;
      })
      0 (length content)

-- `tables_by_section.setdefault(name, []).append(table)`
abbrev pub Groups : Type 0
Groups = List (Text × List ExtractedTable)

unfoldable pub add_table : ExtractedTable → Groups → Groups
add_table t [] = (t.section_name, t ∷ []) ∷ []
add_table t ((name, ts) ∷ gs) =
    let rest = add_table t gs in
    if same_text name t.section_name then (name, ts ++ (t ∷ [])) ∷ gs else (name, ts) ∷ rest

unfoldable pub group_tables : List ExtractedTable → Groups → Groups
group_tables [] gs = gs
group_tables (t ∷ ts) gs = group_tables ts (add_table t gs)

-- `tables_by_section.pop(name, [])`: the tables, and the groups that are left.
unfoldable pub pop_tables : Text → Groups → List ExtractedTable × Groups
pop_tables name [] = ([], [])
pop_tables name ((n, ts) ∷ gs) =
    let (found, rest) = pop_tables name gs in
    if same_text n name then (ts, gs) else (found, (n, ts) ∷ rest)

module _ (c : Chunker) (document_name tenant_id coverage_id : Text) where
  unfoldable pub table_chunks : ℕ → List ExtractedTable → List Chunk
  table_chunks id [] = []
  table_chunks id (t ∷ ts) =
      create_table_chunk id t document_name tenant_id coverage_id ∷ table_chunks (id + 1) ts

  -- Each parent with its children behind it; identifiers from `id` on.
  unfoldable pub with_children : ℕ → List Chunk → List Chunk
  with_children id [] = []
  with_children id (p ∷ ps) =
      let children = split_into_child_chunks c p id in
      p ∷ (children ++ with_children (id + length children) ps)

  -- The chunks of a section's text, if it has any.
  unfoldable pub section_chunks : ℕ → Base → Text → ℕ → List Chunk
  section_chunks id base content global_offset =
      if not_blank content
      then (let parents = split_into_parent_chunks c content base global_offset id in
          with_children (id + length parents) parents)
      else []

  -- Tables whose section matched no text.
  unfoldable pub leftover_chunks : ℕ → Groups → List Chunk
  leftover_chunks id [] = []
  leftover_chunks id ((name, ts) ∷ gs) = table_chunks id ts ++ leftover_chunks (id + length ts) gs

  -- The loop over the sections, then over what is left of the tables.
  unfoldable pub sections_from : (Text → Base) → ℕ → ℕ → List (Text × Text) → Groups → List Chunk
  sections_from base_of id global_offset [] gs = leftover_chunks id gs
  sections_from base_of id global_offset ((name, content) ∷ rest) gs =
      let chunks = section_chunks id (base_of name) content global_offset in
      let (ts, gs') = pop_tables name gs in
      let next = id + length chunks in
      chunks
      ++ (table_chunks next ts
          ++ sections_from base_of (next + length ts) (global_offset + length content + 2) rest gs')

abbrev pub first_or : (ExtractedTable → Text) → List ExtractedTable → Text
first_or field [] = codes "unknown"
first_or field (t ∷ _) = field t

unfoldable pub chunk_document :
    Chunker
    → ParsedDocument
    → List ExtractedTable
    → Text
    → Text
    → Option Text
    → Option Text
    → Option Text
    → List Chunk
chunk_document c doc tables tenant_id coverage_id filing_type period document_name =
    let name = given document_name doc.file_name in
    let firsts = section_first_pages section_patterns doc in
    sections_from c name tenant_id coverage_id
      (λ section. record {
        document_id = doc.document_id;
        document_name = name;
        filing_type = given filing_type (first_or (λ t. t.filing_type) tables);
        period = given period (first_or (λ t. t.period) tables);
        section_name = section;
        tenant_id = tenant_id;
        coverage_id = coverage_id;
        page_number = page_of section firsts;
      })
      0 0 doc.sections (group_tables tables [])
