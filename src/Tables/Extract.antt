-- ===== src/Tables/Extract.antt =====
-- The rendering of a table as JSON, and the loop over the tables of a document.
use stock_analyst.Shared.{
  ℕ, ◌+◌, Text, codes, List, [], ◌∷◌, map, Bool, false, ◌&&◌, not, Option, none, some, ltb, ◌==◌,
  any, length, get_or, drop, is_empty, strip, same_text, filter_by, find_first, enumerate,
  if◌then◌else◌,
}
use stock_analyst.Chunker.Pages.{ParsedPage, ParsedDocument, section_patterns, section_after}
use stock_analyst.Tables.{
  TableCell, DoclingTable, page_number_of, cells_from_table, derive_headers, build_grid, header_of,
  table_to_markdown,
}

-- `d[key] = value`
unfoldable pub assign {ℓ} : {A : Type ℓ} → Text → A → List (Text × A) → List (Text × A)
assign key a [] = (key, a) ∷ []
assign key a ((k, b) ∷ rest) =
    let later = assign key a rest in if same_text k key then (k, a) ∷ rest else (k, b) ∷ later

pub record JsonRow : Type 0 where
  pub label : Text
  pub values : List (Text × Text)

pub record JsonTable : Type 0 where
  pub headers : List Text
  pub rows : List JsonRow

-- The dictionary of a row: its values by the headers, from the second column on.
unfoldable pub row_values : List Text → List Text → List (Text × Text) → List (Text × Text)
row_values [] row values = values
row_values (h ∷ headers) [] values = values
row_values (h ∷ headers) (v ∷ row) values = row_values headers row (assign h v values)

-- `row_headers[i]`, or the first cell where there is none
abbrev pub row_label : List Text → ℕ → List Text → Text
row_label row_headers i row =
    if ltb i (length row_headers) then get_or row_headers i [] else get_or row 0 []

-- `_table_to_json`
unfoldable pub table_to_json : List TableCell → List Text → List Text → JsonTable
table_to_json cells col_headers row_headers = elim (build_grid cells) [
  | [] ↦ record { headers = []; rows = [] }
  | first ∷ data_rows ↦
      let headers = header_of col_headers first in
      record {
        headers = headers;
        rows =
            map
              (λ (r : ℕ × List Text).
                let row : JsonRow = record {
                  label = row_label row_headers r.0 r.1;
                  values = row_values (drop 1 headers) (drop 1 r.1) [];
                } in
                row)
              (enumerate 0 data_rows);
      }
]

-- `_CAPTION_MAX_LEN`
abbrev pub caption_max_len : ℕ
caption_max_len = 150

abbrev pub ends_with_dot : Text → Bool
ends_with_dot [] = false
ends_with_dot (c ∷ []) = c == b'.'
ends_with_dot (c ∷ d ∷ t) = ends_with_dot (d ∷ t)

-- The last of some candidates, where it is short and no sentence.
unfoldable pub last_candidate : List Text → Option Text
last_candidate [] = none
last_candidate (t ∷ []) =
    if ltb (length t) caption_max_len && not (ends_with_dot t) then some t else none
last_candidate (t ∷ u ∷ ts) = last_candidate (u ∷ ts)

-- `_infer_caption`
unfoldable pub infer_caption : DoclingTable → ParsedDocument → Option Text
infer_caption table doc =
    elim (find_first (λ (p : ParsedPage). p.page_number == page_number_of table) doc.pages) [
      | none ↦ none
      | some page ↦ last_candidate (
          filter_by
            (λ t.
              not (is_empty t)
              && not (any (λ (c : TableCell). same_text c.value t) (cells_from_table table)))
            (map strip page.text_blocks))
    ]

-- `mapping[page.page_number] = current_section`, by the pages' numbers
unfoldable pub page_sections_from : Text → List ParsedPage → List (ℕ × Text) → List (ℕ × Text)
page_sections_from current [] mapping = mapping
page_sections_from current (page ∷ pages) mapping =
    let now = section_after section_patterns current page.text_blocks in
    page_sections_from now pages ((page.page_number, now) ∷ mapping)

-- `_page_sections`; the latest entry of a page is the one that counts.
unfoldable pub page_sections : ParsedDocument → List (ℕ × Text)
page_sections doc = page_sections_from (codes "cover") doc.pages []

unfoldable pub get_number {ℓ} : {A : Type ℓ} → ℕ → A → List (ℕ × A) → A
get_number key d [] = d
get_number key d ((k, a) ∷ rest) =
    let later = get_number key d rest in if k == key then a else later

pub record Extracted : Type 0 where
  pub page_number : ℕ
  pub table_index : ℕ
  pub caption : Option Text
  pub section_name : Text
  pub cells : List TableCell
  pub column_headers : List Text
  pub row_headers : List Text
  pub as_markdown : Text
  pub as_json : JsonTable
  pub document_id : Text
  pub filing_type : Text
  pub period : Text

module _ (doc : ParsedDocument) (document_id filing_type period : Text) where
  -- One table, with its index on its page.
  unfoldable pub extract_table : List (ℕ × Text) → ℕ → DoclingTable → Extracted
  extract_table sections index table =
      let cells = cells_from_table table in
      let (column_headers, row_headers) = derive_headers cells in
      record {
        page_number = page_number_of table;
        table_index = index;
        caption = infer_caption table doc;
        section_name = get_number (page_number_of table) (codes "unknown") sections;
        cells = cells;
        column_headers = column_headers;
        row_headers = row_headers;
        as_markdown = table_to_markdown cells column_headers;
        as_json = table_to_json cells column_headers row_headers;
        document_id = document_id;
        filing_type = filing_type;
        period = period;
      }

  -- The loop, with `page_table_counts`.
  unfoldable pub extract_from : List (ℕ × Text) → List DoclingTable → List (ℕ × ℕ) → List Extracted
  extract_from sections [] counts = []
  extract_from sections (table ∷ tables) counts =
      let index = get_number (page_number_of table) 0 counts in
      extract_table sections index table
      ∷ extract_from sections tables ((page_number_of table, index + 1) ∷ counts)

  -- `extract_tables`, of the tables that the converter finds
  unfoldable pub extract_tables : List DoclingTable → List Extracted
  extract_tables tables = extract_from (page_sections doc) tables []
