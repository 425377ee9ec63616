-- ===== src/Tables.antt =====
-- The tables of packages/rag/src/rag/ingestion/parsers/table_extractor.py: from the cells that the
-- converter finds to a grid, its headers, and its rendering.
pub mod Grid
pub mod Lines
pub mod Extract
pub mod Numbers
mod Examples
use stock_analyst.Shared.{
  ℕ, zero, suc, ◌+◌, ◌-◌, max, Text, codes, List, [], ◌∷◌, ◌++◌, map, Bool, true, false, ◌&&◌, ◌||◌,
  not, Option, none, some, ltb, ◌==◌, any, length, get_or, drop, take, is_empty, strip, same_text,
  join, if◌then◌else◌, find_first,
}
use stock_analyst.Chunker.Pages.{ParsedPage, ParsedDocument, section_patterns, section_after}

pub record TableCell : Type 0 where
  pub row : ℕ
  pub col : ℕ
  pub value : Text
  pub is_header : Bool

-- A cell and a table as the converter gives them.
pub record DoclingCell : Type 0 where
  pub start_row_offset_idx : ℕ
  pub start_col_offset_idx : ℕ
  pub text : Text
  pub column_header : Bool
  pub row_header : Bool

pub record DoclingTable : Type 0 where
  pub prov : List ℕ
  pub table_cells : List DoclingCell

-- `_page_number`
unfoldable pub page_number_of : DoclingTable → ℕ
page_number_of t = elim t.prov [ [] ↦ 1 | page ∷ _ ↦ page ]

-- `_cells_from_table`
unfoldable pub cells_from_table : DoclingTable → List TableCell
cells_from_table t =
    map
      (λ (c : DoclingCell).
        let cell : TableCell = record {
          row = c.start_row_offset_idx;
          col = c.start_col_offset_idx;
          value = strip c.text;
          is_header = c.column_header || c.row_header;
        } in
        cell)
      t.table_cells

-- `max(c.row for c in cells)`, and zero of no cells
abbrev pub max_row : List TableCell → ℕ
max_row [] = 0
max_row (c ∷ cells) = max c.row (max_row cells)

abbrev pub max_col : List TableCell → ℕ
max_col [] = 0
max_col (c ∷ cells) = max c.col (max_col cells)

-- `xs[i] = x`; out of range, where Python raises, nothing is changed.
abbrev pub set {ℓ} : {A : Type ℓ} → List A → ℕ → A → List A
set [] i v = []
set (x ∷ xs) zero v = v ∷ xs
set (x ∷ xs) (suc i) v = x ∷ set xs i v

abbrev pub replicate {ℓ} : {A : Type ℓ} → ℕ → A → List A
replicate zero x = []
replicate (suc n) x = x ∷ replicate n x

-- The loop of `_derive_headers` over the cells of the first row.
unfoldable pub fill_headers : List TableCell → List Text → List Text
fill_headers [] headers = headers
fill_headers (c ∷ cells) headers =
    fill_headers cells (if c.row == 0 then set headers c.col c.value else headers)

-- The label of a row: the first cell of its first column.
abbrev pub label_of : ℕ → List TableCell → Text
label_of r cells = elim (find_first (λ c. c.row == r && c.col == 0) cells) [
  | none ↦ []
  | some c ↦ c.value
]

-- `range(first, first + n)`
abbrev pub range_from : ℕ → ℕ → List ℕ
range_from first zero = []
range_from first (suc n) = first ∷ range_from (first + 1) n

-- `_derive_headers`
unfoldable pub derive_headers : List TableCell → List Text × List Text
derive_headers [] = ([], [])
derive_headers (c ∷ cells) = (
  fill_headers (c ∷ cells) (replicate (suc (max_col (c ∷ cells))) []),
  map (λ r. label_of r (c ∷ cells)) (range_from 1 (max_row (c ∷ cells))),
)

-- `grid[row][col] = value`
abbrev pub place : List (List Text) → ℕ → ℕ → Text → List (List Text)
place [] r k v = []
place (row ∷ grid) zero k v = set row k v ∷ grid
place (row ∷ grid) (suc r) k v = row ∷ place grid r k v

unfoldable pub fill_grid : List TableCell → List (List Text) → List (List Text)
fill_grid [] grid = grid
fill_grid (c ∷ cells) grid = fill_grid cells (place grid c.row c.col c.value)

-- `_build_grid`
unfoldable pub build_grid : List TableCell → List (List Text)
build_grid [] = []
build_grid (c ∷ cells) =
    fill_grid (c ∷ cells)
      (replicate (suc (max_row (c ∷ cells))) (replicate (suc (max_col (c ∷ cells))) []))

abbrev pub bars : List Text → Text
bars row = codes "| " ++ (join (codes " | ") row ++ codes " |")

-- A row, cut or filled to the width of the header.
abbrev pub padded : List Text → ℕ → List Text
padded row width = take width (row ++ replicate width [])

-- The header: the given one, or the first row where all of it is empty.
abbrev pub header_of : List Text → List Text → List Text
header_of headers first = if any (λ h. not (is_empty h)) headers then headers else first

-- The lines of a grid, with the headers that are given.
abbrev pub rendered : List (List Text) → List Text → List Text
rendered [] headers = []
rendered (first ∷ rows) headers =
    let header = header_of headers first in
    bars header
    ∷ bars (map (λ _. codes "---") header)
    ∷ map (λ row. bars (padded row (length header))) rows

-- `_table_to_markdown`, by its lines
unfoldable pub markdown_lines : List TableCell → List Text → List Text
markdown_lines cells headers = rendered (build_grid cells) headers

unfoldable pub table_to_markdown : List TableCell → List Text → Text
table_to_markdown cells headers = join (10 ∷ []) (markdown_lines cells headers)
