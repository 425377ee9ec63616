-- ===== src/Tables/Examples.antt =====
-- A table of two columns, of which the second has no header.
use stock_analyst.Shared.{ℕ, Text, codes, List, [], ◌∷◌, false, ◌≡◌, refl}
use stock_analyst.Chunker.Pages.{ParsedDocument}
use stock_analyst.Tables.{
  TableCell, DoclingTable, build_grid, fill_grid, derive_headers, fill_headers, markdown_lines,
}
use stock_analyst.Tables.Grid.{IsGrid, cell_at, last_or, build_grid-IsFilled}
use stock_analyst.Tables.Extract.{table_to_json, row_values, assign}

abbrev cell : ℕ → ℕ → Text → TableCell
cell r k v = record { row = r; col = k; value = v; is_header = false }

-- The second and the third column have the same header.
abbrev first_cell : TableCell
first_cell = cell 0 0 (codes "item")

abbrev cells : List TableCell
cells =
    cell 0 1 (codes "$")
    ∷ cell 0 2 (codes "$")
    ∷ cell 1 0 (codes "sales")
    ∷ cell 1 1 (codes "10")
    ∷ cell 1 2 (codes "20")
    ∷ []

build_grid-IsFilled_example :
    IsGrid 2 3 (build_grid (first_cell ∷ cells))
    × ((r k : ℕ)
        → cell_at (build_grid (first_cell ∷ cells)) r k ≡ last_or [] r k (first_cell ∷ cells))
build_grid-IsFilled_example = build_grid-IsFilled first_cell cells

lines :
    markdown_lines (first_cell ∷ cells) (derive_headers (first_cell ∷ cells)).0
    ≡ codes "| item | $ | $ |" ∷ codes "| --- | --- | --- |" ∷ codes "| sales | 10 | 20 |" ∷ []
unfolding markdown_lines derive_headers fill_headers build_grid fill_grid
lines = refl

-- The dictionary of a row keeps one value of the two columns with one header.
value_lost :
    table_to_json (first_cell ∷ cells) (derive_headers (first_cell ∷ cells)).0 (codes "sales" ∷ [])
    ≡ record {
      headers = codes "item" ∷ codes "$" ∷ codes "$" ∷ [];
      rows = record { label = codes "sales"; values = (codes "$", codes "20") ∷ [] } ∷ [];
    }
unfolding table_to_json row_values assign derive_headers fill_headers build_grid fill_grid
value_lost = refl

abbrev table_on : ℕ → DoclingTable
table_on page = record { prov = page ∷ []; table_cells = [] }

abbrev doc : ParsedDocument
doc = record { document_id = codes "d"; file_name = codes "a.pdf"; pages = []; sections = [] }
