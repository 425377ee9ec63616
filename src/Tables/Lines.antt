-- ===== src/Tables/Lines.antt =====
-- The headers of a table, and the lines of its rendering, against its grid.
use stock_analyst.Shared.{
  ℕ, zero, suc, Text, codes, List, [], ◌∷◌, ◌++◌, map, not, any, is_empty, ◌==◌, length, get_or,
  take, if◌then◌else◌, Bool-cases, All, ◌≡◌, refl, sym, ap, ◌∙◌, inl, inr, arith,
}
use stock_analyst.Tables.{
  TableCell, max_row, max_col, set, replicate, place, fill_grid, build_grid, fill_headers,
  derive_headers, header_of, padded, bars, rendered, markdown_lines,
}
use stock_analyst.Tables.Grid.{IsGrid, build_grid-IsFilled}

first_row-place :
    (grid : List (List Text)) (r k : ℕ) (v : Text)
    → get_or (place grid r k v) 0 []
      ≡ (if r == 0 then set (get_or grid 0 []) k v else get_or grid 0 [])
first_row-place [] r k v = ground arith
first_row-place (row ∷ grid) zero k v = refl
first_row-place (row ∷ grid) (suc r) k v = ground arith

-- The headers are filled as the first row of the grid is.
fill_headers-first :
    (cells : List TableCell) (grid : List (List Text))
    → fill_headers cells (get_or grid 0 []) ≡ get_or (fill_grid cells grid) 0 []
unfolding fill_headers fill_grid
fill_headers-first [] grid = refl
fill_headers-first (c ∷ cells) grid =
    ap (fill_headers cells) (sym (first_row-place grid c.row c.col c.value))
    ∙ fill_headers-first cells (place grid c.row c.col c.value)

headers-first :
    (c : TableCell) (cells : List TableCell)
    → (derive_headers (c ∷ cells)).0 ≡ get_or (build_grid (c ∷ cells)) 0 []
unfolding derive_headers build_grid
headers-first c cells =
    fill_headers-first (c ∷ cells)
      (replicate (suc (max_row (c ∷ cells))) (replicate (suc (max_col (c ∷ cells))) []))

take-all {ℓ} : {A : Type ℓ} (xs ys : List A) → take (length xs) (xs ++ ys) ≡ xs
take-all [] ys = refl
take-all (x ∷ xs) ys = ap (λ l. x ∷ l) (take-all xs ys)

padded_full : (row : List Text) (n : ℕ) → length row ≡ n → padded row n ≡ row
padded_full row n h =
    ap (λ m. take m (row ++ replicate n [])) (sym h) ∙ take-all row (replicate n [])

map-padded :
    (rows : List (List Text)) (n : ℕ)
    → All (λ row. length row ≡ n) rows
    → map (λ row. bars (padded row n)) rows ≡ map bars rows
map-padded [] n h i = []
map-padded (row ∷ rows) n h i = bars (padded_full row n h.0 i) ∷ map-padded rows n h.1 i

header_same : (headers first : List Text) → headers ≡ first → header_of headers first ≡ first
header_same headers first h = elim (Bool-cases (any (λ t. not (is_empty t)) headers)) [
  | inl given ↦ rw given h
  | inr blank ↦ rw blank refl
]

-- The lines of a grid with a header.
abbrev pub lines_of : List (List Text) → List Text
lines_of [] = []
lines_of (first ∷ rows) = bars first ∷ bars (map (λ _. codes "---") first) ∷ map bars rows

rendered-lines :
    (n m : ℕ) (grid : List (List Text)) (headers : List Text)
    → IsGrid n m grid
    → headers ≡ get_or grid 0 []
    → rendered grid headers ≡ lines_of grid
rendered-lines n m [] headers h e = refl
rendered-lines n m (first ∷ rows) headers h e =
    ap
      (λ header.
        bars header
        ∷ bars (map (λ _. codes "---") header)
        ∷ map (λ row. bars (padded row (length header))) rows)
      (header_same headers first e)
    ∙ ap (λ l. bars first ∷ bars (map (λ _. codes "---") first) ∷ l)
        (ap (λ k. map (λ row. bars (padded row k)) rows) h.1.0 ∙ map-padded rows m h.1.1)

-- The headers of a table are the first row of its grid, and rendered with them a table has a line for
-- each row of the grid, none of it cut or filled up, and the rule behind the first.
pub markdown_lines-IsFaithful :
    (c : TableCell) (cells : List TableCell)
    → ((derive_headers (c ∷ cells)).0 ≡ get_or (build_grid (c ∷ cells)) 0 [])
      × (markdown_lines (c ∷ cells) (derive_headers (c ∷ cells)).0
          ≡ lines_of (build_grid (c ∷ cells)))
unfolding markdown_lines
markdown_lines-IsFaithful c cells =
    let headers = (derive_headers (c ∷ cells)).0 in
    (
      headers-first c cells,
      rendered-lines _ _ (build_grid (c ∷ cells)) headers (build_grid-IsFilled c cells).0
          (headers-first c cells),
    )
