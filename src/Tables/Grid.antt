-- ===== src/Tables/Grid.antt =====
-- The grid of a table against its cells, and the headers and lines made of it.
use stock_analyst.Shared.{
  ℕ, zero, suc, ◌<◌, Text, List, [], ◌∷◌, ◌&&◌, ◌==◌, length, get_or, if◌then◌else◌, All, ◌≡◌, refl,
  ap, ◌∙◌, arith,
}
use stock_analyst.Tables.{TableCell, max_row, max_col, set, replicate, place, fill_grid, build_grid}

-- What stands at a place of a grid.
abbrev pub cell_at : List (List Text) → ℕ → ℕ → Text
cell_at grid r k = get_or (get_or grid r []) k []

-- The value of the last of some cells at a place, and `d` where there is none.
unfoldable pub last_or : Text → ℕ → ℕ → List TableCell → Text
last_or d r k [] = d
last_or d r k (c ∷ cells) = last_or (if c.row == r && c.col == k then c.value else d) r k cells

-- A grid with `rows` rows of `cols` values each.
abbrev pub IsGrid : ℕ → ℕ → List (List Text) → Type 0
IsGrid rows cols grid = (length grid ≡ rows) × All (λ row. length row ≡ cols) grid

length-set {ℓ} : {A : Type ℓ} (xs : List A) (i : ℕ) (v : A) → length (set xs i v) ≡ length xs
length-set [] i v = refl
length-set (x ∷ xs) zero v = refl
length-set (x ∷ xs) (suc i) v = ap suc (length-set xs i v)

get_or-set {ℓ} :
    {A : Type ℓ} (xs : List A) (i j : ℕ) (v d : A)
    → i < length xs
    → get_or (set xs i v) j d ≡ (if i == j then v else get_or xs j d)
get_or-set [] i j v d h = absurd (omega arith)
get_or-set (x ∷ xs) zero zero v d h = refl
get_or-set (x ∷ xs) zero (suc j) v d h = ground arith
get_or-set (x ∷ xs) (suc i) zero v d h = ground arith
get_or-set (x ∷ xs) (suc i) (suc j) v d h = ground (arith, get_or-set xs i j v d)

length-replicate {ℓ} : {A : Type ℓ} (n : ℕ) (x : A) → length (replicate n x) ≡ n
length-replicate zero x = refl
length-replicate (suc n) x = ap suc (length-replicate n x)

All-replicate {ℓ κ} : {A : Type ℓ} (P : A → Type κ) (n : ℕ) (x : A) → P x → All P (replicate n x)
All-replicate P zero x h = tt
All-replicate P (suc n) x h = (h, All-replicate P n x h)

get_or-replicate : {A : Type 0} (n j : ℕ) (x : A) → get_or (replicate n x) j x ≡ x
get_or-replicate zero j x = refl
get_or-replicate (suc n) zero x = refl
get_or-replicate (suc n) (suc j) x = get_or-replicate n j x

blank_at : (n m r k : ℕ) → cell_at (replicate n (replicate m [])) r k ≡ []
blank_at zero m r k = refl
blank_at (suc n) m zero k = get_or-replicate m k []
blank_at (suc n) m (suc r) k = blank_at n m r k

length-place :
    (grid : List (List Text)) (r k : ℕ) (v : Text) → length (place grid r k v) ≡ length grid
length-place [] r k v = refl
length-place (row ∷ grid) zero k v = refl
length-place (row ∷ grid) (suc r) k v = ap suc (length-place grid r k v)

place-widths :
    (cols : ℕ) (grid : List (List Text)) (r k : ℕ) (v : Text)
    → All (λ row. length row ≡ cols) grid
    → All (λ row. length row ≡ cols) (place grid r k v)
place-widths cols [] r k v h = tt
place-widths cols (row ∷ grid) zero k v h = (length-set row k v ∙ h.0, h.1)
place-widths cols (row ∷ grid) (suc r) k v h = (h.0, place-widths cols grid r k v h.1)

cell_at-place :
    (cols : ℕ) (grid : List (List Text)) (r k i j : ℕ) (v : Text)
    → All (λ row. length row ≡ cols) grid
    → r < length grid
    → k < cols
    → cell_at (place grid r k v) i j ≡ (if r == i && k == j then v else cell_at grid i j)
cell_at-place cols [] r k i j v h a b = absurd (omega arith)
cell_at-place cols (row ∷ grid) zero k zero j v h a b = ground (arith, get_or-set row k j v [], h.0)
cell_at-place cols (row ∷ grid) zero k (suc i) j v h a b = ground arith
cell_at-place cols (row ∷ grid) (suc r) k zero j v h a b = ground arith
cell_at-place cols (row ∷ grid) (suc r) k (suc i) j v h a b =
    ground (arith, cell_at-place cols grid r k i j v h.1)

abbrev IsInside : ℕ → ℕ → TableCell → Type 0
IsInside rows cols c = (c.row < rows) × (c.col < cols)

fill_grid-IsGrid :
    (rows cols : ℕ) (cells : List TableCell) (grid : List (List Text))
    → IsGrid rows cols grid
    → IsGrid rows cols (fill_grid cells grid)
unfolding fill_grid
fill_grid-IsGrid rows cols [] grid h = h
fill_grid-IsGrid rows cols (c ∷ cells) grid h =
    fill_grid-IsGrid rows cols cells (place grid c.row c.col c.value)
      (length-place grid c.row c.col c.value ∙ h.0, place-widths cols grid c.row c.col c.value h.1)

fill_grid-at :
    (rows cols : ℕ) (cells : List TableCell) (grid : List (List Text)) (r k : ℕ)
    → IsGrid rows cols grid
    → All (IsInside rows cols) cells
    → cell_at (fill_grid cells grid) r k ≡ last_or (cell_at grid r k) r k cells
unfolding fill_grid last_or
fill_grid-at rows cols [] grid r k h g = refl
fill_grid-at rows cols (c ∷ cells) grid r k h g =
    fill_grid-at rows cols cells (place grid c.row c.col c.value) r k
      (length-place grid c.row c.col c.value ∙ h.0, place-widths cols grid c.row c.col c.value h.1)
      g.1
    ∙ ap (λ d. last_or d r k cells)
        (cell_at-place cols grid c.row c.col r k c.value h.1 (omega (arith, h.0, g.0))
          (omega (arith, g.0)))

inside :
    (rows cols : ℕ) (cells : List TableCell)
    → max_row cells < rows
    → max_col cells < cols
    → All (IsInside rows cols) cells
inside rows cols [] h g = tt
inside rows cols (c ∷ cells) h g =
    ((omega arith, omega arith), inside rows cols cells (omega arith) (omega arith))

-- The grid of some cells has a row for each row up to the last and a column for each column up to the
-- last; at each place stands the value of the last cell there, or the empty text.
pub build_grid-IsFilled :
    (c : TableCell) (cells : List TableCell)
    → IsGrid (suc (max_row (c ∷ cells))) (suc (max_col (c ∷ cells))) (build_grid (c ∷ cells))
      × ((r k : ℕ) → cell_at (build_grid (c ∷ cells)) r k ≡ last_or [] r k (c ∷ cells))
unfolding build_grid
build_grid-IsFilled c cells =
    let rows = suc (max_row (c ∷ cells)) in
    let cols = suc (max_col (c ∷ cells)) in
    let blank : IsGrid rows cols (replicate rows (replicate cols [])) = (
      length-replicate rows (replicate cols []),
      All-replicate (λ (row : List Text). length row ≡ cols) rows (replicate cols [])
          (length-replicate cols []),
    ) in
    (
      fill_grid-IsGrid rows cols (c ∷ cells) _ blank,
      λ r k.
          fill_grid-at rows cols (c ∷ cells) _ r k blank
            (inside rows cols (c ∷ cells) (omega arith) (omega arith))
          ∙ ap (λ d. last_or d r k (c ∷ cells)) (blank_at rows cols r k),
    )
