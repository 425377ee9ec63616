-- ===== src/Tables/Numbers.antt =====
-- How the tables of a document are numbered.
use stock_analyst.Shared.{
  ℕ, suc, ◌+◌, Text, List, [], ◌∷◌, ◌++◌, ◌==◌, if◌then◌else◌, ◌≡◌, refl, arith,
}
use stock_analyst.Chunker.Pages.{ParsedDocument}
use stock_analyst.Tables.{DoclingTable, page_number_of}
use stock_analyst.Tables.Extract.{
  Extracted, get_number, extract_table, extract_from, extract_tables, page_sections,
}

-- The tables of a page.
abbrev pub count_on : ℕ → List DoclingTable → ℕ
count_on page [] = 0
count_on page (t ∷ tables) =
    let rest = count_on page tables in if page_number_of t == page then suc rest else rest

-- What a table of page `p` is numbered by after the tables `before`.
abbrev pub IsNumbered : List DoclingTable → List DoclingTable → List Extracted → Type 0
IsNumbered before [] [] = Unit {0}
IsNumbered before [] (e ∷ es) = ⊥
IsNumbered before (t ∷ ts) [] = ⊥
IsNumbered before (t ∷ ts) (e ∷ es) =
    (e.page_number ≡ page_number_of t)
    × (e.table_index ≡ count_on (page_number_of t) before)
    × IsNumbered (before ++ (t ∷ [])) ts es

count_on-snoc :
    (page : ℕ) (before : List DoclingTable) (t : DoclingTable)
    → count_on page (before ++ (t ∷ []))
      ≡ count_on page before + (if page_number_of t == page then 1 else 0)
count_on-snoc page [] t = ground arith
count_on-snoc page (u ∷ before) t = ground (arith, count_on-snoc page before t)

module _ (doc : ParsedDocument) (document_id filing_type period : Text) where
  extract_from-IsNumbered :
      (sections : List (ℕ × Text)) (before tables : List DoclingTable) (counts : List (ℕ × ℕ))
      → ((page : ℕ) → get_number page 0 counts ≡ count_on page before)
      → IsNumbered before tables
          (extract_from doc document_id filing_type period sections tables counts)
  unfolding extract_from extract_table get_number
  extract_from-IsNumbered sections before [] counts h = tt
  extract_from-IsNumbered sections before (t ∷ tables) counts h = (
    refl,
    h (page_number_of t),
    extract_from-IsNumbered sections (before ++ (t ∷ [])) tables _
        (λ page. ground (arith, h page, h (page_number_of t), count_on-snoc page before t)),
  )

  -- Each table of the converter gives one, in order, with its page; its index is the number of the
  -- tables before it on that page.
  pub extract_tables-IsNumbered :
      (tables : List DoclingTable)
      → IsNumbered [] tables (extract_tables doc document_id filing_type period tables)
  unfolding extract_tables get_number
  extract_tables-IsNumbered tables =
      extract_from-IsNumbered (page_sections doc) [] tables [] (λ page. refl)
