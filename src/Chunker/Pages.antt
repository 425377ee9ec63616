-- ===== src/Chunker/Pages.antt =====
-- The parsed document of packages/rag/src/rag/ingestion/parsers/pdf_parser.py, its section patterns,
-- and `_section_first_pages` of hierarchical.py.
use stock_analyst.Shared.{
  ℕ, Text, codes, List, [], ◌∷◌, Option, none, some, is_space, same_text, if◌then◌else◌,
}
use stock_analyst.Shared.Regex.{
  Regex, occurs_in, seq, chain, plus, maybe, exactly, exactly_i, not_among, empty, literal_i,
  any_of,
}

-- A page by its number and the texts of its blocks.
pub record ParsedPage : Type 0 where
  pub page_number : ℕ
  pub text_blocks : List Text

-- `sections` is a dictionary: its names differ.
pub record ParsedDocument : Type 0 where
  pub document_id : Text
  pub file_name : Text
  pub pages : List ParsedPage
  pub sections : List (Text × Text)

-- `first_pages.setdefault(name, page)`
unfoldable pub set_first : Text → ℕ → List (Text × ℕ) → List (Text × ℕ)
set_first name page [] = (name, page) ∷ []
set_first name page ((n, p) ∷ rest) =
    let later = set_first name page rest in
    if same_text n name then (n, p) ∷ rest else (n, p) ∷ later

-- `first_pages.get(name, 1)`
abbrev pub page_of : Text → List (Text × ℕ) → ℕ
page_of name [] = 1
page_of name ((n, p) ∷ rest) =
    let later = page_of name rest in if same_text n name then p else later

-- `item\s+{number}\.?\s+`, and then words with `\s+` between them.
abbrev words : List Text → Regex
words [] = empty
words (w ∷ []) = literal_i w
words (w ∷ v ∷ ws) = seq (literal_i w) (seq (plus is_space) (words (v ∷ ws)))

abbrev item : Text → List Text → Regex
item number title =
    chain (literal_i (codes "item"))
      (plus is_space ∷ literal_i number ∷ maybe (exactly b'.') ∷ plus is_space ∷ words title ∷ [])

-- `(?:{word}\s+)?`
abbrev maybe_word : Text → Regex
maybe_word w = any_of (seq (literal_i w) (plus is_space)) (empty ∷ [])

-- `_SECTION_PATTERNS` of packages/rag/src/rag/ingestion/parsers/pdf_parser.py
unfoldable pub section_patterns : List (Text × Regex)
section_patterns =
    (codes "business", item (codes "1") (codes "business" ∷ []))
    ∷ (codes "risk_factors", item (codes "1a") (codes "risk" ∷ codes "factors" ∷ []))
    ∷ (
      codes "mda",
      chain (item (codes "7") []) (
          literal_i (codes "management")
          ∷ maybe (not_among (10 ∷ []))
          ∷ words (codes "s" ∷ codes "discussion" ∷ codes "and" ∷ codes "analysis" ∷ [])
          ∷ []),
    )
    ∷ (codes "financial_statements", item (codes "8") (codes "financial" ∷ codes "statements" ∷ []))
    ∷ (
      codes "notes_to_financials",
      chain (literal_i (codes "note")) (
          maybe (exactly_i b's')
          ∷ plus is_space
          ∷ literal_i (codes "to")
          ∷ plus is_space
          ∷ maybe_word (codes "the")
          ∷ maybe_word (codes "consolidated")
          ∷ words (codes "financial" ∷ codes "statements" ∷ [])
          ∷ []),
    )
    ∷ (
      codes "controls",
      item (codes "9a") (codes "controls" ∷ codes "and" ∷ codes "procedures" ∷ []),
    )
    ∷ (codes "exhibits", item (codes "15") (codes "exhibits" ∷ []))
    ∷ []

-- `_section_first_pages` for a list of named patterns: the section that a page ends in, for the
-- first page that ends in it.
module _ (patterns : List (Text × Regex)) where
  abbrev pub matched_name : List (Text × Regex) → Text → Option Text
  matched_name [] block = none
  matched_name ((name, r) ∷ rest) block =
      let later = matched_name rest block in if occurs_in r block then some name else later

  abbrev pub section_after : Text → List Text → Text
  section_after current [] = current
  section_after current (block ∷ blocks) =
      section_after (elim (matched_name patterns block) [ none ↦ current | some name ↦ name ])
        blocks

  unfoldable pub first_pages_from : Text → List ParsedPage → List (Text × ℕ) → List (Text × ℕ)
  first_pages_from current [] firsts = firsts
  first_pages_from current (page ∷ pages) firsts =
      let now = section_after current page.text_blocks in
      first_pages_from now pages (set_first now page.page_number firsts)

  unfoldable pub section_first_pages : ParsedDocument → List (Text × ℕ)
  section_first_pages doc = first_pages_from (codes "cover") doc.pages []
