-- ===== src/Coverages/Create.antt =====
-- The handlers that create, list and show coverages.
use stock_analyst.Shared.{
  ℕ, Text, codes, List, [], ◌∷◌, ◌++◌, map, Bool, true, false, ◌&&◌, ◌||◌, not, Option, none, some,
  ltb, ◌==◌, length, any, filter_by, find_first, is_empty, same_text, strip, upper, sort_desc,
  Raises, ok, raised, Error, if◌then◌else◌,
}
use stock_analyst.Http.{Reply, answer, problem, crashed}
use stock_analyst.Coverages.{CoverageRow, setup}

-- A row of `industries`.
pub record Industry : Type 0 where
  pub id : ℕ
  pub name : Text

pub record CoverageCreateRequest : Type 0 where
  pub ticker : Text
  pub company_name : Text
  pub exchange : Text
  pub industry_id : Option ℕ

-- What is shown of a coverage: its row, and the name of its industry.
abbrev pub CoverageView : Type 0
CoverageView = CoverageRow × Option Text

pub record CoverageTables : Type 0 where
  pub industries : List Industry
  pub coverages : List CoverageRow

-- `_EXCHANGES`
abbrev pub exchanges : List Text
exchanges =
    codes "NYSE" ∷ codes "NASDAQ" ∷ codes "LSE" ∷ codes "TSX" ∷ codes "ASX" ∷ codes "Other" ∷ []

-- The three validators of the request, before the handler runs.
unfoldable pub validated : CoverageCreateRequest → Raises CoverageCreateRequest
validated body =
    if is_empty (strip body.ticker)
      || (is_empty (strip body.company_name) || not (any (same_text body.exchange) exchanges))
    then raised Error.value_error
    else ok
        (record body { ticker = upper (strip body.ticker); company_name = strip body.company_name })

abbrev pub find_industry : ℕ → List Industry → Option Industry
find_industry id industries = find_first (λ i. i.id == id) industries

-- The outer join with the industries.
abbrev pub industry_name : Option ℕ → List Industry → Option Text
industry_name none industries = none
industry_name (some id) industries = elim (find_industry id industries) [
  | none ↦ none
  | some i ↦ some i.name
]

abbrev pub show_coverage : CoverageTables → CoverageRow → CoverageView
show_coverage t c = (c, industry_name c.industry_id t.industries)

-- `industry_id` is given and names no industry.
abbrev pub has_unknown_industry : CoverageCreateRequest → List Industry → Bool
has_unknown_industry body industries = elim body.industry_id [
  | none ↦ false
  | some id ↦ elim (find_industry id industries) [ none ↦ true | some i ↦ false ]
]

abbrev pub has_same_key : ℕ → Text → Text → CoverageRow → Bool
has_same_key tenant ticker exchange c =
    c.tenant_id == tenant && (same_text c.ticker ticker && same_text c.exchange exchange)

-- The columns hold 20 and 500 characters.
abbrev pub is_too_long : CoverageCreateRequest → Bool
is_too_long body = ltb 20 (length body.ticker) || ltb 500 (length body.company_name)

-- Who asks, when, and the identifier that is drawn.
pub record Draw : Type 0 where
  pub tenant_id : ℕ
  pub user_id : ℕ
  pub now : ℕ
  pub id : ℕ

abbrev pub new_coverage : Draw → CoverageCreateRequest → CoverageRow
new_coverage d body = record {
  id = d.id;
  tenant_id = d.tenant_id;
  ticker = body.ticker;
  company_name = body.company_name;
  exchange = body.exchange;
  industry_id = body.industry_id;
  created_by = d.user_id;
  status = setup;
  document_count = 0;
  last_updated = none;
  created_at = d.now;
}

-- `add` and `flush`: a value that is too long is refused by the database.
unfoldable pub add_coverage :
    Draw → CoverageCreateRequest → CoverageTables → Reply CoverageView × CoverageTables
add_coverage d body t = if is_too_long body then (crashed (codes "value too long"), t) else (
  answer (show_coverage t (new_coverage d body)),
  record t { coverages = t.coverages ++ (new_coverage d body ∷ []) },
)

-- By the coverages of the tenant with the same ticker and exchange; of two, one is not the scalar.
unfoldable pub create_unless :
    List CoverageRow
    → Draw
    → CoverageCreateRequest
    → CoverageTables
    → Reply CoverageView × CoverageTables
create_unless [] d body t = add_coverage d body t
create_unless (c ∷ []) d body t = (
  problem 409 (
      codes "Coverage for "
      ++ (body.ticker ++ (codes " on " ++ (body.exchange ++ codes " already exists")))),
  t,
)
create_unless (c ∷ c' ∷ cs) d body t = (crashed (codes "Multiple rows were found"), t)

unfoldable pub create_coverage :
    Draw → CoverageCreateRequest → CoverageTables → Reply CoverageView × CoverageTables
create_coverage d body t =
    if has_unknown_industry body t.industries
    then (problem 422 (codes "industry_id does not reference a known industry"), t)
    else create_unless (filter_by (has_same_key d.tenant_id body.ticker body.exchange) t.coverages)
        d body t

-- The request as it comes in: the framework answers 422 for what the validators refuse.
unfoldable pub post_coverage :
    Draw → CoverageCreateRequest → CoverageTables → Reply CoverageView × CoverageTables
post_coverage d body t = elim (validated body) [
  | raised e ↦ (problem 422 (codes "invalid request"), t)
  | ok valid ↦ create_coverage d valid t
]

abbrev pub is_older : CoverageRow → CoverageRow → Bool
is_older a b = ltb a.created_at b.created_at

unfoldable pub list_coverages : ℕ → CoverageTables → List CoverageView
list_coverages tenant t =
    map (show_coverage t) (sort_desc is_older (filter_by (λ c. c.tenant_id == tenant) t.coverages))

unfoldable pub get_coverage : (Text → Option ℕ) → ℕ → Text → CoverageTables → Reply CoverageView
get_coverage parse tenant coverage_id t = elim (parse coverage_id) [
  | none ↦ problem 404 (codes "Coverage not found")
  | some id ↦ elim (find_first (λ c. c.id == id && c.tenant_id == tenant) t.coverages) [
    | none ↦ problem 404 (codes "Coverage not found")
    | some c ↦ answer (show_coverage t c)
  ]
]
