-- ===== src/Coverages.antt =====
-- apps/api/routers/coverages.py: the rows, and the KPI dashboard, with the values of one KPI in the
-- order of their periods, each with its change. Create holds the handlers of the coverages themselves.
pub mod Changes
pub mod Points
pub mod Listing
pub mod Groups
pub mod Create
pub mod Unique
mod Examples
use stock_analyst.Shared.{
  ℕ, ◌+◌, ◌*◌, ◌-◌, Text, codes, List, [], ◌∷◌, ◌++◌, map, Bool, true, false, ◌&&◌, ◌||◌, Option,
  none, some, ltb, ◌==◌, any, filter_by, same_text, sort_desc, if◌then◌else◌, is_digit,
}
use stock_analyst.Shared.Regex.{
  Regex, seq, group, one, exactly_i, exact_count, search_in, group_text,
}
use stock_analyst.Http.{Reply, answer, problem, ◌>>=◌}
use stock_analyst.Kpi.{KpiTimeseries, PeriodType, annual, quarterly}

-- `\d{4}`
unfoldable pub period_year_pattern : Regex
period_year_pattern = exact_count is_digit 4

-- `Q(\d)`, IGNORECASE
unfoldable pub period_quarter_pattern : Regex
period_quarter_pattern = seq (one (exactly_i b'q')) (group 1 (one is_digit))

unfoldable pub int_of : ℕ → Text → ℕ
int_of n [] = n
int_of n (c ∷ t) = int_of (n * 10 + (c - b'0')) t

-- `_period_sort_key`
unfoldable pub period_sort_key : Text → ℕ × ℕ
period_sort_key period =
    let year : ℕ = elim (search_in period_year_pattern period) [
      | none ↦ 0
      | some (i, m) ↦ int_of 0 m.text
    ] in
    let quarter : ℕ = elim (search_in period_quarter_pattern period) [
      | none ↦ 0
      | some (i, m) ↦ elim (group_text 1 m.groups) [ none ↦ 0 | some t ↦ int_of 0 t ]
    ] in
    (year, quarter)

-- The order of pairs.
abbrev pub before_key : ℕ × ℕ → ℕ × ℕ → Bool
before_key (y, q) (y', q') = ltb y y' || (y == y' && ltb q q')

abbrev pub same_type : PeriodType → PeriodType → Bool
same_type annual annual = true
same_type quarterly quarterly = true
same_type _ _ = false

-- `_FINANCIAL_KPI_NAMES`
abbrev pub financial_kpi_names : List Text
financial_kpi_names =
    codes "revenue"
    ∷ codes "gross_profit"
    ∷ codes "gross_margin"
    ∷ codes "gross_margin_pct"
    ∷ codes "ebitda"
    ∷ codes "net_income"
    ∷ codes "eps_diluted"
    ∷ codes "fcf"
    ∷ codes "capex"
    ∷ codes "net_debt"
    ∷ codes "cash_equivalents"
    ∷ codes "cash_and_equivalents"
    ∷ codes "shares_outstanding"
    ∷ codes "operating_margin"
    ∷ codes "total_debt"
    ∷ []

pub data Category : Type 0 where
  financial operational : Category

unfoldable pub kpi_category : Text → Category
kpi_category name = if any (same_text name) financial_kpi_names then financial else operational

-- What is shown of a row, by the row; the change from `prior` to `value` by these two operands.
pub record DataPoint (V : Type 0) : Type 0 where
  pub row : KpiTimeseries V
  pub yoy_change_pct : Option (V × V)

pub data CoverageStatus : Type 0 where
  setup active archived : CoverageStatus

-- A row of `coverages`, and a row of `kpi_timeseries` with its coverage.
pub record CoverageRow : Type 0 where
  pub id : ℕ
  pub tenant_id : ℕ
  pub ticker : Text
  pub company_name : Text
  pub exchange : Text
  pub industry_id : Option ℕ
  pub created_by : ℕ
  pub status : CoverageStatus
  pub document_count : ℕ
  pub last_updated : Option ℕ
  pub created_at : ℕ

pub record Stored (V : Type 0) : Type 0 where
  pub coverage_id : ℕ
  pub row : KpiTimeseries V

pub record KpiView (V : Type 0) : Type 0 where
  pub coverage_id : Text
  pub kpi_name : Text
  pub category : Category
  pub unit : Text
  pub data_points : List (DataPoint V)

-- `_require_coverage`: `parse` is `uuid.UUID`.
unfoldable pub require_coverage : (Text → Option ℕ) → List CoverageRow → ℕ → Text → Reply ℕ
require_coverage parse coverages tenant coverage_id = elim (parse coverage_id) [
  | none ↦ problem 404 (codes "Coverage not found")
  | some id ↦
      if any (λ c. c.id == id && c.tenant_id == tenant) coverages
      then answer id
      else problem 404 (codes "Coverage not found")
]

-- `is_zero` tells that a value is 0.
module _ {V : Type 0} (is_zero : V → Bool) where
  -- `last_value_by_period_type`, with `last[period_type] = value`
  abbrev pub record_value : (PeriodType → Option V) → KpiTimeseries V → PeriodType → Option V
  record_value last row t = if same_type row.period_type t then some row.value else last t

  abbrev pub change_from : Option V → V → Option (V × V)
  change_from none value = none
  change_from (some prior) value = if is_zero prior then none else some (prior, value)

  unfoldable pub points_from : (PeriodType → Option V) → List (KpiTimeseries V) → List (DataPoint V)
  points_from last [] = []
  points_from last (row ∷ rows) =
      record { row = row; yoy_change_pct = change_from (last row.period_type) row.value }
      ∷ points_from (record_value last row) rows

  -- `sorted(rows, key=...)`, which is stable
  abbrev pub comes_later : KpiTimeseries V → KpiTimeseries V → Bool
  comes_later a b = before_key (period_sort_key b.period) (period_sort_key a.period)

  unfoldable pub ordered_rows : List (KpiTimeseries V) → List (KpiTimeseries V)
  ordered_rows = sort_desc comes_later

  -- `_data_points_with_yoy`
  unfoldable pub data_points_with_yoy : List (KpiTimeseries V) → List (DataPoint V)
  data_points_with_yoy rows = points_from (λ _. none) (ordered_rows rows)

  -- `select(KpiTimeseries).where(...)`
  unfoldable pub kpi_rows : ℕ → Text → List (Stored V) → List (KpiTimeseries V)
  kpi_rows id name stored =
      map (λ (s : Stored V). s.row)
        (filter_by (λ s. s.coverage_id == id && same_text s.row.kpi_name name) stored)

  -- The answer from the rows of the KPI.
  unfoldable pub kpi_view : Text → Text → List (KpiTimeseries V) → Reply (KpiView V)
  kpi_view coverage_id name [] =
      problem 404 (codes "No KPI data found for '" ++ (name ++ codes "' on this coverage"))
  kpi_view coverage_id name (row ∷ rows) = answer (record {
    coverage_id = coverage_id;
    kpi_name = name;
    category = kpi_category name;
    unit = row.unit;
    data_points = data_points_with_yoy (row ∷ rows);
  })

  unfoldable pub get_kpi :
      (Text → Option ℕ) → List CoverageRow → List (Stored V) → ℕ → Text → Text → Reply (KpiView V)
  get_kpi parse coverages stored tenant coverage_id name = do
    id ← require_coverage parse coverages tenant coverage_id
    kpi_view coverage_id name (kpi_rows id name stored)
