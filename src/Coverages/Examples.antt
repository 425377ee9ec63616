-- ===== src/Coverages/Examples.antt =====
-- Three quarters and a year of one KPI.
use stock_analyst.Shared.{
  ℕ, Text, codes, List, [], ◌∷◌, ◌++◌, map, Bool, true, false, ◌&&◌, Option, none, some, length,
  get_elem?, any, ◌==◌, All, arith, same_text, IsDescending, sort_desc, insert_desc, ◌≡◌, refl,
}
use stock_analyst.Shared.Regex.{search_in}
use stock_analyst.Http.{answer, crashed}
use stock_analyst.Kpi.{KpiTimeseries, PeriodType, annual, quarterly}
use stock_analyst.Coverages.{
  DataPoint, CoverageRow, CoverageStatus, Stored, KpiView, kpi_category, period_sort_key,
  period_year_pattern, period_quarter_pattern, int_of, comes_later, change_from, points_from,
  ordered_rows, data_points_with_yoy, require_coverage, kpi_rows, kpi_view, get_kpi,
}
use stock_analyst.Coverages.Listing.{by_kpi, add_row, coverage_rows, list_kpis}
use stock_analyst.Coverages.Groups.{list_kpis-Shown}
use stock_analyst.Coverages.Create.{
  CoverageCreateRequest, CoverageTables, Draw, validated, new_coverage, add_coverage, create_unless,
  create_coverage, post_coverage,
}
use stock_analyst.Coverages.Unique.{Creates, post_coverage-Creates}
use stock_analyst.Coverages.Changes.{last_of, IsLast, IsChange}
use stock_analyst.Coverages.Points.{get_kpi-IsChained}

abbrev row : Text → PeriodType → ℕ → KpiTimeseries ℕ
row period type value = record {
  kpi_name = codes "arr";
  period = period;
  period_type = type;
  value = value;
  unit = codes "USD";
  citation = [];
  is_restated = false;
  restatement_note = none;
  extracted_at = 0;
}

abbrev fourth : KpiTimeseries ℕ
fourth = row (codes "Q4 2023") quarterly 30

abbrev first : KpiTimeseries ℕ
first = row (codes "Q1 2024") quarterly 40

abbrev year : KpiTimeseries ℕ
year = row (codes "FY2023") annual 100

abbrev under : ℕ → KpiTimeseries ℕ → Stored ℕ
under id r = record { coverage_id = id; row = r }

abbrev stored : List (Stored ℕ)
stored = under 5 first ∷ under 6 first ∷ under 5 year ∷ under 5 fourth ∷ []

abbrev coverages : List CoverageRow
coverages =
    record {
      id = 5;
      tenant_id = 1;
      ticker = codes "ACME";
      company_name = codes "Acme";
      exchange = codes "NYSE";
      industry_id = none;
      created_by = 2;
      status = CoverageStatus.setup;
      document_count = 0;
      last_updated = none;
      created_at = 3;
    }
    ∷ []

abbrev parse : Text → Option ℕ
parse t = some 5

abbrev is_zero : ℕ → Bool
is_zero v = v == 0

abbrev shown : KpiView ℕ
shown = record {
  coverage_id = codes "five";
  kpi_name = codes "arr";
  category = kpi_category (codes "arr");
  unit = codes "USD";
  data_points = data_points_with_yoy is_zero (first ∷ year ∷ fourth ∷ []);
}

orders : ordered_rows is_zero (first ∷ year ∷ fourth ∷ []) ≡ year ∷ fourth ∷ first ∷ []
unfolding ordered_rows sort_desc insert_desc period_sort_key search_in period_year_pattern
    period_quarter_pattern int_of
orders = refl

-- The change of a quarter is from the quarter before it, not from the same quarter a year before.
quarters :
    map
      (λ (p : DataPoint ℕ). p.yoy_change_pct)
      (points_from is_zero (λ _. none) (year ∷ fourth ∷ first ∷ []))
    ≡ none ∷ none ∷ some (30, 40) ∷ []
unfolding points_from
quarters = refl

shows : get_kpi is_zero parse coverages stored 1 (codes "five") (codes "arr") ≡ answer shown
unfolding get_kpi require_coverage kpi_rows kpi_view
shows = refl

orders_stored :
    ordered_rows is_zero (kpi_rows is_zero 5 (codes "arr") stored)
    ≡ (year ∷ fourth ∷ []) ++ (first ∷ [])
unfolding kpi_rows
orders_stored = orders

get_kpi-IsChained_example :
    (any (λ c. c.id == 5 && c.tenant_id == 1) coverages ≡ true)
    × (length shown.data_points ≡ length (kpi_rows is_zero 5 (codes "arr") stored))
    × IsDescending (comes_later is_zero) ((year ∷ fourth ∷ []) ++ (first ∷ []))
    × (get_elem? shown.data_points 2
        ≡ some (record {
          row = first;
          yoy_change_pct = change_from is_zero (last_of is_zero quarterly (year ∷ fourth ∷ [])) 40;
        }))
    × IsLast quarterly (year ∷ fourth ∷ []) (last_of is_zero quarterly (year ∷ fourth ∷ []))
    × IsChange is_zero
        (last_of is_zero quarterly (year ∷ fourth ∷ []))
        40
        (change_from is_zero (last_of is_zero quarterly (year ∷ fourth ∷ [])) 40)
get_kpi-IsChained_example =
    get_kpi-IsChained is_zero parse coverages stored 1 (codes "five") (codes "arr")
      (year ∷ fourth ∷ []) first [] refl shows orders_stored

lists : list_kpis is_zero parse coverages stored 1 (codes "five") ≡ answer (shown ∷ [])
unfolding list_kpis require_coverage coverage_rows by_kpi add_row sort_desc insert_desc
lists = refl

owns : require_coverage parse coverages 1 (codes "five") ≡ answer 5
unfolding require_coverage
owns = refl

list_kpis-Shown_example :
    All
      (λ (e : KpiView ℕ).
        get_kpi is_zero parse coverages stored 1 (codes "five") e.kpi_name ≡ answer e)
      (shown ∷ [])
    × (any (λ (e : KpiView ℕ). same_text (codes "arr") e.kpi_name) (shown ∷ [])
        ≡ any
            (λ (r : KpiTimeseries ℕ). same_text (codes "arr") r.kpi_name)
            (coverage_rows 5 stored))
list_kpis-Shown_example =
    list_kpis-Shown is_zero parse coverages stored 1 (codes "five") 5 (codes "arr") owns lists

abbrev body : CoverageCreateRequest
body = record {
  ticker = codes " bolt ";
  company_name = codes "Bolt";
  exchange = codes "LSE";
  industry_id = none;
}

abbrev valid_body : CoverageCreateRequest
valid_body = record body { ticker = codes "BOLT" }

abbrev draw : Draw
draw = record { tenant_id = 1; user_id = 2; now = 9; id = 7 }

abbrev tables : CoverageTables
tables = record { industries = []; coverages = coverages }

abbrev after : CoverageTables
after = record { industries = []; coverages = coverages ++ (new_coverage draw valid_body ∷ []) }

creates : post_coverage draw body tables ≡ (answer (new_coverage draw valid_body, none), after)
unfolding post_coverage validated create_coverage create_unless add_coverage
creates = refl

-- A ticker that the column cannot hold passes the validators, and the database refuses it.
too_long :
    (post_coverage draw (record body { ticker = codes "ABCDEFGHIJKLMNOPQRSTU" }) tables).0
    ≡ crashed (codes "value too long")
unfolding post_coverage validated create_coverage create_unless add_coverage
too_long = refl

post_coverage-Creates_example :
    Creates
      (λ t. some 7)
      (codes "seven")
      3
      draw
      body
      tables
      (new_coverage draw valid_body, none)
      after
post_coverage-Creates_example =
    post_coverage-Creates (λ t. some 7) (codes "seven") 3 draw body tables (tt, tt) refl refl
      (λ e. ground arith) creates
