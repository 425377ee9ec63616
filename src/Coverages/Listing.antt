-- ===== src/Coverages/Listing.antt =====
-- `list_kpis` of coverages.py: the rows of a coverage by the name of their KPI.
use stock_analyst.Shared.{
  ℕ, Text, List, [], ◌∷◌, ◌++◌, map, Bool, true, false, ◌&&◌, ◌||◌, Option, ltb, ◌==◌, filter_by,
  same_text, sort_desc, if◌then◌else◌,
}
use stock_analyst.Http.{Reply, answer, ◌>>=◌}
use stock_analyst.Kpi.{KpiTimeseries}
use stock_analyst.Coverages.{
  CoverageRow, Stored, KpiView, kpi_category, data_points_with_yoy, require_coverage,
}

-- The order of texts.
unfoldable pub text_less : Text → Text → Bool
text_less s [] = false
text_less [] (_ ∷ _) = true
text_less (a ∷ s) (b ∷ t) = ltb a b || (a == b && text_less s t)

-- A key of `by_kpi`, with its list, which has an element.
pub record KpiGroup (V : Type 0) : Type 0 where
  pub name : Text
  pub head : KpiTimeseries V
  pub tail : List (KpiTimeseries V)

module _ {V : Type 0} where
  -- `by_kpi.setdefault(row.kpi_name, []).append(row)`
  unfoldable pub add_row : KpiTimeseries V → List (KpiGroup V) → List (KpiGroup V)
  add_row row [] = record { name = row.kpi_name; head = row; tail = [] } ∷ []
  add_row row (g ∷ gs) =
      let rest = add_row row gs in
      if same_text g.name row.kpi_name
      then record g { tail = g.tail ++ (row ∷ []) } ∷ gs
      else g ∷ rest

  unfoldable pub by_kpi : List (KpiGroup V) → List (KpiTimeseries V) → List (KpiGroup V)
  by_kpi gs [] = gs
  by_kpi gs (row ∷ rows) = by_kpi (add_row row gs) rows

  abbrev pub comes_behind : KpiGroup V → KpiGroup V → Bool
  comes_behind a b = text_less b.name a.name

  unfoldable pub coverage_rows : ℕ → List (Stored V) → List (KpiTimeseries V)
  coverage_rows id stored =
      map (λ (s : Stored V). s.row) (filter_by (λ s. s.coverage_id == id) stored)

  module _ (is_zero : V → Bool) where
    abbrev pub entry_of : Text → KpiGroup V → KpiView V
    entry_of coverage_id g = record {
      coverage_id = coverage_id;
      kpi_name = g.name;
      category = kpi_category g.name;
      unit = g.head.unit;
      data_points = data_points_with_yoy is_zero (g.head ∷ g.tail);
    }

    -- The entries of the answer, each with the coverage of the answer.
    unfoldable pub list_kpis :
        (Text → Option ℕ) → List CoverageRow → List (Stored V) → ℕ → Text → Reply (List (KpiView V))
    list_kpis parse coverages stored tenant coverage_id = do
      id ← require_coverage parse coverages tenant coverage_id
      answer (
          map (entry_of coverage_id) (sort_desc comes_behind (by_kpi [] (coverage_rows id stored))))
