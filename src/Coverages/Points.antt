-- ===== src/Coverages/Points.antt =====
-- What the dashboard of coverages.py shows of a KPI.
use stock_analyst.Shared.{
  ℕ, suc, Text, codes, List, [], ◌∷◌, ◌++◌, Bool, true, false, ◌&&◌, Option, none, some, length,
  get_elem?, any, ◌==◌, IsDescending, sort_desc-IsDescending, length-sort_desc, if◌then◌else◌, ◌≡◌,
  refl, sym, ap, ◌∙◌, arith, subst,
}
use stock_analyst.Http.{answer, >>=-eq-answer, problem}
use stock_analyst.Kpi.{KpiTimeseries, PeriodType}
use stock_analyst.Coverages.{
  DataPoint, CoverageRow, Stored, KpiView, same_type, before_key, period_sort_key, change_from,
  record_value, points_from, comes_later, ordered_rows, data_points_with_yoy, require_coverage,
  kpi_rows, kpi_view, get_kpi,
}
use stock_analyst.Coverages.Changes.{
  last_of, IsLast, IsChange, last_of-IsLast, change_from-IsChange,
}

before_key-asymmetric : (a b : ℕ × ℕ) → before_key a b ≡ true → before_key b a ≡ false
before_key-asymmetric (y, q) (y', q') h = ground arith

answer-injective {ℓ} : {A : Type ℓ} {a b : A} → answer a ≡ answer b → a ≡ b
answer-injective h = cc

module _ {V : Type 0} (is_zero : V → Bool) where
  abbrev else_of : Option V → Option V → Option V
  else_of none d = d
  else_of (some v) d = some v

  else_of-if :
      (o : Option V) (b : Bool) (v : V) (d : Option V)
      → else_of o (if b then some v else d)
        ≡ else_of (elim o [ some w ↦ some w | none ↦ if b then some v else none ]) d
  else_of-if none true v d = refl
  else_of-if none false v d = refl
  else_of-if (some w) b v d = refl

  else_of-none : (o : Option V) → else_of o none ≡ o
  else_of-none none = refl
  else_of-none (some v) = refl

  else_of-record :
      (last : PeriodType → Option V) (row : KpiTimeseries V) (t : PeriodType)
      (rows : List (KpiTimeseries V))
      → else_of (last_of is_zero t rows) (record_value is_zero last row t)
        ≡ else_of (last_of is_zero t (row ∷ rows)) (last t)
  else_of-record last row t rows =
      else_of-if (last_of is_zero t rows) (same_type row.period_type t) row.value (last t)

  abbrev point : KpiTimeseries V → Option V → DataPoint V
  point row prior = record { row = row; yoy_change_pct = change_from is_zero prior row.value }

  points_from-at :
      (last : PeriodType → Option V) (before : List (KpiTimeseries V)) (row : KpiTimeseries V)
      (after : List (KpiTimeseries V))
      → get_elem? (points_from is_zero last (before ++ (row ∷ after))) (length before)
        ≡ some (point row (else_of (last_of is_zero row.period_type before) (last row.period_type)))
  unfolding points_from
  points_from-at last [] row after = refl
  points_from-at last (b ∷ before) row after =
      points_from-at (record_value is_zero last b) before row after
      ∙ ap (λ (o : Option V). some (point row o)) (else_of-record last b row.period_type before)

  length-points_from :
      (last : PeriodType → Option V) (rows : List (KpiTimeseries V))
      → length (points_from is_zero last rows) ≡ length rows
  unfolding points_from
  length-points_from last [] = refl
  length-points_from last (row ∷ rows) =
      ap suc (length-points_from (record_value is_zero last row) rows)

  length-data_points_with_yoy :
      (rows : List (KpiTimeseries V)) → length (data_points_with_yoy is_zero rows) ≡ length rows
  unfolding data_points_with_yoy ordered_rows
  length-data_points_with_yoy rows =
      length-points_from (λ _. none) (ordered_rows is_zero rows)
      ∙ length-sort_desc (comes_later is_zero) rows

  data_points_with_yoy-at :
      (rows before : List (KpiTimeseries V)) (row : KpiTimeseries V)
      (after : List (KpiTimeseries V))
      → ordered_rows is_zero rows ≡ before ++ (row ∷ after)
      → get_elem? (data_points_with_yoy is_zero rows) (length before)
        ≡ some (point row (last_of is_zero row.period_type before))
  unfolding data_points_with_yoy
  data_points_with_yoy-at rows before row after split =
      ap
        (λ (l : List (KpiTimeseries V)).
          get_elem? (points_from is_zero (λ _. none) l) (length before))
        split
      ∙ points_from-at (λ _. none) before row after
      ∙ ap (λ (o : Option V). some (point row o))
          (else_of-none (last_of is_zero row.period_type before))

  ordered_rows-IsDescending :
      (rows : List (KpiTimeseries V))
      → IsDescending (comes_later is_zero) (ordered_rows is_zero rows)
  unfolding ordered_rows
  ordered_rows-IsDescending rows =
      sort_desc-IsDescending (comes_later is_zero)
        (λ a b. before_key-asymmetric (period_sort_key b.period) (period_sort_key a.period)) rows

  kpi_view-eq-answer :
      (coverage_id name : Text) (rows : List (KpiTimeseries V)) {view : KpiView V}
      → kpi_view is_zero coverage_id name rows ≡ answer view
      → view.data_points ≡ data_points_with_yoy is_zero rows
  unfolding kpi_view
  kpi_view-eq-answer coverage_id name [] h = cc
  kpi_view-eq-answer coverage_id name (row ∷ rows) h =
      sym (ap (λ (x : KpiView V). x.data_points) (answer-injective h))

only_then :
    (b : Bool) {id found : ℕ}
    → (if b then answer id else problem 404 (codes "Coverage not found")) ≡ answer found
    → (id ≡ found) × (b ≡ true)
only_then true h = (answer-injective h, refl)
only_then false h = cc

require_coverage-eq-answer :
    (parse : Text → Option ℕ) (coverages : List CoverageRow) (tenant : ℕ) (coverage_id : Text)
    {id found : ℕ}
    → parse coverage_id ≡ some id
    → require_coverage parse coverages tenant coverage_id ≡ answer found
    → (id ≡ found) × (any (λ c. c.id == id && c.tenant_id == tenant) coverages ≡ true)
unfolding require_coverage
require_coverage-eq-answer parse coverages tenant coverage_id {id} {found} parsed h =
    only_then (any (λ c. c.id == id && c.tenant_id == tenant) coverages)
      (rw (require_coverage, parsed) at h)

-- Where the dashboard answers for a KPI, the coverage belongs to the tenant; the points are as many
-- as the rows of the KPI, which are put in the order of their years and quarters; and the point of a
-- row shows that row, with the change from the value of the last row before it of the same period
-- type, if there is one that is not 0.
pub get_kpi-IsChained :
    {V : Type 0} (is_zero : V → Bool) (parse : Text → Option ℕ) (coverages : List CoverageRow)
    (stored : List (Stored V)) (tenant : ℕ) (coverage_id name : Text) {id : ℕ} {view : KpiView V}
    (before : List (KpiTimeseries V)) (row : KpiTimeseries V) (after : List (KpiTimeseries V))
    → parse coverage_id ≡ some id
    → get_kpi is_zero parse coverages stored tenant coverage_id name ≡ answer view
    → ordered_rows is_zero (kpi_rows is_zero id name stored) ≡ before ++ (row ∷ after)
    → (any (λ c. c.id == id && c.tenant_id == tenant) coverages ≡ true)
      × (length view.data_points ≡ length (kpi_rows is_zero id name stored))
      × IsDescending (comes_later is_zero) (before ++ (row ∷ after))
      × (get_elem? view.data_points (length before)
          ≡ some (record {
            row = row;
            yoy_change_pct = change_from is_zero (last_of is_zero row.period_type before) row.value;
          }))
      × IsLast row.period_type before (last_of is_zero row.period_type before)
      × IsChange is_zero
          (last_of is_zero row.period_type before)
          row.value
          (change_from is_zero (last_of is_zero row.period_type before) row.value)
unfolding get_kpi
get_kpi-IsChained is_zero parse coverages stored tenant coverage_id name {id} {view} before row
      after parsed answers split =
    let (found, required, shown) =
      >>=-eq-answer (require_coverage parse coverages tenant coverage_id)
        (λ i. kpi_view is_zero coverage_id name (kpi_rows is_zero i name stored)) answers in
    let (same, owned) =
      require_coverage-eq-answer parse coverages tenant coverage_id parsed required in
    let rows = kpi_rows is_zero id name stored in
    let points : view.data_points ≡ data_points_with_yoy is_zero rows =
      kpi_view-eq-answer is_zero coverage_id name rows (
        subst
          (λ i. kpi_view is_zero coverage_id name (kpi_rows is_zero i name stored) ≡ answer view)
          (sym same) shown) in
    (
      owned,
      ap length points ∙ length-data_points_with_yoy is_zero rows,
      subst (IsDescending (comes_later is_zero)) split (ordered_rows-IsDescending is_zero rows),
      ap (λ (l : List (DataPoint _)). get_elem? l (length before)) points
          ∙ data_points_with_yoy-at is_zero rows before row after split,
      last_of-IsLast is_zero row.period_type before,
      change_from-IsChange is_zero (last_of is_zero row.period_type before) row.value,
    )
