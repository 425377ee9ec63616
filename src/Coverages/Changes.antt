-- ===== src/Coverages/Changes.antt =====
-- The change that a point of the dashboard shows, by the rows before it.
use stock_analyst.Shared.{
  List, [], ◌∷◌, ◌++◌, Bool, true, false, Option, none, some, if◌then◌else◌, ◌≡◌, refl, ap, All,
  Bool-cases, inl, inr, ◌⊎◌, ◌≢◌,
}
use stock_analyst.Kpi.{KpiTimeseries, PeriodType, annual, quarterly}
use stock_analyst.Coverages.{same_type, change_from}

same_type→eq : (a b : PeriodType) → same_type a b ≡ true → a ≡ b
same_type→eq annual annual h = refl
same_type→eq quarterly quarterly h = refl
same_type→eq annual quarterly h = cc
same_type→eq quarterly annual h = cc

same_type→ne : (a b : PeriodType) → same_type a b ≡ false → a ≢ b
same_type→ne annual annual h = cc
same_type→ne quarterly quarterly h = cc
same_type→ne annual quarterly h = λ e. cc
same_type→ne quarterly annual h = λ e. cc

module _ {V : Type 0} where
  abbrev pub NoneOf : PeriodType → List (KpiTimeseries V) → Type 0
  NoneOf t = All (λ (r : KpiTimeseries V). r.period_type ≢ t)

  -- The value of the last row of a type, where there is one.
  abbrev pub IsLast : PeriodType → List (KpiTimeseries V) → Option V → Type 0
  IsLast t rows none = NoneOf t rows
  IsLast t rows (some v) =
      (xs : List (KpiTimeseries V)) × (r : KpiTimeseries V) × (ys : List (KpiTimeseries V)) × (rows
        ≡ xs ++ (r ∷ ys))
      × (r.period_type ≡ t)
      × (r.value ≡ v)
      × NoneOf t ys

  -- The change from a value before, if there is one that is not 0.
  abbrev pub IsChange : (V → Bool) → Option V → V → Option (V × V) → Type 0
  IsChange is_zero none value change = change ≡ none
  IsChange is_zero (some prior) value change =
      ((is_zero prior ≡ true) × (change ≡ none))
      ⊎ ((is_zero prior ≡ false) × (change ≡ some (prior, value)))

module _ {V : Type 0} (is_zero : V → Bool) where
  -- The value of the last row of a type.
  abbrev pub last_of : PeriodType → List (KpiTimeseries V) → Option V
  last_of t [] = none
  last_of t (row ∷ rows) = elim (last_of t rows) [
    | some v ↦ some v
    | none ↦ if same_type row.period_type t then some row.value else none
  ]

  IsLast-cons :
      (t : PeriodType) (row : KpiTimeseries V) (rows : List (KpiTimeseries V)) (o : Option V)
      → IsLast t rows o
      → IsLast t (row ∷ rows) (elim o [
        | some v ↦ some v
        | none ↦ if same_type row.period_type t then some row.value else none
      ])
  IsLast-cons t row rows (some v) (xs, r, ys, split, same, held, later) =
      (row ∷ xs, r, ys, ap (λ (l : List (KpiTimeseries V)). row ∷ l) split, same, held, later)
  IsLast-cons t row rows none h = elim (Bool-cases (same_type row.period_type t)) [
    | inl same ↦ rw same ([], row, rows, refl, same_type→eq row.period_type t same, refl, h)
    | inr other ↦ rw other (same_type→ne row.period_type t other, h)
  ]

  pub last_of-IsLast :
      (t : PeriodType) (rows : List (KpiTimeseries V)) → IsLast t rows (last_of t rows)
  last_of-IsLast t [] = tt
  last_of-IsLast t (row ∷ rows) = IsLast-cons t row rows (last_of t rows) (last_of-IsLast t rows)

  pub change_from-IsChange :
      (prior : Option V) (value : V)
      → IsChange is_zero prior value (change_from is_zero prior value)
  change_from-IsChange none value = refl
  change_from-IsChange (some prior) value = elim (Bool-cases (is_zero prior)) [
    | inl zero_prior ↦ inl (zero_prior, rw zero_prior refl)
    | inr other ↦ inr (other, rw other refl)
  ]
