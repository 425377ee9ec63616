-- ===== src/Kpi.antt =====
-- `upsert_kpi_timeseries` of packages/agents/src/agents/kpi_tracker/tools.py, on the rows of one
-- coverage.
pub mod Idempotent
mod Examples
use stock_analyst.Shared.{
  ℕ, ◌+◌, Text, List, [], ◌∷◌, ◌++◌, Bool, true, false, ◌&&◌, Option, none, some, filter_by,
  same_text, if◌then◌else◌,
}

pub data PeriodType : Type 0 where
  annual quarterly : PeriodType

-- One extracted value, and a row of `kpi_timeseries`; `V` is the type of values.
pub record Item (V : Type 0) : Type 0 where
  pub kpi_name : Text
  pub period : Text
  pub period_type : PeriodType
  pub value : V
  pub unit : Text
  pub citation : Text

pub record KpiTimeseries (V : Type 0) : Type 0 where
  pub kpi_name : Text
  pub period : Text
  pub period_type : PeriodType
  pub value : V
  pub unit : Text
  pub citation : Text
  pub is_restated : Bool
  -- `Restated from {old} to {new}`
  pub restatement_note : Option (V × V)
  pub extracted_at : ℕ

module _ {V : Type 0} where
  abbrev pub matches : Item V → KpiTimeseries V → Bool
  matches item row = same_text row.kpi_name item.kpi_name && same_text row.period item.period

  -- The row that is added; all rows of a transaction have its time.
  abbrev pub row_of : ℕ → Item V → Option (KpiTimeseries V) → KpiTimeseries V
  row_of now item existing = record {
    kpi_name = item.kpi_name;
    period = item.period;
    period_type = item.period_type;
    value = item.value;
    unit = item.unit;
    citation = item.citation;
    is_restated = elim existing [ none ↦ false | some _ ↦ true ];
    restatement_note = elim existing [ none ↦ none | some e ↦ some (e.value, item.value) ];
    extracted_at = now;
  }

  -- `is_close` is the difference under the tolerance; `latest` is the first row of the matching
  -- ones by descending time, which the database chooses among those of the same time.
  module _ (is_close : V → V → Bool)
      (latest : List (KpiTimeseries V) → Option (KpiTimeseries V)) where
    -- One round of the loop: the rows, and how many were added.
    unfoldable pub upsert_item : ℕ → Item V → List (KpiTimeseries V) → List (KpiTimeseries V) × ℕ
    upsert_item now item rows = elim (latest (filter_by (matches item) rows)) [
      | none ↦ (rows ++ (row_of now item none ∷ []), 1)
      | some e ↦
          if is_close e.value item.value
          then (rows, 0)
          else (rows ++ (row_of now item (some e) ∷ []), 1)
    ]

    unfoldable pub upsert_kpi_timeseries :
        ℕ → List (Item V) → List (KpiTimeseries V) → List (KpiTimeseries V) × ℕ
    upsert_kpi_timeseries now [] rows = (rows, 0)
    upsert_kpi_timeseries now (item ∷ items) rows =
        let (rows₁, added) = upsert_item now item rows in
        let (rows₂, more) = upsert_kpi_timeseries now items rows₁ in (rows₂, added + more)
