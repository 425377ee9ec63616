-- ===== src/Kpi/Examples.antt =====
-- Batches of values, with a database that picks the newest row.
use stock_analyst.Shared.{
  ℕ, Text, codes, List, [], ◌∷◌, Bool, false, Option, none, some, ◌≡◌, refl, ltb, ◌==◌, All, arith,
  if◌then◌else◌,
}
use stock_analyst.Kpi.{Item, KpiTimeseries, annual, row_of, upsert_item, upsert_kpi_timeseries}
use stock_analyst.Kpi.Idempotent.{PicksNewest, IsRecorded, upsert_twice}

abbrev same : ℕ → ℕ → Bool
same a b = a == b

-- Among rows of the same time, the one that was added last.
abbrev newest : List (KpiTimeseries ℕ) → Option (KpiTimeseries ℕ)
newest [] = none
newest (r ∷ rs) = elim (newest rs) [
  | none ↦ some r
  | some m ↦ if ltb m.extracted_at r.extracted_at then some r else some m
]

newest-PicksNewest : PicksNewest same newest
newest-PicksNewest [] r h = refl
newest-PicksNewest (x ∷ rs) r h =
    let later : ltb r.extracted_at x.extracted_at ≡ false = ground arith in
    rw (newest-PicksNewest rs r h.1, later) refl

abbrev an_item : Text → ℕ → Item ℕ
an_item name value = record {
  kpi_name = name;
  period = codes "FY2023";
  period_type = annual;
  value = value;
  unit = codes "USD";
  citation = codes "10-K";
}

abbrev batch : List (Item ℕ)
batch = an_item (codes "revenue") 5 ∷ an_item (codes "margin") 2 ∷ []

abbrev rows : List (KpiTimeseries ℕ)
rows = row_of 3 (an_item (codes "revenue") 4) none ∷ []

upsert_twice_example :
    let once = (upsert_kpi_timeseries same newest 7 batch rows).0 in
    All (IsRecorded same newest once) batch
    × (upsert_kpi_timeseries same newest 9 batch once ≡ (once, 0))
upsert_twice_example =
    upsert_twice same newest newest-PicksNewest (λ v. ground arith) 7 9 batch rows
      (((refl, refl), tt), (tt, tt)) (omega arith, tt)

-- The revenue is restated, the margin is new.
two_added : (upsert_kpi_timeseries same newest 7 batch rows).1 ≡ 2
unfolding upsert_kpi_timeseries upsert_item
two_added = refl

-- A batch with two values for one KPI and period adds rows whenever it is run.
repeated_adds :
    let twice = an_item (codes "revenue") 5 ∷ an_item (codes "revenue") 6 ∷ [] in
    (upsert_kpi_timeseries same newest 9 twice (upsert_kpi_timeseries same newest 7 twice []).0).1
    ≡ 2
unfolding upsert_kpi_timeseries upsert_item
repeated_adds = refl
