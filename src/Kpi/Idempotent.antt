-- ===== src/Kpi/Idempotent.antt =====
-- `upsert_kpi_timeseries`, run twice on a batch.
use stock_analyst.Shared.{
  ℕ, ◌<◌, List, [], ◌∷◌, ◌++◌, Bool, true, false, ◌&&◌, Option, none, some, ◌≡◌, refl, sym, ap, ◌∙◌,
  ◌⊎◌, inl, inr, All, arith, Bool-cases, Option-cases, filter_by, same_text, same_text_refl,
  Pairwise, All-weaken, All-filter_by, subst,
}
use mathlib.Core.List.{append-nil}
use stock_analyst.Kpi.{Item, KpiTimeseries, matches, row_of, upsert_item, upsert_kpi_timeseries}

module _ {V : Type 0} (is_close : V → V → Bool)
    (latest : List (KpiTimeseries V) → Option (KpiTimeseries V)) where
  -- Another KPI, or another period.
  abbrev pub Differ : Item V → Item V → Type 0
  Differ a b =
      ((same_text a.kpi_name b.kpi_name && same_text a.period b.period) ≡ false)
      × ((same_text b.kpi_name a.kpi_name && same_text b.period a.period) ≡ false)

  abbrev pub IsOlder : ℕ → KpiTimeseries V → Type 0
  IsOlder now r = r.extracted_at < now

  -- Documented of `ORDER BY ... DESC`: a row that is newer than all others comes first.
  abbrev pub PicksNewest : Type 0
  PicksNewest =
      (rs : List (KpiTimeseries V)) (r : KpiTimeseries V)
      → All (IsOlder r.extracted_at) rs
      → latest (rs ++ (r ∷ [])) ≡ some r

  -- The latest row of the item's KPI and period has its value, up to the tolerance.
  abbrev pub IsRecorded : List (KpiTimeseries V) → Item V → Type 0
  IsRecorded rows item =
      (e : KpiTimeseries V) × (latest (filter_by (matches item) rows) ≡ some e)
      × (is_close e.value item.value ≡ true)

  filter-append :
      (p : KpiTimeseries V → Bool) (xs ys : List (KpiTimeseries V))
      → filter_by p (xs ++ ys) ≡ filter_by p xs ++ filter_by p ys
  filter-append p [] ys = refl
  filter-append p (x ∷ xs) ys = ground (arith, filter-append p xs ys)

  matches_own :
      (now : ℕ) (item : Item V) (e : Option (KpiTimeseries V))
      → matches item (row_of now item e) ≡ true
  matches_own now item e = ground (arith, same_text_refl item.kpi_name, same_text_refl item.period)

  upsert_item-cases :
      (now : ℕ) (item : Item V) (rows : List (KpiTimeseries V))
      → ((upsert_item is_close latest now item rows ≡ (rows, 0)) × IsRecorded rows item)
        ⊎ ((e : Option (KpiTimeseries V)) × (upsert_item is_close latest now item rows
              ≡ (rows ++ (row_of now item e ∷ []), 1)))
  unfolding upsert_item
  upsert_item-cases now item rows = elim (Option-cases (latest (filter_by (matches item) rows))) [
    | inl absent ↦ inr (none, rw (absent, upsert_item) refl)
    | inr (e, there) ↦ elim (Bool-cases (is_close e.value item.value)) [
      | inl same ↦ inl (rw (there, upsert_item, same) refl, (e, there, same))
      | inr changed ↦ inr (some e, rw (there, upsert_item, changed) refl)
    ]
  ]

  filter-append_one :
      (p : KpiTimeseries V → Bool) (xs : List (KpiTimeseries V)) (r : KpiTimeseries V)
      → p r ≡ false
      → filter_by p (xs ++ (r ∷ [])) ≡ filter_by p xs
  filter-append_one p xs r h = filter-append p xs (r ∷ []) ∙ rw h (append-nil (filter_by p xs))

  -- The rows of another KPI or period stay as they are.
  filter-upsert_item :
      (now : ℕ) (item other : Item V) (rows : List (KpiTimeseries V))
      → Differ item other
      → filter_by (matches other) (upsert_item is_close latest now item rows).0
        ≡ filter_by (matches other) rows
  filter-upsert_item now item other rows apart = elim (upsert_item-cases now item rows) [
    | inl (same, _) ↦ rw same refl
    | inr (e, added) ↦ rw added (filter-append_one (matches other) rows (row_of now item e) apart.0)
  ]

  upsert_item-IsRecorded :
      PicksNewest
      → ((v : V) → is_close v v ≡ true)
      → (now : ℕ) (item : Item V) (rows : List (KpiTimeseries V))
      → All (IsOlder now) (filter_by (matches item) rows)
      → IsRecorded (upsert_item is_close latest now item rows).0 item
  upsert_item-IsRecorded newest close now item rows older = elim (upsert_item-cases now item rows) [
    | inl (same, recorded) ↦ rw same recorded
    | inr (e, added) ↦
        let r = row_of now item e in
        let listed : filter_by (matches item) (rows ++ (r ∷ []))
            ≡ filter_by (matches item) rows ++ (r ∷ []) =
          filter-append (matches item) rows (r ∷ []) ∙ rw (matches_own now item e) refl in
        rw added
          (r, ap latest listed ∙ newest (filter_by (matches item) rows) r older, close item.value)
  ]

  IsRecorded-upsert_item :
      (now : ℕ) (item other : Item V) (rows : List (KpiTimeseries V))
      → Differ item other
      → IsRecorded rows other
      → IsRecorded (upsert_item is_close latest now item rows).0 other
  IsRecorded-upsert_item now item other rows apart (e, there, same) =
      (e, ap latest (filter-upsert_item now item other rows apart) ∙ there, same)

  -- An item apart from all of a batch stays recorded.
  IsRecorded-upsert :
      (now : ℕ) (items : List (Item V)) (other : Item V) (rows : List (KpiTimeseries V))
      → All (λ i. Differ i other) items
      → IsRecorded rows other
      → IsRecorded (upsert_kpi_timeseries is_close latest now items rows).0 other
  unfolding upsert_kpi_timeseries
  IsRecorded-upsert now [] other rows apart h = h
  IsRecorded-upsert now (item ∷ items) other rows apart h =
      IsRecorded-upsert now items other _ apart.1
        (IsRecorded-upsert_item now item other rows apart.0 h)

  -- No matching row is as new as the transaction.
  abbrev Fresh : ℕ → List (KpiTimeseries V) → Item V → Type 0
  Fresh now rows item = All (IsOlder now) (filter_by (matches item) rows)

  Fresh-upsert_item :
      (now : ℕ) (item : Item V) (rows : List (KpiTimeseries V)) (others : List (Item V))
      → All (Differ item) others
      → All (Fresh now rows) others
      → All (Fresh now (upsert_item is_close latest now item rows).0) others
  Fresh-upsert_item now item rows [] apart h = tt
  Fresh-upsert_item now item rows (o ∷ others) apart h = (
    subst (All (IsOlder now)) (sym (filter-upsert_item now item o rows apart.0)) h.0,
    Fresh-upsert_item now item rows others apart.1 h.1,
  )

  older-Fresh :
      (now : ℕ) (rows : List (KpiTimeseries V))
      → All (IsOlder now) rows
      → (items : List (Item V)) → All (Fresh now rows) items
  older-Fresh now rows h [] = tt
  older-Fresh now rows h (item ∷ items) =
      (All-filter_by (IsOlder now) (matches item) rows h, older-Fresh now rows h items)

  upsert-IsRecorded :
      PicksNewest
      → ((v : V) → is_close v v ≡ true)
      → (now : ℕ) (items : List (Item V)) (rows : List (KpiTimeseries V)) → Pairwise Differ items
      → All (Fresh now rows) items
      → All (IsRecorded (upsert_kpi_timeseries is_close latest now items rows).0) items
  unfolding upsert_kpi_timeseries
  upsert-IsRecorded newest close now [] rows apart h = tt
  upsert-IsRecorded newest close now (item ∷ items) rows apart h =
      let rows₁ = (upsert_item is_close latest now item rows).0 in
      (
        IsRecorded-upsert now items item rows₁ (All-weaken _ _ (λ o d. (d.1, d.0)) items apart.0)
            (upsert_item-IsRecorded newest close now item rows h.0),
        upsert-IsRecorded newest close now items rows₁ apart.1
            (Fresh-upsert_item now item rows items apart.0 h.1),
      )

  -- A batch that is recorded adds nothing.
  recorded_unchanged :
      (now : ℕ) (items : List (Item V)) (rows : List (KpiTimeseries V))
      → All (IsRecorded rows) items
      → upsert_kpi_timeseries is_close latest now items rows ≡ (rows, 0)
  unfolding upsert_kpi_timeseries upsert_item
  recorded_unchanged now [] rows h = refl
  recorded_unchanged now (item ∷ items) rows h =
      let (e, there, same) = h.0 in
      let kept : upsert_item is_close latest now item rows ≡ (rows, 0) =
        rw (there, upsert_item, same) refl in
      rw (kept, recorded_unchanged now items rows h.1) refl

  -- Where the values are close to themselves, the database picks the newest row, all rows are older
  -- than the transaction, and no two items of the batch have the same KPI and period: after the
  -- batch the latest row of each item has its value, up to the tolerance, and the same batch at any
  -- later time adds no row and changes none.
  pub upsert_twice :
      PicksNewest
      → ((v : V) → is_close v v ≡ true)
      → (now later : ℕ) (items : List (Item V)) (rows : List (KpiTimeseries V))
      → Pairwise Differ items
      → All (IsOlder now) rows
      → let once = (upsert_kpi_timeseries is_close latest now items rows).0 in
        All (IsRecorded once) items
        × (upsert_kpi_timeseries is_close latest later items once ≡ (once, 0))
  upsert_twice newest close now later items rows apart older =
      let recorded =
        upsert-IsRecorded newest close now items rows apart (older-Fresh now rows older items) in
      (recorded, recorded_unchanged later items _ recorded)
