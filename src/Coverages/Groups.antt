-- ===== src/Coverages/Groups.antt =====
-- The groups of `list_kpis` of coverages.py, and what it shows of them.
use stock_analyst.Shared.{
  ℕ, Text, List, [], ◌∷◌, ◌++◌, map, Bool, true, false, ◌||◌, Option, any, filter_by, same_text,
  same_text_refl, same_text_comm, same_text→eq, sort_desc, All-sort_desc, any-sort_desc, Pairwise,
  All, All-map, All-weaken, Bool-cases, if◌then◌else◌, ◌≡◌, refl, sym, ap, ◌∙◌, inl, inr, arith,
  subst,
}
use mathlib.Core.List.{append_assoc, append-nil}
use stock_analyst.Http.{answer, >>=-eq-answer}
use stock_analyst.Kpi.{KpiTimeseries}
use stock_analyst.Coverages.{
  CoverageRow, Stored, KpiView, require_coverage, kpi_rows, kpi_view, get_kpi,
}
use stock_analyst.Coverages.Listing.{
  KpiGroup, add_row, by_kpi, comes_behind, coverage_rows, entry_of, list_kpis,
}

any-map {ℓ κ} :
    {A : Type ℓ} {B : Type κ} (p : B → Bool) (f : A → B) (xs : List A)
    → any p (map f xs) ≡ any (λ x. p (f x)) xs
any-map p f [] = refl
any-map p f (x ∷ xs) = ap (λ (b : Bool). p (f x) || b) (any-map p f xs)

answer-injective {ℓ} : {A : Type ℓ} {a b : A} → answer a ≡ answer b → a ≡ b
answer-injective h = cc

module _ {V : Type 0} where
  -- The rows under a name.
  abbrev rows_in : Text → List (KpiGroup V) → List (KpiTimeseries V)
  rows_in n [] = []
  rows_in n (g ∷ gs) =
      let later = rows_in n gs in if same_text g.name n then g.head ∷ g.tail else later

  abbrev rows_named : Text → List (KpiTimeseries V) → List (KpiTimeseries V)
  rows_named n = filter_by (λ row. same_text row.kpi_name n)

  named-cons :
      (n : Text) (row : KpiTimeseries V) (rows : List (KpiTimeseries V))
      → rows_named n (row ∷ []) ++ rows_named n rows ≡ rows_named n (row ∷ rows)
  named-cons n row rows = ground arith

  rows_in-add_row :
      (n : Text) (row : KpiTimeseries V) (gs : List (KpiGroup V))
      → rows_in n (add_row row gs) ≡ rows_in n gs ++ rows_named n (row ∷ [])
  unfolding add_row
  rows_in-add_row n row [] = refl
  rows_in-add_row n row (g ∷ gs) = elim (Bool-cases (same_text g.name row.kpi_name)) [
    | inl same ↦ elim (Bool-cases (same_text g.name n)) [
      | inl here ↦
          let also : same_text row.kpi_name n ≡ true =
            subst (λ t. same_text t n ≡ true) (same_text→eq g.name row.kpi_name same) here in
          rw (add_row, same, here, also) refl
      | inr other ↦
          let also : same_text row.kpi_name n ≡ false =
            subst (λ t. same_text t n ≡ false) (same_text→eq g.name row.kpi_name same) other in
          rw (add_row, same, other, also) (sym (append-nil (rows_in n gs)))
    ]
    | inr apart ↦ elim (Bool-cases (same_text g.name n)) [
      | inl here ↦
          let also : same_text row.kpi_name n ≡ false =
            same_text_comm row.kpi_name n
            ∙ subst (λ t. same_text t row.kpi_name ≡ false) (same_text→eq g.name n here) apart in
          rw (add_row, apart, here, also) (sym (append-nil (g.head ∷ g.tail)))
      | inr other ↦ rw (add_row, apart, other) (rows_in-add_row n row gs)
    ]
  ]

  rows_in-by_kpi :
      (n : Text) (gs : List (KpiGroup V)) (rows : List (KpiTimeseries V))
      → rows_in n (by_kpi gs rows) ≡ rows_in n gs ++ rows_named n rows
  unfolding by_kpi
  rows_in-by_kpi n gs [] = sym (append-nil (rows_in n gs))
  rows_in-by_kpi n gs (row ∷ rows) =
      rows_in-by_kpi n (add_row row gs) rows
      ∙ ap (λ (l : List (KpiTimeseries V)). l ++ rows_named n rows) (rows_in-add_row n row gs)
      ∙ append_assoc (rows_in n gs) (rows_named n (row ∷ [])) (rows_named n rows)
      ∙ ap (λ (l : List (KpiTimeseries V)). rows_in n gs ++ l) (named-cons n row rows)

  abbrev Apart : KpiGroup V → KpiGroup V → Type 0
  Apart g g' = same_text g.name g'.name ≡ false

  All-add_row :
      (n : Text) (row : KpiTimeseries V) (gs : List (KpiGroup V))
      → same_text n row.kpi_name ≡ false
      → All (λ (g : KpiGroup V). same_text n g.name ≡ false) gs
      → All (λ (g : KpiGroup V). same_text n g.name ≡ false) (add_row row gs)
  unfolding add_row
  All-add_row n row [] h hs = (h, tt)
  All-add_row n row (g ∷ gs) h (hg, hs) = elim (Bool-cases (same_text g.name row.kpi_name)) [
    | inl same ↦ rw (add_row, same) (hg, hs)
    | inr apart ↦ rw (add_row, apart) (hg, All-add_row n row gs h hs)
  ]

  add_row-Pairwise :
      (row : KpiTimeseries V) (gs : List (KpiGroup V))
      → Pairwise Apart gs
      → Pairwise Apart (add_row row gs)
  unfolding add_row
  add_row-Pairwise row [] h = (tt, tt)
  add_row-Pairwise row (g ∷ gs) (hg, hs) = elim (Bool-cases (same_text g.name row.kpi_name)) [
    | inl same ↦ rw (add_row, same) (hg, hs)
    | inr apart ↦
        rw (add_row, apart) (All-add_row g.name row gs apart hg, add_row-Pairwise row gs hs)
  ]

  by_kpi-Pairwise :
      (gs : List (KpiGroup V)) (rows : List (KpiTimeseries V))
      → Pairwise Apart gs
      → Pairwise Apart (by_kpi gs rows)
  unfolding by_kpi
  by_kpi-Pairwise gs [] h = h
  by_kpi-Pairwise gs (row ∷ rows) h =
      by_kpi-Pairwise (add_row row gs) rows (add_row-Pairwise row gs h)

  -- Each group is found by its name.
  abbrev IsFound : List (KpiGroup V) → KpiGroup V → Type 0
  IsFound gs g = rows_in g.name gs ≡ g.head ∷ g.tail

  All-IsFound-later :
      (g : KpiGroup V) (gs xs : List (KpiGroup V))
      → All (Apart g) xs
      → All (IsFound gs) xs
      → All (IsFound (g ∷ gs)) xs
  All-IsFound-later g gs [] h k = tt
  All-IsFound-later g gs (x ∷ xs) (hx, h) (kx, k) = (rw hx kx, All-IsFound-later g gs xs h k)

  All-IsFound : (gs : List (KpiGroup V)) → Pairwise Apart gs → All (IsFound gs) gs
  All-IsFound [] h = tt
  All-IsFound (g ∷ gs) (hg, hs) =
      (rw (same_text_refl g.name) refl, All-IsFound-later g gs gs hg (All-IsFound gs hs))

  abbrev has_group : Text → List (KpiGroup V) → Bool
  has_group n = any (λ g. same_text n g.name)

  abbrev has_row : Text → List (KpiTimeseries V) → Bool
  has_row n = any (λ row. same_text n row.kpi_name)

  has_group-add_row :
      (n : Text) (row : KpiTimeseries V) (gs : List (KpiGroup V))
      → has_group n (add_row row gs) ≡ has_group n gs || same_text n row.kpi_name
  unfolding add_row
  has_group-add_row n row [] = ground arith
  has_group-add_row n row (g ∷ gs) = elim (Bool-cases (same_text g.name row.kpi_name)) [
    | inl same ↦ rw (add_row, same, sym (same_text→eq g.name row.kpi_name same)) (ground arith)
    | inr apart ↦ rw (add_row, apart, has_group-add_row n row gs) (ground arith)
  ]

  has_group-by_kpi :
      (n : Text) (gs : List (KpiGroup V)) (rows : List (KpiTimeseries V))
      → has_group n (by_kpi gs rows) ≡ has_group n gs || has_row n rows
  unfolding by_kpi
  has_group-by_kpi n gs [] = ground arith
  has_group-by_kpi n gs (row ∷ rows) =
      has_group-by_kpi n (add_row row gs) rows ∙ rw (has_group-add_row n row gs) (ground arith)

  kpi_rows-eq-named :
      (is_zero : V → Bool) (id : ℕ) (n : Text) (stored : List (Stored V))
      → kpi_rows is_zero id n stored ≡ rows_named n (coverage_rows id stored)
  unfolding kpi_rows coverage_rows
  kpi_rows-eq-named is_zero id n [] = refl
  kpi_rows-eq-named is_zero id n (s ∷ stored) =
      ground (arith, kpi_rows-eq-named is_zero id n stored)

  module _ (is_zero : V → Bool) (parse : Text → Option ℕ) (coverages : List CoverageRow)
      (stored : List (Stored V)) (tenant : ℕ) (coverage_id : Text) where
    abbrev Shown : KpiView V → Type 0
    Shown e = get_kpi is_zero parse coverages stored tenant coverage_id e.kpi_name ≡ answer e

    abbrev groups : ℕ → List (KpiGroup V)
    groups id = by_kpi [] (coverage_rows id stored)

    Shown-alone :
        (id : ℕ) (g : KpiGroup V)
        → require_coverage parse coverages tenant coverage_id ≡ answer id
        → IsFound (groups id) g
        → Shown (entry_of is_zero coverage_id g)
    unfolding get_kpi kpi_view
    Shown-alone id g found at =
        let rows = coverage_rows id stored in
        rw
          (
            get_kpi,
            found,
            kpi_rows-eq-named is_zero id g.name stored,
            sym (rows_in-by_kpi g.name [] rows),
            at,
            kpi_view,
          )
          refl

    list_kpis-eq-answer :
        {es : List (KpiView V)}
        → list_kpis is_zero parse coverages stored tenant coverage_id ≡ answer es
        → (id : ℕ) × (require_coverage parse coverages tenant coverage_id ≡ answer id)
          × (map (entry_of is_zero coverage_id) (sort_desc comes_behind (groups id)) ≡ es)
    unfolding list_kpis
    list_kpis-eq-answer h =
        let (id, found, same) =
          >>=-eq-answer (require_coverage parse coverages tenant coverage_id)
            (λ id. answer (map (entry_of is_zero coverage_id) (sort_desc comes_behind (groups id))))
            h in
        (id, found, answer-injective same)

    -- Where the list of the KPIs of a coverage is answered, each of its entries is what the KPI of its
    -- name is answered with; and a name has an entry exactly if a row of the coverage has that name.
    pub list_kpis-Shown :
        {es : List (KpiView V)} (id : ℕ) (n : Text)
        → require_coverage parse coverages tenant coverage_id ≡ answer id
        → list_kpis is_zero parse coverages stored tenant coverage_id ≡ answer es
        → All Shown es
          × (any (λ (e : KpiView V). same_text n e.kpi_name) es
              ≡ any (λ (row : KpiTimeseries V). same_text n row.kpi_name) (coverage_rows id stored))
    list_kpis-Shown {es} id n owned answers =
        let (id', found, same) = list_kpis-eq-answer answers in
        let here : id' ≡ id = answer-injective (sym found ∙ owned) in
        let sorted = sort_desc comes_behind (groups id') in
        let shown =
          All-sort_desc comes_behind (IsFound (groups id')) (groups id')
            (All-IsFound (groups id') (by_kpi-Pairwise [] (coverage_rows id' stored) tt)) in
        (
          subst (All Shown) same (
              All-map Shown (entry_of is_zero coverage_id) sorted (
                All-weaken (IsFound (groups id')) (λ g. Shown (entry_of is_zero coverage_id g))
                  (λ g at. Shown-alone id' g found at) sorted shown)),
          ap (any (λ (e : KpiView V). same_text n e.kpi_name)) (sym same)
              ∙ any-map (λ (e : KpiView V). same_text n e.kpi_name) (entry_of is_zero coverage_id)
                  sorted
              ∙ any-sort_desc comes_behind (λ g. same_text n g.name) (groups id')
              ∙ has_group-by_kpi n [] (coverage_rows id' stored)
              ∙ ap (λ i. has_row n (coverage_rows i stored)) here,
        )
