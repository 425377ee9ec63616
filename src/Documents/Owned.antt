-- ===== src/Documents/Owned.antt =====
-- The rows that a request of a tenant reaches: its own.
use stock_analyst.Shared.{
  ℕ, Text, true, false, some, ◌==◌, Bool-cases, Option-cases, All, All-weaken, some-injective, ◌≡◌,
  sym, ap, ◌∙◌, subst, inl, inr, arith,
}
use stock_analyst.Http.{answer}
use stock_analyst.Documents.{
  Coverage, DocumentRow, Rows, DocumentServices, get_owned_coverage, get_document, find_coverage,
  find_document_row,
}
use stock_analyst.Documents.Filters.{find_first-holds}
use stock_analyst.Documents.Tenants.{other_coverage, other_document}

-- A document is the row of its identifier, and has the tenant of its coverage.
abbrev pub IsFiled : Rows → DocumentRow → Type 0
IsFiled r d =
    (find_document_row d.id r ≡ some d)
    × ((c : Coverage) → find_coverage d.coverage_id r ≡ some c → d.tenant_id ≡ c.tenant_id)

-- So are all documents; and a coverage is the row of its identifier.
pub record IsConsistent (r : Rows) : Type 0 where
  pub coverages : All (λ (c : Coverage). find_coverage c.id r ≡ some c) r.coverages
  pub documents : All (IsFiled r) r.documents

module _ (s : DocumentServices) (tenant : ℕ) where
  -- The coverage of a request is a row of its tenant.
  pub get_owned_coverage-owned :
      (coverage_id : Text) (r : Rows) (c : Coverage)
      → get_owned_coverage s coverage_id tenant r ≡ answer c
      → (find_coverage c.id r ≡ some c) × (c.tenant_id ≡ tenant)
  unfolding get_owned_coverage
  get_owned_coverage-owned coverage_id r c h = elim (Option-cases (s.parse_uuid coverage_id)) [
    | inl bad ↦ absurd (ground (arith, bad))
    | inr (id, parsed) ↦ elim (Option-cases (find_coverage id r)) [
      | inl missing ↦ absurd (ground (arith, parsed, missing))
      | inr (found, at) ↦ elim (Bool-cases (found.tenant_id == tenant)) [
        | inl own ↦
            let same : found ≡ c = ground (arith, parsed, at, own) in
            let named : found.id ≡ id =
              ground
                (arith, find_first-holds (λ (x : Coverage). x.id == id) r.coverages found at) in
            subst (λ (x : Coverage). (find_coverage x.id r ≡ some x) × (x.tenant_id ≡ tenant)) same
              (ap (λ i. find_coverage i r) named ∙ at, ground (arith, own))
        | inr other ↦ absurd (ground (arith, parsed, at, other))
      ]
    ]
  ]

  pub get_document-of :
      (coverage : Coverage) (document_id : Text) (r : Rows) (d : DocumentRow)
      → get_document s coverage document_id r ≡ answer d
      → (find_document_row d.id r ≡ some d) × (d.coverage_id ≡ coverage.id)
  unfolding get_document
  get_document-of coverage document_id r d h = elim (Option-cases (s.parse_uuid document_id)) [
    | inl bad ↦ absurd (ground (arith, bad))
    | inr (id, parsed) ↦ elim (Option-cases (find_document_row id r)) [
      | inl missing ↦ absurd (ground (arith, parsed, missing))
      | inr (found, at) ↦ elim (Bool-cases (found.coverage_id == coverage.id)) [
        | inl own ↦
            let same : found ≡ d = ground (arith, parsed, at, own) in
            let named : found.id ≡ id =
              ground
                (arith, find_first-holds (λ (x : DocumentRow). x.id == id) r.documents found at) in
            subst
              (λ (x : DocumentRow).
                (find_document_row x.id r ≡ some x) × (x.coverage_id ≡ coverage.id))
              same (ap (λ i. find_document_row i r) named ∙ at, ground (arith, own))
        | inr other ↦ absurd (ground (arith, parsed, at, other))
      ]
    ]
  ]

  -- A document of the coverage of a request is a row of its tenant, and so are all rows with its
  -- identifier.
  pub own_documents :
      (r : Rows) (coverage : Coverage) (d : DocumentRow)
      → IsConsistent r
      → find_coverage coverage.id r ≡ some coverage
      → coverage.tenant_id ≡ tenant
      → find_document_row d.id r ≡ some d
      → d.coverage_id ≡ coverage.id
      → All
          (λ (x : DocumentRow). (x.id == d.id) ≡ true → other_document s tenant x ≡ false)
          r.documents
  own_documents r coverage d ok at own found of =
      All-weaken (IsFiled r) _
        (λ x filed here.
          let same : x ≡ d =
            some-injective (sym filed.0 ∙ ap (λ i. find_document_row i r) (ground arith) ∙ found) in
          let owner : x.tenant_id ≡ coverage.tenant_id = filed.1 coverage (
            ap (λ i. find_coverage i r) (ap (λ (y : DocumentRow). y.coverage_id) same ∙ of) ∙ at) in
          ground (arith, owner))
        r.documents ok.documents

  pub own_coverages :
      (r : Rows) (coverage : Coverage)
      → IsConsistent r
      → find_coverage coverage.id r ≡ some coverage
      → coverage.tenant_id ≡ tenant
      → All
          (λ (c : Coverage). (c.id == coverage.id) ≡ true → other_coverage s tenant c ≡ false)
          r.coverages
  own_coverages r coverage ok at own =
      All-weaken (λ (c : Coverage). find_coverage c.id r ≡ some c) _
        (λ c key here.
          let same : c ≡ coverage =
            some-injective (sym key ∙ ap (λ i. find_coverage i r) (ground arith) ∙ at) in
          ground (arith, ap (λ (x : Coverage). x.tenant_id) same))
        r.coverages ok.coverages
