-- ===== src/Retriever/Filters.antt =====
-- What a filter demands of a payload.
use stock_analyst.Shared.{
  Text, codes, [], ◌∷◌, true, ◌≡◌, ◌∙◌, ap, ◌⊎◌, inl, inr, All, any, arith, Bool-cases, same_text,
  same_text→eq,
}
use stock_analyst.Retriever.{text, Payload, get, Condition, Filter, build_filter}

-- The payload has one of the values under the key.
abbrev pub Meets : Payload → Condition → Type 0
Meets m c = (v : Text) × (get c.key m ≡ text v) × (any (same_text v) c.values ≡ true)

abbrev pub IsInScope : Filter → Payload → Type 0
IsInScope f m = All (Meets m) f

-- The payload is of this tenant and this coverage, and of a chunk that is searched.
pub record IsInCoverage (tenant_id coverage_id : Text) (m : Payload) : Type 0 where
  pub same_tenant : get (codes "tenant_id") m ≡ text tenant_id
  pub same_coverage : get (codes "coverage_id") m ≡ text coverage_id
  pub searched :
      (get (codes "chunk_type") m ≡ text (codes "child"))
      ⊎ (get (codes "chunk_type") m ≡ text (codes "table"))

only_value :
    (key value : Text) (m : Payload)
    → Meets m (record { key = key; values = value ∷ [] })
    → get key m ≡ text value
only_value key value m (v, got, listed) = got ∙ ap text (same_text→eq v value (ground arith))

one_of_two :
    (key a b : Text) (m : Payload)
    → Meets m (record { key = key; values = a ∷ b ∷ [] })
    → (get key m ≡ text a) ⊎ (get key m ≡ text b)
one_of_two key a b m (v, got, listed) = elim (Bool-cases (same_text v a)) [
  | inl first ↦ inl (got ∙ ap text (same_text→eq v a first))
  | inr other ↦ inr (got ∙ ap text (same_text→eq v b (ground arith)))
]

-- What the filter of a retrieval demands.
pub build_filter-IsInCoverage :
    (tenant_id coverage_id : Text) (more : Filter) (m : Payload)
    → IsInScope (build_filter tenant_id coverage_id more) m
    → IsInCoverage tenant_id coverage_id m × IsInScope more m
unfolding build_filter
build_filter-IsInCoverage tenant_id coverage_id more m (tenant, (coverage, (kind, rest))) = (
  record {
    same_tenant = only_value (codes "tenant_id") tenant_id m tenant;
    same_coverage = only_value (codes "coverage_id") coverage_id m coverage;
    searched = one_of_two (codes "chunk_type") (codes "child") (codes "table") m kind;
  },
  rest,
)
