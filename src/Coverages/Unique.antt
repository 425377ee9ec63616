-- ===== src/Coverages/Unique.antt =====
-- What a created coverage is, and that it is the only one of its tenant, ticker and exchange.
use stock_analyst.Shared.{
  ℕ, Text, List, [], ◌∷◌, ◌++◌, map, Bool, true, false, ◌&&◌, Option, some, ◌==◌, any, filter_by,
  find_first, strip, upper, sort_desc, ok, raised, Error, ok-injective, Raises-cases, Bool-cases,
  Pairwise, All, All-append, if◌then◌else◌, ◌≡◌, ◌≢◌, refl, sym, ap, ◌∙◌, inl, inr, arith, subst,
}
use stock_analyst.Http.{Reply, answer, ended, refused}
use stock_analyst.Coverages.{CoverageRow}
use stock_analyst.Coverages.Create.{
  CoverageCreateRequest, CoverageView, CoverageTables, Draw, validated, has_same_key,
  has_unknown_industry, is_too_long, show_coverage, new_coverage, add_coverage, create_unless,
  create_coverage, post_coverage, is_older, list_coverages, get_coverage,
}

-- Two rows that differ in tenant, ticker or exchange.
abbrev Differ : CoverageRow → CoverageRow → Type 0
Differ a b = has_same_key b.tenant_id b.ticker b.exchange a ≡ false

abbrev pub IsUnique : CoverageTables → Type 0
IsUnique t = Pairwise Differ t.coverages

All-none :
    (p : CoverageRow → Bool) (cs : List CoverageRow)
    → filter_by p cs ≡ []
    → All (λ c. p c ≡ false) cs
All-none p [] h = tt
All-none p (c ∷ cs) h = elim (Bool-cases (p c)) [
  | inl hit ↦ absurd (cc (rw hit at h))
  | inr miss ↦ (miss, All-none p cs (rw miss at h))
]

Pairwise-snoc :
    (c : CoverageRow) (cs : List CoverageRow)
    → All (λ a. Differ a c) cs
    → Pairwise Differ cs
    → Pairwise Differ (cs ++ (c ∷ []))
Pairwise-snoc c [] h hs = (tt, tt)
Pairwise-snoc c (a ∷ cs) (ha, h) (hd, hs) =
    (All-append (Differ a) cs (c ∷ []) hd (ha, tt), Pairwise-snoc c cs h hs)

filter_by-snoc :
    (p : CoverageRow → Bool) (c : CoverageRow) (cs : List CoverageRow)
    → p c ≡ false
    → filter_by p (cs ++ (c ∷ [])) ≡ filter_by p cs
filter_by-snoc p c [] h = rw h refl
filter_by-snoc p c (a ∷ cs) h = rw (filter_by-snoc p c cs h) refl

find_first-snoc :
    (id tenant : ℕ) (c : CoverageRow) (cs : List CoverageRow)
    → any (λ (x : CoverageRow). x.id == id) cs ≡ false
    → (c.id == id && c.tenant_id == tenant) ≡ true
    → find_first (λ (x : CoverageRow). x.id == id && x.tenant_id == tenant) (cs ++ (c ∷ []))
      ≡ some c
find_first-snoc id tenant c [] fresh h = rw h refl
find_first-snoc id tenant c (a ∷ cs) fresh h = ground (arith, find_first-snoc id tenant c cs)

-- The table with the new row.
abbrev with_coverage : Draw → CoverageCreateRequest → CoverageTables → CoverageTables
with_coverage d body t = record t { coverages = t.coverages ++ (new_coverage d body ∷ []) }

-- An early return that is no answer.
unless-eq-answer :
    (b : Bool) (early late : Reply CoverageView × CoverageTables) {v : CoverageView}
    {t : CoverageTables}
    → ended early.0 ≡ refused
    → (if b then early else late) ≡ (answer v, t)
    → late ≡ (answer v, t)
unless-eq-answer true early late n h =
    absurd (cc (n, ap (λ (r : Reply CoverageView × CoverageTables). ended r.0) h))
unless-eq-answer false early late n h = h

abbrev done : Draw → CoverageCreateRequest → CoverageTables → Reply CoverageView × CoverageTables
done d body t = (answer (show_coverage t (new_coverage d body)), with_coverage d body t)

-- A creation that is answered: nothing has the key, and the row is added.
abbrev IsAdded :
    Draw → CoverageCreateRequest → CoverageTables → CoverageView → CoverageTables → Type 0
IsAdded d body t v t' =
    (filter_by (has_same_key d.tenant_id body.ticker body.exchange) t.coverages ≡ [])
    × (done d body t ≡ (answer v, t'))

create_unless-eq-answer :
    (same : List CoverageRow) (d : Draw) (body : CoverageCreateRequest) (t : CoverageTables)
    {v : CoverageView} {t' : CoverageTables}
    → create_unless same d body t ≡ (answer v, t')
    → (same ≡ []) × (done d body t ≡ (answer v, t'))
unfolding create_unless add_coverage
create_unless-eq-answer [] d body t h = (refl, unless-eq-answer (is_too_long body) _ _ refl h)
create_unless-eq-answer (c ∷ []) d body t h =
    absurd (cc (ap (λ (r : Reply CoverageView × CoverageTables). ended r.0) h))
create_unless-eq-answer (c ∷ c' ∷ cs) d body t h =
    absurd (cc (ap (λ (r : Reply CoverageView × CoverageTables). ended r.0) h))

create_coverage-eq-answer :
    (d : Draw) (body : CoverageCreateRequest) (t : CoverageTables) {v : CoverageView}
    {t' : CoverageTables}
    → create_coverage d body t ≡ (answer v, t')
    → IsAdded d body t v t'
unfolding create_coverage
create_coverage-eq-answer d body t h =
    create_unless-eq-answer
      (filter_by (has_same_key d.tenant_id body.ticker body.exchange) t.coverages) d body t
      (unless-eq-answer (has_unknown_industry body t.industries) _ _ refl h)

list_coverages-other :
    (d : Draw) (body : CoverageCreateRequest) (t : CoverageTables) (other : ℕ)
    → d.tenant_id ≢ other
    → list_coverages other (with_coverage d body t) ≡ list_coverages other t
unfolding list_coverages
list_coverages-other d body t other h =
    ap (λ (cs : List CoverageRow). map (show_coverage t) (sort_desc is_older cs))
      (filter_by-snoc (λ c. c.tenant_id == other) (new_coverage d body) t.coverages (ground arith))

get_coverage-new :
    (parse : Text → Option ℕ) (coverage_id : Text) (d : Draw) (body : CoverageCreateRequest)
    (t : CoverageTables)
    → parse coverage_id ≡ some d.id
    → any (λ (c : CoverageRow). c.id == d.id) t.coverages ≡ false
    → get_coverage parse d.tenant_id coverage_id (with_coverage d body t)
      ≡ answer (show_coverage t (new_coverage d body))
unfolding get_coverage
get_coverage-new parse coverage_id d body t parsed fresh =
    rw
      (
        get_coverage,
        parsed,
        find_first-snoc d.id d.tenant_id (new_coverage d body) t.coverages fresh (ground arith),
      )
      refl

answer-injective : (v w : CoverageView) → answer v ≡ answer w → v ≡ w
answer-injective v w h = cc

-- What an answered creation leaves.
pub record Creates (parse : Text → Option ℕ) (coverage_id : Text) (other : ℕ) (d : Draw)
    (body : CoverageCreateRequest) (t : CoverageTables) (v : CoverageView) (t' : CoverageTables)
    : Type 0 where
  pub unique : IsUnique t'
  pub shown : get_coverage parse d.tenant_id coverage_id t' ≡ answer v
  pub unseen : list_coverages other t' ≡ list_coverages other t
  pub normal : v.0.ticker ≡ upper (strip body.ticker)

create_coverage-Creates :
    (parse : Text → Option ℕ) (coverage_id : Text) (other : ℕ) (d : Draw)
    (raw body : CoverageCreateRequest) (t : CoverageTables) {v : CoverageView} {t' : CoverageTables}
    → body.ticker ≡ upper (strip raw.ticker)
    → IsUnique t
    → parse coverage_id ≡ some d.id
    → any (λ (c : CoverageRow). c.id == d.id) t.coverages ≡ false
    → d.tenant_id ≢ other
    → create_coverage d body t ≡ (answer v, t')
    → Creates parse coverage_id other d raw t v t'
create_coverage-Creates parse coverage_id other d raw body t {v} {t'} normal unique parsed fresh
      apart h =
    let (none_same, ends) = create_coverage-eq-answer d body t h in
    subst
      (λ ((r, after) : Reply CoverageView × CoverageTables).
        (w : CoverageView) → r ≡ answer w → Creates parse coverage_id other d raw t w after)
      ends
      (λ w e. record {
        unique =
            Pairwise-snoc (new_coverage d body) t.coverages
              (All-none (has_same_key d.tenant_id body.ticker body.exchange) t.coverages none_same)
              unique;
        shown = get_coverage-new parse coverage_id d body t parsed fresh ∙ e;
        unseen = list_coverages-other d body t other apart;
        normal =
            ap (λ (x : CoverageView). x.0.ticker)
              (answer-injective w (show_coverage t (new_coverage d body)) (sym e))
            ∙ normal;
      })
      v refl

accepted :
    (b : Bool) (x y : CoverageCreateRequest)
    → (if b then raised Error.value_error else ok x) ≡ ok y
    → x ≡ y
accepted true x y h = cc
accepted false x y h = ok-injective x y h

validated-ticker :
    (body : CoverageCreateRequest) {valid : CoverageCreateRequest}
    → validated body ≡ ok valid
    → valid.ticker ≡ upper (strip body.ticker)
unfolding validated
validated-ticker body {valid} h =
    ap (λ (x : CoverageCreateRequest). x.ticker) (sym (accepted _ _ valid h))

-- Where no two coverages agree in tenant, ticker and exchange, and the identifier is new, a creation
-- that is answered keeps that so; the coverage is shown to its tenant by its identifier as it was
-- answered, with the ticker stripped and in upper case; and what any other tenant lists is as before.
pub post_coverage-Creates :
    (parse : Text → Option ℕ) (coverage_id : Text) (other : ℕ) (d : Draw)
    (body : CoverageCreateRequest) (t : CoverageTables) {v : CoverageView} {t' : CoverageTables}
    → IsUnique t
    → parse coverage_id ≡ some d.id
    → any (λ (c : CoverageRow). c.id == d.id) t.coverages ≡ false
    → d.tenant_id ≢ other
    → post_coverage d body t ≡ (answer v, t')
    → Creates parse coverage_id other d body t v t'
unfolding post_coverage
post_coverage-Creates parse coverage_id other d body t unique parsed fresh apart h =
    elim (Raises-cases (validated body)) [
      | inl (e, bad) ↦ absurd (
          cc (
            ap (λ (r : Reply CoverageView × CoverageTables). ended r.0)
              (rw (post_coverage, bad) at h)))
      | inr (valid, good) ↦
          create_coverage-Creates parse coverage_id other d body valid t
            (validated-ticker body good) unique parsed fresh apart (rw (post_coverage, good) at h)
    ]
