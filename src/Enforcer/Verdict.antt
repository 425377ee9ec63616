-- ===== src/Enforcer/Verdict.antt =====
-- What the verdict of `CitationEnforcer.validate` says of the checks and of the content.
use stock_analyst.Shared.{
  ℕ, ◌*◌, ◌≤◌, map, length, Bool-cases, Text, List, [], ◌∷◌, ◌++◌, Bool, true, false, not, Option,
  none, some, ◌≡◌, refl, ◌⊎◌, inl, inr, ◌↔◌, All, all, filter_by, ok, arith, is_empty, strip,
  >>=-eq-ok, if◌then◌else◌,
}
use stock_analyst.Shared.Regex.{full_matches}
use stock_analyst.Enforcer.Patterns.{citation_pattern}
use stock_analyst.Message.{AgentOutput, Citation, approved}
use stock_analyst.Enforcer.Checks.{
  CheckResult, malformed_attempts, check_citation_coverage, check_quote_format,
  check_no_unsourced_numbers, check_no_future_speculation, check_inference_labeling, sentences_of,
  unsourced_numbers, is_speculation, is_unlabeled, numbers_of, is_cited, with_next, Item,
  claim_paragraphs, attempts_of,
}
use stock_analyst.Enforcer.Quotes.{
  QuoteSearch, Sorted, judge, judge_all, citations_of, check_quotes_exist_in_rag,
}
use stock_analyst.Enforcer.Validate.{
  ValidationResult, AuditRow, passed, verdict, checks_of, validate, log_hallucination_events,
}

filter-failed-eq-nil :
    (cs : List CheckResult) → (filter_by (λ c. not (passed c)) cs ≡ []) ↔ (all passed cs ≡ true)
filter-failed-eq-nil [] = (λ h. refl, λ h. refl)
filter-failed-eq-nil (c ∷ cs) = ground (arith, filter-failed-eq-nil cs)

all-passed_iff : (cs : List CheckResult) → (all passed cs ≡ true) ↔ All (λ c. c.passed ≡ true) cs
all-passed_iff [] = (λ h. tt, λ h. refl)
all-passed_iff (c ∷ cs) = ground (arith, all-passed_iff cs)

-- The parts of a verdict agree.
abbrev pub IsConsistent : ValidationResult → Type 0
IsConsistent r =
    ((r.is_approved ≡ true) ↔ (r.failed_checks ≡ []))
    × ((r.is_approved ≡ true) ↔ (r.retry_prompt ≡ none))
    × ((r.is_approved ≡ true) ↔ (r.enforcer_status ≡ approved))

verdict-IsConsistent : (cs : List CheckResult) (content : Text) → IsConsistent (verdict cs content)
unfolding verdict
verdict-IsConsistent cs content =
    (((filter-failed-eq-nil cs).1, (filter-failed-eq-nil cs).0), ground arith, ground arith)

-- A validation that returns comes from a returned quote check.
pub validate-eq-ok :
    (parse : Text → Option ℕ) (search : QuoteSearch) (has_db : Bool) (output : AgentOutput)
    (tenant coverage : Text) {r : ValidationResult × List AuditRow}
    → validate parse search has_db output tenant coverage ≡ ok r
    → (quotes : CheckResult) × (check_quotes_exist_in_rag search output.content ≡ ok quotes)
      × (r.0 ≡ verdict (checks_of output.content quotes) output.content)
unfolding validate
validate-eq-ok parse search has_db output tenant coverage h =
    let (quotes, found, rest) = >>=-eq-ok (check_quotes_exist_in_rag search output.content) _ h in
    let (rows, _, done) =
      >>=-eq-ok
        (if has_db then log_hallucination_events parse output tenant coverage quotes else ok []) _
        rest in
    (quotes, found, cc)

-- The exact search had a hit for a quote, or had none, and the semantic search had one.
abbrev pub IsFound : QuoteSearch → Text → Type 0
IsFound search q =
    ((c : search.Chunk) × (search.exact q ≡ ok (some c)))
    ⊎ ((search.exact q ≡ ok none) × ((c : search.Chunk) × (search.semantic q ≡ ok (some c))))

append-eq-nil {ℓ} : {A : Type ℓ} (xs ys : List A) → xs ++ ys ≡ [] → (xs ≡ []) × (ys ≡ [])
append-eq-nil [] ys h = (refl, h)
append-eq-nil (x ∷ xs) ys h = cc

append-singleton_ne : (qs : List Text) (q : Text) → ¬ (qs ++ (q ∷ []) ≡ [])
append-singleton_ne [] q h = cc
append-singleton_ne (p ∷ qs) q h = cc

judge-IsFound :
    (search : QuoteSearch) (q : Text) (s : Sorted) {s' : Sorted}
    → judge search q s ≡ ok s'
    → s'.not_found ≡ []
    → IsFound search q × (s.not_found ≡ [])
unfolding judge
judge-IsFound search q s h e = ground (arith, append-singleton_ne s.not_found q)

judge_all-IsFound :
    (search : QuoteSearch) (cs : List Citation) (s : Sorted) {s' : Sorted}
    → judge_all search cs s ≡ ok s'
    → s'.not_found ≡ []
    → All (λ c. IsFound search (strip c.quote)) cs × (s.not_found ≡ [])
unfolding judge_all
judge_all-IsFound search [] s h e = (tt, cc)
judge_all-IsFound search (c ∷ cs) s h e =
    let (s₁, first, rest) = >>=-eq-ok (judge search (strip c.quote) s) _ h in
    let (found, none_yet) = judge_all-IsFound search cs s₁ rest e in
    let (this, before) = judge-IsFound search (strip c.quote) s first none_yet in
    ((this, found), before)

quotes_check-IsFound :
    (search : QuoteSearch) (content : Text) {r : CheckResult}
    → check_quotes_exist_in_rag search content ≡ ok r
    → r.passed ≡ true
    → All (λ c. IsFound search (strip c.quote)) (citations_of content)
unfolding check_quotes_exist_in_rag
quotes_check-IsFound search content h e =
    let (s, judged, result) = >>=-eq-ok (judge_all search (citations_of content) _) _ h in
    (judge_all-IsFound search (citations_of content) _ judged (ground arith)).0

-- Every sentence in which the number pattern matches is cited, or the next one is.
abbrev pub NumbersAreSourced : List Text → Type 0
NumbersAreSourced [] = Unit
NumbersAreSourced (s ∷ rest) =
    ((numbers_of s ≡ []) ⊎ (is_cited (with_next s rest) ≡ true)) × NumbersAreSourced rest

map-eq-nil : (n : Text → Item) (ts : List Text) → map n ts ≡ [] → ts ≡ []
map-eq-nil n [] h = refl
map-eq-nil n (t ∷ ts) h = cc

unsourced-nil : (ss : List Text) → unsourced_numbers ss ≡ [] → NumbersAreSourced ss
unfolding unsourced_numbers
unsourced-nil [] h = tt
unsourced-nil (s ∷ rest) h = elim (Bool-cases (is_cited (with_next s rest))) [
  | inl cited ↦ (inr cited, unsourced-nil rest (rw cited at h))
  | inr uncited ↦
      let both = append-eq-nil _ (unsourced_numbers rest) (rw uncited at h) in
      (inl (map-eq-nil _ (numbers_of s) both.0), unsourced-nil rest both.1)
]

filter-nil {ℓ} :
    {A : Type ℓ} (p : A → Bool) (xs : List A)
    → is_empty (filter_by p xs) ≡ true
    → All (λ x. p x ≡ false) xs
filter-nil p [] h = tt
filter-nil p (x ∷ xs) h = elim (Bool-cases (p x)) [
  | inl holds ↦ absurd (ground arith)
  | inr fails ↦ (fails, filter-nil p xs (rw fails at h))
]

-- What an approved content satisfies.
pub record IsSound (search : QuoteSearch) (content : Text) : Type 0 where
  pub covered :
      95 * length (claim_paragraphs content)
      ≤ 100 * length (filter_by is_cited (claim_paragraphs content))
  pub well_formed : All (λ a. full_matches citation_pattern a ≡ true) (attempts_of content)
  pub quotes_found : All (λ c. IsFound search (strip c.quote)) (citations_of content)
  pub numbers_sourced : NumbersAreSourced (sentences_of content)
  pub not_speculative : All (λ s. is_speculation s ≡ false) (sentences_of content)
  pub labeled : All (λ s. is_unlabeled s ≡ false) (sentences_of content)

malformed-nil :
    (ts : List Text)
    → All (λ a. not (full_matches citation_pattern a) ≡ false) ts
    → All (λ a. full_matches citation_pattern a ≡ true) ts
malformed-nil [] h = tt
malformed-nil (a ∷ rest) h = (ground arith, malformed-nil rest h.1)

verdict-approved :
    (cs : List CheckResult) (content : Text)
    → (verdict cs content).is_approved ≡ true
    → All (λ c. c.passed ≡ true) cs
unfolding verdict
verdict-approved cs content h = (all-passed_iff cs).0 h

checks_of-IsSound :
    (search : QuoteSearch) (content : Text) {quotes : CheckResult}
    → check_quotes_exist_in_rag search content ≡ ok quotes
    → All (λ c. c.passed ≡ true) (checks_of content quotes)
    → IsSound search content
unfolding checks_of check_citation_coverage check_quote_format check_no_unsourced_numbers
    check_no_future_speculation check_inference_labeling malformed_attempts
checks_of-IsSound search content found (a, (b, (c, (d, (e, (f, _)))))) = record {
  covered = ground arith;
  well_formed = malformed-nil (attempts_of content) (filter-nil _ (attempts_of content) b);
  quotes_found = quotes_check-IsFound search content found c;
  numbers_sourced = unsourced-nil (sentences_of content) (ground arith);
  not_speculative = filter-nil _ (sentences_of content) e;
  labeled = filter-nil _ (sentences_of content) f;
}

-- Where a validation returns and approves: at least 95 percent of the claim paragraphs have a
-- citation; every attempted citation, as the attempt pattern matches it, is well formed; for every
-- quote cited the exact search has a hit, or has none and the semantic search has one; every
-- sentence in which the number pattern matches, that is digits with a unit word behind them, is
-- cited or is followed by a sentence that is (a number without a unit need not be); no sentence in
-- which the speculation pattern matches is without a citation; and every sentence in which the
-- inference pattern matches is labelled.
pub validate-approved-IsSound :
    (parse : Text → Option ℕ) (search : QuoteSearch) (has_db : Bool) (output : AgentOutput)
    (tenant coverage : Text) {r : ValidationResult × List AuditRow}
    → validate parse search has_db output tenant coverage ≡ ok r
    → r.0.is_approved ≡ true
    → IsSound search output.content
validate-approved-IsSound parse search has_db output tenant coverage h good =
    let (quotes, found, same) = validate-eq-ok parse search has_db output tenant coverage h in
    checks_of-IsSound search output.content found
      (verdict-approved _ output.content (rw same at good))

-- Where a validation returns, these four say the same: the output is approved, no failed check is
-- listed, there is no retry prompt, the status is `approved`.
pub validate-IsConsistent :
    (parse : Text → Option ℕ) (search : QuoteSearch) (has_db : Bool) (output : AgentOutput)
    (tenant coverage : Text) {r : ValidationResult × List AuditRow}
    → validate parse search has_db output tenant coverage ≡ ok r
    → IsConsistent r.0
validate-IsConsistent parse search has_db output tenant coverage h =
    let (quotes, found, same) = validate-eq-ok parse search has_db output tenant coverage h in
    rw same (verdict-IsConsistent _ output.content)
