-- ===== src/Evaluation/Passes.antt =====
-- When a case of run_eval.py passes.
use stock_analyst.Shared.{
  ℕ, Text, List, [], ◌∷◌, ◌++◌, Bool, true, false, leb, Raises, Error, Raises-cases, ok, raised,
  >>=-eq-ok, ◌>>=◌, ok-injective, if◌then◌else◌, starts_with, strip, ◌≡◌, ◌↔◌, ◌⊎◌, inl, inr, refl,
  sym, ap, ◌∙◌, subst,
}
use stock_analyst.Message.{AgentType}
use stock_analyst.Enforcer.Quotes.{QuoteSearch}
use stock_analyst.Evaluation.{Case, CaseResult, CheckOutcome, must_start_with, no_hallucinations}
use stock_analyst.Evaluation.Checks.{
  outcome, prefix_checks, question_checks, phrase_checks, citation_checks, count_checks, run_checks,
}
use stock_analyst.Evaluation.Polling.{Answer}
use stock_analyst.Evaluation.Cases.{
  Manifest, EvalClient, Scores, allowed, checks_of_case, scored_result, failed_result, run_case,
  execute_case, score_hallucinations,
}
use stock_analyst.Evaluation.Good.{
  IsGood, IsMet, IsGood-parts, IsGood-one, IsGood-one_iff, IsGood-declared, leb_iff,
}
use stock_analyst.Evaluation.Accepts.{
  IsAccepted, rest_iff, AnswersQuestions, HasPhrases, HasCitations, HasCounts,
}

-- Checks that a flag leaves out.
IsGood-unless :
    {P : Type 0} (skip : Bool) (ks : List CheckOutcome)
    → IsGood ks ↔ P
    → IsGood (if skip then [] else ks) ↔ ((skip ≡ true) ⊎ P)
IsGood-unless true ks f = (λ h. inl refl, λ h. refl)
IsGood-unless false ks f = (λ h. inr (f.0 h), λ h. elim h [ inl e ↦ cc | inr p ↦ f.1 p ])

module _ (c : Case) (content : Text) where
  prefix_checks_iff :
      IsGood (prefix_checks c content)
      ↔ IsMet c.must_start_with (λ p. starts_with (strip content) p ≡ true)
  unfolding prefix_checks
  prefix_checks_iff =
      IsGood-declared c.must_start_with
        (λ p. outcome must_start_with (starts_with (strip content) p) ∷ [])
        (λ p. IsGood-one must_start_with (starts_with (strip content) p))

  run_checks_iff : IsGood (run_checks c content) ↔ (
      IsMet c.must_start_with (λ p. starts_with (strip content) p ≡ true)
      × ((c.skip_citation_checks ≡ true)
          ⊎ (AnswersQuestions c content
              × (HasPhrases c content × (HasCitations c content × HasCounts c content)))))
  unfolding run_checks
  run_checks_iff = IsGood-parts (prefix_checks c content) _ prefix_checks_iff (
      IsGood-unless c.skip_citation_checks
        (question_checks c content
          ++ (phrase_checks c content ++ (citation_checks c content ++ count_checks c content)))
        (rest_iff c content))

  checks_of_case_iff :
      (s : Scores) → IsGood (checks_of_case c content s) ↔ IsAccepted c content s.hallucinations
  unfolding checks_of_case
  checks_of_case_iff s =
      let both = IsGood-parts (run_checks c content) _ run_checks_iff (
        IsGood-one_iff no_hallucinations (leb s.hallucinations (allowed c))
          (leb_iff s.hallucinations (allowed c))) in
      (λ h. let ((p, q), r) = both.0 h in (p, q, r), λ (p, q, r). both.1 ((p, q), r))

module _ (agent : AgentType) (m : Manifest) (client : EvalClient) where
  module _ (search : Text → Text → QuoteSearch) (elapsed : Case → ℕ) (c : Case) where
    -- The task of the case gave an answer, and the enforcer's scores of it.
    abbrev pub IsAnswered : Answer → Scores → Type 0
    IsAnswered a s =
        (execute_case agent m client c ≡ ok a)
        × (score_hallucinations agent m search c a.content ≡ ok s)

    run_case-eq-raised :
        {e : Error}
        → execute_case agent m client c ≡ raised e
        → run_case agent m client search elapsed c ≡ ok (failed_result c (elapsed c) e)
    unfolding run_case
    run_case-eq-raised failed = rw (run_case, failed) refl

    run_case-eq-ok :
        {a : Answer}
        → execute_case agent m client c ≡ ok a
        → run_case agent m client search elapsed c ≡ (
            score_hallucinations agent m search c a.content
            >>= (λ s. ok (scored_result c (elapsed c) a s)))
    unfolding run_case
    run_case-eq-ok answered = rw (run_case, answered) refl

    run_case-failed :
        {e : Error} {r : CaseResult}
        → execute_case agent m client c ≡ raised e
        → run_case agent m client search elapsed c ≡ ok r
        → r.passed ≡ false
    unfolding failed_result
    run_case-failed {e} {r} failed returns =
        ap (λ (x : CaseResult). x.passed)
          (ok-injective r (failed_result c (elapsed c) e) (sym returns ∙ run_case-eq-raised failed))

    run_case-scored :
        {a : Answer} {r : CaseResult}
        → execute_case agent m client c ≡ ok a
        → run_case agent m client search elapsed c ≡ ok r
        → (s : Scores) × (score_hallucinations agent m search c a.content ≡ ok s)
          × (scored_result c (elapsed c) a s ≡ r)
    run_case-scored {a} {r} answered returns =
        let (s, scored, same) =
          >>=-eq-ok (score_hallucinations agent m search c a.content)
            (λ s. ok (scored_result c (elapsed c) a s)) (sym (run_case-eq-ok answered) ∙ returns) in
        (s, scored, ok-injective (scored_result c (elapsed c) a s) r same)

    scored_iff :
        (a : Answer) (s : Scores)
        → ((scored_result c (elapsed c) a s).passed ≡ true)
          ↔ IsAccepted c a.content s.hallucinations
    unfolding scored_result
    scored_iff a s = checks_of_case_iff c a.content s

    -- There is one answer, with one list of scores.
    IsAccepted-one :
        {a b : Answer} {s t : Scores}
        → IsAnswered a s
        → IsAnswered b t
        → IsAccepted c a.content s.hallucinations
        → IsAccepted c b.content t.hallucinations
    IsAccepted-one {a} {b} {s} {t} (answered, scored) (answered', scored') accepted =
        let same : a ≡ b = ok-injective a b (sym answered ∙ answered') in
        let score : Answer → Raises Scores = λ x. score_hallucinations agent m search c x.content in
        let equal : s ≡ t = ok-injective s t (sym scored ∙ ap score same ∙ scored') in
        subst (λ (x : Answer). IsAccepted c x.content t.hallucinations) same
          (subst (λ (x : Scores). IsAccepted c a.content x.hallucinations) equal accepted)

    -- Where the run of a case returns a result, the case has passed exactly if its task gave an answer
    -- with which the checks that the runner makes are passed: the prefix; the questions, phrases,
    -- citations, their coverage and the counts, none of which is asked where the case skips the
    -- citation checks; and no more hallucinations than are allowed. Keys of a case that the runner
    -- does not read ask nothing.
    pub run_case-passed :
        {r : CaseResult}
        → run_case agent m client search elapsed c ≡ ok r
        → (r.passed ≡ true)
          ↔ ((a : Answer) × (s : Scores) × IsAnswered a s × IsAccepted c a.content s.hallucinations)
    run_case-passed {r} returns = elim (Raises-cases (execute_case agent m client c)) [
      | inl (e, failed) ↦ (
        λ good. absurd (cc (good, run_case-failed failed returns)),
        λ (a, s, (answered, _), _). absurd (cc (failed, answered)),
      )
      | inr (a, answered) ↦
          let (s, scored, same) = run_case-scored answered returns in
          let passes = ap (λ (x : CaseResult). x.passed) same in
          (
            λ good. (a, s, (answered, scored), (scored_iff a s).0 (passes ∙ good)),
            λ (b, t, answer, accepted).
                sym passes ∙ (scored_iff a s).1 (IsAccepted-one answer (answered, scored) accepted),
          )
    ]
