-- ===== src/Orchestrator/Graph/Steps.antt =====
-- One step of the workflow graph: what a validation does to the count of retries.
use stock_analyst.Shared.{
  ℕ, suc, ◌+◌, ◌≤◌, ◌<◌, Text, [], ◌∷◌, false, Option, none, some, ◌≡◌, ◌≢◌, refl, ◌⊎◌, inl, inr,
  ok, raised, ◌>>=◌, >>=-eq-ok, ok-injective, Error, subst, arith, Bool-cases, sym, ap, ◌∙◌,
}
use stock_analyst.Message.{EnforcerStatus}
use stock_analyst.Enforcer.Quotes.{QuoteSearch}
use stock_analyst.Enforcer.Validate.{validate, ValidationResult}
use stock_analyst.Enforcer.Verdict.{IsConsistent, validate-IsConsistent}
use stock_analyst.Orchestrator.Graph.{
  Node, lynch_pitch, citation_validation, Draft, CoverageState, retries, status,
  route_citation_result, next_node, Handlers, record_result, citation_validation_node,
  answer_of_node, reduced, visit, finished, crashed, run,
}

-- One validation approves, or counts one more failure.
abbrev pub Counts : CoverageState → CoverageState → Type 0
Counts s s' =
    (status s' ≡ EnforcerStatus.approved)
    ⊎ ((status s' ≢ EnforcerStatus.approved) × (retries s' ≡ retries s + 1))

record_result-Counts :
    (s : CoverageState) (d : Draft) (r : ValidationResult)
    → s.output ≡ some d
    → IsConsistent r
    → Counts s (record_result s d r)
record_result-Counts s d r e (_, _, same) = elim (Bool-cases r.is_approved) [
  | inl good ↦ inl (same.0 good)
  | inr bad ↦ inr (λ ok_status. cc (same.1 ok_status), rw (e, bad) refl)
]

module _ (parse : Text → Option ℕ) (store : Text → Text → QuoteSearch) (handlers : Handlers) where
  node_output-Counts :
      (s s' : CoverageState) (o : Option Draft)
      → s.output ≡ o
      → elim o [
        | none ↦ raised Error.value_error
        | some d ↦
            validate parse
              (store s.tenant_id s.coverage_id)
              false
              d.output
              s.tenant_id
              s.coverage_id
            >>= λ r. ok (record_result s d r.0)
      ]
        ≡ ok s'
      → Counts s s'
  node_output-Counts s s' none e h = absurd (cc)
  node_output-Counts s s' (some d) e h =
      let search = store s.tenant_id s.coverage_id in
      let (r, validated, done) =
        >>=-eq-ok (validate parse search false d.output s.tenant_id s.coverage_id) _ h in
      let good =
        validate-IsConsistent parse search false d.output s.tenant_id s.coverage_id validated in
      subst (Counts s) (ok-injective _ _ done) (record_result-Counts s d r.0 e good)

  pub validation-Counts :
      (s s' : CoverageState) → citation_validation_node parse store handlers s ≡ ok s' → Counts s s'
  unfolding citation_validation_node
  validation-Counts s s' h = node_output-Counts s s' s.output refl h

  counted_again :
      (s s' : CoverageState)
      → citation_validation_node parse store handlers s ≡ ok s'
      → status s' ≢ EnforcerStatus.approved
      → retries s' ≡ retries s + 1
  counted_again s s' h bad = elim (validation-Counts s s' h) [
    | inl good ↦ absurd (bad good)
    | inr (_, counted) ↦ counted
  ]

  -- After a validation the run ends or goes to `lynch_pitch`.
  pub after_validation :
      (s' : CoverageState)
      → ((next_node citation_validation s' ≡ none)
          × ((status s' ≡ EnforcerStatus.approved) ⊎ (3 ≤ retries s')))
        ⊎ ((next_node citation_validation s' ≡ some lynch_pitch)
            × (status s' ≢ EnforcerStatus.approved)
            × (retries s' < 3))
  unfolding next_node route_citation_result
  after_validation s' = ground arith

  -- One step of a run, by how its node ends.
  pub run-raised :
      (fuel : ℕ) (n : Node) (s : CoverageState) (e : Error)
      → visit parse store handlers n s ≡ raised e
      → run parse store handlers (suc fuel) n s ≡ (n ∷ [], crashed e)
  unfolding run
  run-raised fuel n s e h = rw (h, run)

  pub run-end :
      (fuel : ℕ) (n : Node) (s s' : CoverageState)
      → visit parse store handlers n s ≡ ok s'
      → next_node n s' ≡ none
      → run parse store handlers (suc fuel) n s ≡ (n ∷ [], finished s')
  unfolding run
  run-end fuel n s s' h e = rw (h, run, e)

  pub run-next :
      (fuel : ℕ) (n m : Node) (s s' : CoverageState)
      → visit parse store handlers n s ≡ ok s'
      → next_node n s' ≡ some m
      → run parse store handlers (suc fuel) n s
        ≡ (n ∷ (run parse store handlers fuel m s').0, (run parse store handlers fuel m s').1)
  unfolding run
  run-next fuel n m s s' h e = rw (h, run, e)

  -- A visit that returns keeps all of the node's answer but the log.
  visit-eq-ok :
      (n : Node) (s s' : CoverageState)
      → visit parse store handlers n s ≡ ok s'
      → (u : CoverageState) × (answer_of_node parse store handlers n s ≡ ok u)
        × (s' ≡ reduced parse store handlers s u)
  unfolding visit
  visit-eq-ok n s s' h =
      let (u, answered, same) =
        >>=-eq-ok (answer_of_node parse store handlers n s)
          (λ u. ok (reduced parse store handlers s u)) h in
      (u, answered, sym (ok-injective _ _ same))

  pub visit_lynch :
      (s s' : CoverageState)
      → visit parse store handlers lynch_pitch s ≡ ok s'
      → (u : CoverageState) × (handlers lynch_pitch s ≡ ok u) × (retries s' ≡ retries u)
  unfolding answer_of_node
  visit_lynch s s' h =
      let (u, answered, same) = visit-eq-ok lynch_pitch s s' h in (u, answered, ap retries same)

  pub next-lynch : (s : CoverageState) → next_node lynch_pitch s ≡ some citation_validation
  unfolding next_node
  next-lynch s = refl

  pub visit_citation :
      (s s' : CoverageState)
      → visit parse store handlers citation_validation s ≡ ok s'
      → status s' ≢ EnforcerStatus.approved
      → retries s' ≡ retries s + 1
  unfolding answer_of_node
  visit_citation s s' h bad =
      let (u, answered, same) = visit-eq-ok citation_validation s s' h in
      ap retries same ∙ counted_again s u answered (λ e. bad (ap status same ∙ e))
