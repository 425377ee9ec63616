-- ===== src/Orchestrator/Graph/Retries.antt =====
-- The retry loop of the workflow graph.
use stock_analyst.Shared.{
  ℕ, zero, suc, ◌+◌, ◌-◌, ◌*◌, ◌≤◌, Text, List, [], ◌∷◌, Option, some, ◌≡◌, refl, ◌⊎◌, inl, inr,
  All, ok, Raises-cases, sym, ◌∙◌, subst, arith, Option-cases,
}
use mathlib.Core.Option.{some-injective}
use stock_analyst.Message.{EnforcerStatus}
use stock_analyst.Enforcer.Quotes.{QuoteSearch}
use stock_analyst.Orchestrator.Graph.{
  Node, industry_analysis, lynch_pitch, munger_invert, citation_validation, CoverageState, retries,
  status, next_node, Handlers, visit, Outcome, finished, crashed, out_of_fuel, run,
}
use stock_analyst.Orchestrator.Graph.Steps.{
  after_validation, run-raised, run-end, run-next, visit_lynch, next-lynch, visit_citation,
}

-- The visits of the validation node.
abbrev pub validations : List Node → ℕ
validations [] = 0
validations (citation_validation ∷ ns) = suc (validations ns)
validations (_ ∷ ns) = validations ns

validations-cons :
    (n : Node) (ns : List Node) → validations (n ∷ []) ≡ 0 → validations (n ∷ ns) ≡ validations ns
validations-cons citation_validation ns h = absurd (omega arith)
validations-cons _ ns h = refl

-- A run that finishes has an approved output, or has failed validation three times.
abbrev pub IsSettled : Outcome → Type 0
IsSettled (finished s) = (status s ≡ EnforcerStatus.approved) ⊎ (3 ≤ retries s)
IsSettled (crashed e) = Unit
IsSettled out_of_fuel = ⊥

module _ (parse : Text → Option ℕ) (store : Text → Text → QuoteSearch) (handlers : Handlers) where
  -- The retried agent leaves the count as it is.
  abbrev pub KeepsCount : Type 0
  KeepsCount = (s s' : CoverageState) → handlers lynch_pitch s ≡ ok s' → retries s' ≡ retries s

  abbrev Settles : ℕ → List Node × Outcome → Type 0
  Settles bound (trace, o) = IsSettled o × (validations trace ≤ bound)

  lynch_step :
      KeepsCount
      → (fuel bound : ℕ) (s : CoverageState)
      → ((s' : CoverageState)
          → retries s' ≡ retries s
          → Settles bound (run parse store handlers fuel citation_validation s'))
      → Settles bound (run parse store handlers (suc fuel) lynch_pitch s)
  lynch_step keep fuel bound s rest =
      elim (Raises-cases (visit parse store handlers lynch_pitch s)) [
        | inl (e, h) ↦ rw (run-raised parse store handlers fuel lynch_pitch s e h) (tt, omega arith)
        | inr (s', h) ↦
            rw
              (run-next parse store handlers fuel lynch_pitch citation_validation s s' h
                (next-lynch parse store handlers s'))
              (let (u, answered, same) = visit_lynch parse store handlers s s' h in
                rest s' (same ∙ keep s u answered))
      ]

  settles :
      KeepsCount
      → (fuel : ℕ) (s : CoverageState) → 2 * (2 - retries s) + 1 ≤ fuel
      → Settles (1 + (2 - retries s)) (run parse store handlers fuel citation_validation s)
  settles keep zero s enough = absurd (omega arith)
  settles keep (suc zero) s enough =
      elim (Raises-cases (visit parse store handlers citation_validation s)) [
        | inl (e, h) ↦
            rw (run-raised parse store handlers 0 citation_validation s e h) (tt, omega arith)
        | inr (s', h) ↦ elim (after_validation parse store handlers s') [
          | inl (end, settled) ↦
              rw (run-end parse store handlers 0 citation_validation s s' h end)
                (settled, omega arith)
          | inr (_, bad, few) ↦
              let counted = visit_citation parse store handlers s s' h bad in absurd (omega arith)
        ]
      ]
  settles keep (suc (suc fuel)) s enough =
      elim (Raises-cases (visit parse store handlers citation_validation s)) [
        | inl (e, h) ↦
            rw (run-raised parse store handlers (suc fuel) citation_validation s e h)
              (tt, omega arith)
        | inr (s', h) ↦ elim (after_validation parse store handlers s') [
          | inl (end, settled) ↦
              rw (run-end parse store handlers (suc fuel) citation_validation s s' h end)
                (settled, omega arith)
          | inr (again, bad, few) ↦
              let counted = visit_citation parse store handlers s s' h bad in
              let rest =
                lynch_step keep fuel (1 + (2 - retries s')) s'
                  (λ s'' same. rw same at (settles keep fuel s'' (omega arith))) in
              rw
                (run-next parse store handlers (suc fuel) citation_validation lynch_pitch s s' h
                  again)
                (rest.0, omega arith)
        ]
      ]

  -- The nodes whose output is reviewed.
  abbrev pub IsResearch : Node → Type 0
  IsResearch industry_analysis = Unit
  IsResearch lynch_pitch = Unit
  IsResearch munger_invert = Unit
  IsResearch _ = ⊥

  next-research :
      (n : Node) (s : CoverageState)
      → IsResearch n
      → (next_node n s ≡ some citation_validation) × (validations (n ∷ []) ≡ 0)
  unfolding next_node
  next-research industry_analysis s h = (refl, refl)
  next-research lynch_pitch s h = (refl, refl)
  next-research munger_invert s h = (refl, refl)
  next-research _ s h = absurd h

  -- Where the lynch_pitch node leaves the retry count as it is, a run from a research node takes
  -- at most six steps: it ends, by an exception or with an output that is approved or a retry
  -- count of at least three, and it validates at most three times.
  pub research_run_settles :
      KeepsCount
      → (n : Node) → IsResearch n
      → (fuel : ℕ) (s : CoverageState) → 6 ≤ fuel
      → let (trace, o) = run parse store handlers fuel n s in IsSettled o × (validations trace ≤ 3)
  research_run_settles keep n research zero s enough = absurd (omega arith)
  research_run_settles keep n research (suc fuel) s enough =
      elim (Raises-cases (visit parse store handlers n s)) [
        | inl (e, h) ↦
            rw (run-raised parse store handlers fuel n s e h)
              (tt, omega (arith, (next-research n s research).1))
        | inr (s', h) ↦
            let (rest, count) = settles keep fuel s' (omega arith) in
            let (next, none_here) = next-research n s' research in
            rw (run-next parse store handlers fuel n citation_validation s s' h next)
              (rest, omega (arith, validations-cons n _ none_here))
      ]

  abbrev pub IsRetryNode : Node → Type 0
  IsRetryNode lynch_pitch = Unit
  IsRetryNode citation_validation = Unit
  IsRetryNode _ = ⊥

  next-IsRetryNode :
      (n m : Node) (s : CoverageState) → IsRetryNode n → next_node n s ≡ some m → IsRetryNode m
  unfolding next_node
  next-IsRetryNode lynch_pitch m s here h = subst IsRetryNode (some-injective _ _ h) tt
  next-IsRetryNode citation_validation m s here h = elim (after_validation parse store handlers s) [
    | inl (end, _) ↦ absurd (cc)
    | inr (again, _, _) ↦ subst IsRetryNode (some-injective _ _ (sym again ∙ h)) tt
  ]
  next-IsRetryNode _ m s here h = absurd here

  visits_retry_nodes :
      (fuel : ℕ) (n : Node) (s : CoverageState)
      → IsRetryNode n
      → All IsRetryNode (run parse store handlers fuel n s).0
  unfolding run
  visits_retry_nodes zero n s here = tt
  visits_retry_nodes (suc fuel) n s here = elim (Raises-cases (visit parse store handlers n s)) [
    | inl (e, h) ↦ rw (run-raised parse store handlers fuel n s e h) (here, tt)
    | inr (s', h) ↦ elim (Option-cases (next_node n s')) [
      | inl end ↦ rw (run-end parse store handlers fuel n s s' h end) (here, tt)
      | inr (m, again) ↦
          rw (run-next parse store handlers fuel n m s s' h again)
            (here, visits_retry_nodes fuel m s' (next-IsRetryNode n m s' here again))
    ]
  ]

  -- A run from a research node visits that node first, and after it only the validation node and
  -- lynch_pitch: a rejected output of another agent is never sent back to that agent.
  pub research_visited_once :
      (fuel : ℕ) (n : Node) (s : CoverageState)
      → IsResearch n
      → (rest : List Node) × ((run parse store handlers (suc fuel) n s).0 ≡ n ∷ rest)
        × All IsRetryNode rest
  research_visited_once fuel n s research = elim (Raises-cases (visit parse store handlers n s)) [
    | inl (e, h) ↦ ([], rw (run-raised parse store handlers fuel n s e h) refl, tt)
    | inr (s', h) ↦
        let (next, _) = next-research n s' research in
        (
          (run parse store handlers fuel citation_validation s').0,
          rw (run-next parse store handlers fuel n citation_validation s s' h next) refl,
          visits_retry_nodes fuel citation_validation s' tt,
        )
  ]
