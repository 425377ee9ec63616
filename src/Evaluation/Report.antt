-- ===== src/Evaluation/Report.antt =====
-- `EvalReport`, its summary and the exit code of run_eval.py. A rate is an exact quotient.
use stock_analyst.Shared.{
  ℕ, suc, ◌+◌, Text, List, [], ◌∷◌, map, Bool, true, not, length, filter_by, length-filter_by-le,
  All, Raises, ok, >>=-eq-ok, ◌>>=◌, ok-injective, ◌==◌, if◌then◌else◌, Bool-cases, ◌≡◌, ◌≢◌, ◌↔◌,
  inl, inr, refl, sym, ap, ◌∙◌, subst, arith,
}
use stock_analyst.Evaluation.{Case, CaseResult}
use stock_analyst.Evaluation.Cases.{run_all}

-- `over / under`
pub record Rate : Type 0 where
  pub over : ℕ
  pub under : ℕ

abbrev zero_rate : Rate
zero_rate = record { over = 0; under = 1 }

unfoldable pub total_of : (CaseResult → ℕ) → List CaseResult → ℕ
total_of f [] = 0
total_of f (r ∷ rs) = f r + total_of f rs

abbrev case_passed : CaseResult → Bool
case_passed r = r.passed

-- `pass_rate`
unfoldable pub pass_rate : List CaseResult → Rate
pass_rate [] = zero_rate
pass_rate (r ∷ rs) = record {
  over = length (filter_by case_passed (r ∷ rs));
  under = length (r ∷ rs);
}

-- `hallucination_rate`
unfoldable pub hallucination_rate : List CaseResult → Rate
hallucination_rate rs =
    let citations = total_of (λ r. r.citations_found) rs in
    if citations == 0
    then zero_rate
    else record { over = total_of (λ r. r.hallucination_count) rs; under = citations }

-- `total_paraphrase_warnings`
unfoldable pub total_paraphrase_warnings : List CaseResult → ℕ
total_paraphrase_warnings = total_of (λ r. r.paraphrase_count)

-- `failed_case_ids` of the summary
unfoldable pub failed_case_ids : List CaseResult → List Text
failed_case_ids rs = map (λ (r : CaseResult). r.test_id) (filter_by (λ r. not r.passed) rs)

-- `main`: 0 where the pass rate is 1.0
unfoldable pub exit_code : List CaseResult → ℕ
exit_code rs = let rate = pass_rate rs in if rate.over == rate.under then 0 else 1

-- A case that was run, and passed.
abbrev pub HasPassed : (Case → Raises CaseResult) → Case → Type 0
HasPassed run c = (r : CaseResult) × (run c ≡ ok r) × (r.passed ≡ true)

abbrev AllPassed : List CaseResult → Type 0
AllPassed = All (λ r. r.passed ≡ true)

full-AllPassed :
    (rs : List CaseResult) → length (filter_by case_passed rs) ≡ length rs → AllPassed rs
full-AllPassed [] h = tt
full-AllPassed (r ∷ rs) h = elim (Bool-cases r.passed) [
  | inl good ↦ (good, full-AllPassed rs (ground (arith, good, h)))
  | inr bad ↦ absurd (grind (arith, bad, h, length-filter_by-le case_passed rs))
]

AllPassed-full :
    (rs : List CaseResult) → AllPassed rs → length (filter_by case_passed rs) ≡ length rs
AllPassed-full [] h = refl
AllPassed-full (r ∷ rs) (good, h) = rw good (ap suc (AllPassed-full rs h))

exit_code_iff : (rs : List CaseResult) → (exit_code rs ≡ 0) ↔ ((rs ≢ []) × AllPassed rs)
unfolding exit_code pass_rate
exit_code_iff [] = (λ h. absurd (ground arith), λ h. absurd (h.0 refl))
exit_code_iff (r ∷ rs) = (
  λ h. (λ e. cc, full-AllPassed (r ∷ rs) (ground arith)),
  λ (some_run, h). rw (exit_code, pass_rate, AllPassed-full (r ∷ rs) h) (ground arith),
)

-- The results are those of the cases, in order.
data Runs (run : Case → Raises CaseResult) : List Case → List CaseResult → Type 0 where
  none_left : Runs run [] []
  ran :
      {c : Case} {r : CaseResult} {cs : List Case} {rs : List CaseResult}
      → run c ≡ ok r
      → Runs run cs rs
      → Runs run (c ∷ cs) (r ∷ rs)

run_all-Runs :
    (run : Case → Raises CaseResult) (cs : List Case) {rs : List CaseResult}
    → run_all run cs ≡ ok rs
    → Runs run cs rs
unfolding run_all
run_all-Runs run [] {rs} h = subst (Runs run []) (ok-injective [] rs h) none_left
run_all-Runs run (c ∷ cs) {rs} h =
    let (r, first, others) = >>=-eq-ok (run c) (λ r. run_all run cs >>= (λ rs. ok (r ∷ rs))) h in
    let (qs, ran_all, same) = >>=-eq-ok (run_all run cs) (λ rs. ok (r ∷ rs)) others in
    subst (Runs run (c ∷ cs)) (ok-injective (r ∷ qs) rs same)
      (ran first (run_all-Runs run cs ran_all))

Runs-HasPassed :
    {run : Case → Raises CaseResult} {cs : List Case} {rs : List CaseResult}
    → Runs run cs rs
    → AllPassed rs
    → All (HasPassed run) cs
Runs-HasPassed none_left p = tt
Runs-HasPassed (ran first h) (good, p) = ((_, first, good), Runs-HasPassed h p)

Runs-AllPassed :
    {run : Case → Raises CaseResult} {cs : List Case} {rs : List CaseResult}
    → Runs run cs rs
    → All (HasPassed run) cs
    → AllPassed rs
Runs-AllPassed none_left p = tt
Runs-AllPassed (ran {r = r} first h) ((q, again, good), p) = (
  ap (λ (x : CaseResult). x.passed) (ok-injective r q (sym first ∙ again)) ∙ good,
  Runs-AllPassed h p,
)

Runs-empty :
    {run : Case → Raises CaseResult} {cs : List Case} {rs : List CaseResult}
    → Runs run cs rs
    → (rs ≢ []) ↔ (cs ≢ [])
Runs-empty none_left = (λ f. absurd (f refl), λ f. absurd (f refl))
Runs-empty (ran first h) = (λ f e. cc, λ f e. cc)

-- Where a run of the dataset returns results, the exit code is 0 exactly if the dataset has a case
-- and every case of it was run and passed.
pub exit_code-run_all :
    (run : Case → Raises CaseResult) (cs : List Case) {rs : List CaseResult}
    → run_all run cs ≡ ok rs
    → (exit_code rs ≡ 0) ↔ ((cs ≢ []) × All (HasPassed run) cs)
exit_code-run_all run cs {rs} h =
    let runs = run_all-Runs run cs h in
    let same = Runs-empty runs in
    (
      λ z. let (some_run, p) = (exit_code_iff rs).0 z in (same.0 some_run, Runs-HasPassed runs p),
      λ (some_case, p). (exit_code_iff rs).1 (same.1 some_case, Runs-AllPassed runs p),
    )
