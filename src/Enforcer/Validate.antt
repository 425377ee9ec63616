-- ===== src/Enforcer/Validate.antt =====
-- `CitationEnforcer.validate` of citation_enforcer.py: the verdict, the retry prompt, the audit log.
use stock_analyst.Shared.{
  ℕ, Text, List, [], ◌∷◌, ◌++◌, map, Bool, true, false, Option, none, some, not, length, take, all,
  filter_by, find_first, if◌then◌else◌, Raises, ok, raised, Error, ◌>>=◌,
}
use stock_analyst.Message.{
  AgentOutput, AgentType, Coverage, at_least_pct, EnforcerStatus, approved, partial, failed,
}
use stock_analyst.Enforcer.Checks.{
  CheckResult, CheckName, quote_exists_in_rag, Details, Item, check_citation_coverage,
  check_quote_format, check_no_unsourced_numbers, check_no_future_speculation,
  check_inference_labeling, compute_citation_coverage, partial_coverage_floor,
}
use stock_analyst.Enforcer.Quotes.{QuoteSearch, check_quotes_exist_in_rag}

-- A line of the retry prompt, by what it prints.
pub data Line : Type 0 where
  heading blank specific_failures rules : Line
  failed_check : CheckName → Line
  issue : Details → Line
  failure : Item → Line

pub record ValidationResult : Type 0 where
  pub is_approved : Bool
  pub enforcer_status : EnforcerStatus
  pub failed_checks : List CheckResult
  pub citation_coverage_pct : Coverage
  pub retry_prompt : Option (List Line)
  pub hallucination_count : ℕ
  pub paraphrase_warnings : List Item

pub data Action : Type 0 where
  hallucination_detected paraphrase_warning : Action

-- A row of `agent_audit_log`; the identifiers are parsed UUIDs.
pub record AuditRow : Type 0 where
  pub tenant : ℕ
  pub coverage : ℕ
  pub agent : AgentType
  pub action : Action
  pub output_id : Option ℕ
  pub quote : Item

abbrev failures : List Item → List Line
failures [] = []
failures (i ∷ is) = specific_failures ∷ map failure (take 3 (i ∷ is))

prompt_of : CheckResult → List Line
prompt_of c =
    if c.passed
    then []
    else failed_check c.check_name ∷ issue c.details ∷ (failures c.failed_items ++ (blank ∷ []))

prompts_of : List CheckResult → List Line
unfolding prompt_of
prompts_of [] = []
prompts_of (c ∷ cs) = prompt_of c ++ prompts_of cs

-- `_build_retry_prompt`
unfoldable pub build_retry_prompt : List CheckResult → List Line
unfolding prompts_of
build_retry_prompt checks = heading ∷ blank ∷ (prompts_of checks ++ (rules ∷ []))

abbrev pub is_quotes_check : CheckResult → Bool
is_quotes_check c = elim c.check_name [ quote_exists_in_rag ↦ true | _ ↦ false ]

abbrev pub passed : CheckResult → Bool
passed c = c.passed

-- `_log_hallucination_events`: `parse` is `uuid.UUID`, which may raise.
module _ (parse : Text → Option ℕ) where
  abbrev pub events : CheckResult → List (Item × Action)
  events c =
      map (λ i. (i, hallucination_detected)) c.failed_items
      ++ map (λ i. (i, paraphrase_warning)) c.paraphrase_items

  abbrev pub uuid : Text → Raises ℕ
  uuid t = elim (parse t) [ none ↦ raised Error.value_error | some n ↦ ok n ]

  unfoldable pub log_rows :
      AgentOutput → Text → Text → List (Item × Action) → Raises (List AuditRow)
  log_rows output tenant_id coverage_id [] = ok []
  log_rows output tenant_id coverage_id ((item, action) ∷ es) = do
    t ← uuid tenant_id
    c ← uuid coverage_id
    rows ← log_rows output tenant_id coverage_id es
    ok (
        record {
          tenant = t;
          coverage = c;
          agent = output.agent;
          action = action;
          output_id = parse output.message_id;
          quote = item;
        }
        ∷ rows)

  unfoldable pub log_hallucination_events :
      AgentOutput → Text → Text → CheckResult → Raises (List AuditRow)
  log_hallucination_events output tenant_id coverage_id c =
      log_rows output tenant_id coverage_id (events c)

abbrev pub status_of : Bool → Coverage → EnforcerStatus
status_of good cov =
    if good then approved else if at_least_pct partial_coverage_floor cov then partial else failed

-- The verdict from the list of checks.
unfoldable pub verdict : List CheckResult → Text → ValidationResult
verdict checks content =
    let good = all passed checks in
    let cov = compute_citation_coverage content in
    let quotes = find_first is_quotes_check checks in
    record {
      is_approved = good;
      enforcer_status = status_of good cov;
      failed_checks = filter_by (λ c. not (passed c)) checks;
      citation_coverage_pct = cov;
      retry_prompt = if good then none else some (build_retry_prompt checks);
      hallucination_count = elim quotes [ none ↦ 0 | some c ↦ length c.failed_items ];
      paraphrase_warnings = elim quotes [ none ↦ [] | some c ↦ c.paraphrase_items ];
    }

-- The six checks in order, around the one that needs the store.
unfoldable pub checks_of : Text → CheckResult → List CheckResult
checks_of content quotes =
    check_citation_coverage content
    ∷ check_quote_format content
    ∷ quotes
    ∷ check_no_unsourced_numbers content
    ∷ check_no_future_speculation content
    ∷ check_inference_labeling content
    ∷ []

-- The result, and the rows appended to the audit log; `has_db` tells that the enforcer was given a
-- session.
unfoldable pub validate :
    (Text → Option ℕ)
    → QuoteSearch
    → Bool
    → AgentOutput
    → Text
    → Text
    → Raises (ValidationResult × List AuditRow)
unfolding checks_of
validate parse search has_db output tenant_id coverage_id = do
  quotes ← check_quotes_exist_in_rag search output.content
  rows ←
      (if has_db then log_hallucination_events parse output tenant_id coverage_id quotes else ok [])
  ok (verdict (checks_of output.content quotes) output.content, rows)
