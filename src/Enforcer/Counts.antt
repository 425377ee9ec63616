-- ===== src/Enforcer/Counts.antt =====
-- The quote check in closed form, where the searches return: what is counted and what is logged.
use stock_analyst.Shared.{
  ℕ, ◌+◌, min, Text, List, [], ◌∷◌, ◌++◌, map, length, take, Bool, true, false, not, ◌&&◌, Option,
  some, refl, ◌≡◌, inl, inr, ap, ◌∙◌, filter_by, ok, arith, strip, >>=-eq-ok, >>=-ok, Bool-cases,
  length-take, if◌then◌else◌, length-append, length-map, ok-injective, suc,
}
use stock_analyst.Shared.Regex.{is_some}
use stock_analyst.Message.{AgentOutput, Citation}
use stock_analyst.Enforcer.Checks.{
  check_citation_coverage, check_quote_format, CheckResult, Item, quoted, quote_exists_in_rag,
}
use stock_analyst.Enforcer.Quotes.{
  QuoteSearch, Sorted, judge, judge_all, citations_of, check_quotes_exist_in_rag, quotes_result,
}
use stock_analyst.Enforcer.Validate.{
  ValidationResult, AuditRow, verdict, checks_of, validate, log_hallucination_events, log_rows,
  events, uuid, Action, hallucination_detected,
}
use mathlib.Core.Path.{ap₂}
use mathlib.Core.List.{append-nil, append_assoc}

regroup :
    (p : Text → Bool) (qs : List Text) (q : Text) (rest : List Text)
    → (qs ++ filter_by p (q ∷ [])) ++ filter_by p rest ≡ qs ++ filter_by p (q ∷ rest)
regroup p qs q rest = elim (Bool-cases (p q)) [
  | inl keep ↦ simp (keep, append_assoc)
  | inr skip ↦ simp (skip, append-nil)
]

module _ {C : Type 0} (exact semantic : Text → Option C) where
  -- Searches that return for every quote.
  abbrev pub total : QuoteSearch
  total = record { Chunk = C; exact = λ q. ok (exact q); semantic = λ q. ok (semantic q) }

  abbrev pub is_missing : Text → Bool
  is_missing q = not (is_some (exact q)) && not (is_some (semantic q))

  abbrev pub is_paraphrase : Text → Bool
  is_paraphrase q = not (is_some (exact q)) && is_some (semantic q)

  abbrev pub stripped_quotes : List Citation → List Text
  stripped_quotes [] = []
  stripped_quotes (c ∷ cs) = strip c.quote ∷ stripped_quotes cs

  judge_lem :
      (q : Text) (s : Sorted)
      → judge total q s
        ≡ ok (record {
          not_found = s.not_found ++ filter_by is_missing (q ∷ []);
          paraphrased = s.paraphrased ++ filter_by is_paraphrase (q ∷ []);
        })
  unfolding judge
  judge_lem q s = ground (arith, append-nil s.not_found, append-nil s.paraphrased)

  judge_all_lem :
      (cs : List Citation) (s : Sorted)
      → judge_all total cs s
        ≡ ok (record {
          not_found = s.not_found ++ filter_by is_missing (stripped_quotes cs);
          paraphrased = s.paraphrased ++ filter_by is_paraphrase (stripped_quotes cs);
        })
  unfolding judge_all
  judge_all_lem [] s = ground (arith, append-nil s.not_found, append-nil s.paraphrased)
  judge_all_lem (c ∷ cs) s = rw (judge_lem (strip c.quote) s) (
      judge_all_lem cs _
      ∙ ap₂
          (λ (nf pp : List Text).
            ok (let t : Sorted = record { not_found = nf; paraphrased = pp } in t))
          (regroup is_missing s.not_found (strip c.quote) (stripped_quotes cs))
          (regroup is_paraphrase s.paraphrased (strip c.quote) (stripped_quotes cs)))

  -- The quote check in closed form.
  pub check_quotes_closed :
      (content : Text)
      → let quotes = stripped_quotes (citations_of content) in
        check_quotes_exist_in_rag total content
        ≡ ok (
            quotes_result total (record {
              not_found = filter_by is_missing quotes;
              paraphrased = filter_by is_paraphrase quotes;
            }))
  unfolding check_quotes_exist_in_rag
  check_quotes_closed content = rw judge_all_lem

length-log_rows :
    (parse : Text → Option ℕ) (output : AgentOutput) (tenant coverage : Text)
    (es : List (Item × Action)) {rows : List AuditRow}
    → log_rows parse output tenant coverage es ≡ ok rows
    → length rows ≡ length es
unfolding log_rows
length-log_rows parse output tenant coverage [] h = ground arith
length-log_rows parse output tenant coverage ((item, action) ∷ es) h =
    let (t, _, after_t) = >>=-eq-ok (uuid parse tenant) _ h in
    let (c, _, after_c) = >>=-eq-ok (uuid parse coverage) _ after_t in
    let (rest, logged, done) = >>=-eq-ok (log_rows parse output tenant coverage es) _ after_c in
    rw (← ok-injective _ _ done) (ap suc (length-log_rows parse output tenant coverage es logged))

verdict_counts :
    (content : Text) (quotes : CheckResult)
    → quotes.check_name ≡ quote_exists_in_rag
    → let r = verdict (checks_of content quotes) content in
      (r.hallucination_count ≡ length quotes.failed_items)
      × (r.paraphrase_warnings ≡ quotes.paraphrase_items)
unfolding verdict checks_of check_citation_coverage check_quote_format
verdict_counts content quotes h = ground arith

length-events :
    (parse : Text → Option ℕ) (c : CheckResult)
    → length (events parse c) ≡ length c.failed_items + length c.paraphrase_items
length-events parse c =
    length-append (map (λ i. (i, hallucination_detected)) c.failed_items) _
    ∙ ap₂ (λ (a b : ℕ). a + b) (length-map _ c.failed_items) (length-map _ c.paraphrase_items)

length-take_five :
    (qs : List Text) → length (take 5 (map (λ q. quoted (take 60 q)) qs)) ≡ min 5 (length qs)
length-take_five qs = length-take 5 _ ∙ ap (λ (n : ℕ). min 5 n) (length-map _ qs)

-- What one successful validation logs.
logged_rows :
    (parse : Text → Option ℕ) (has_db : Bool) (output : AgentOutput) (tenant coverage : Text)
    (quotes : CheckResult) {rows : List AuditRow}
    → (if has_db then log_hallucination_events parse output tenant coverage quotes else ok [])
      ≡ ok rows
    → length rows
      ≡ (if has_db then length quotes.failed_items + length quotes.paraphrase_items else 0)
unfolding log_hallucination_events
logged_rows parse true output tenant coverage quotes h =
    length-log_rows parse output tenant coverage (events parse quotes) h
    ∙ length-events parse quotes
logged_rows parse false output tenant coverage quotes h = rw (← ok-injective _ _ h)

uuid_returns : (parse : Text → Option ℕ) (s : Text) {n : ℕ} → parse s ≡ some n → uuid parse s ≡ ok n
uuid_returns parse s h = rw (uuid, h) refl

log_rows_returns :
    (parse : Text → Option ℕ) (output : AgentOutput) (tenant coverage : Text) {t c : ℕ}
    → parse tenant ≡ some t
    → parse coverage ≡ some c
    → (es : List (Item × Action))
    → (rows : List AuditRow) × (log_rows parse output tenant coverage es ≡ ok rows)
unfolding log_rows
log_rows_returns parse output tenant coverage ht hc [] = ([], refl)
log_rows_returns parse output tenant coverage {t} {c} ht hc ((item, action) ∷ es) =
    let (rows, logged) = log_rows_returns parse output tenant coverage ht hc es in
    let row : AuditRow = record {
      tenant = t;
      coverage = c;
      agent = output.agent;
      action = action;
      output_id = parse output.message_id;
      quote = item;
    } in
    (
      row ∷ rows,
      >>=-ok (uuid parse tenant) _ (uuid_returns parse tenant ht)
          ∙ >>=-ok (uuid parse coverage) _ (uuid_returns parse coverage hc)
          ∙ >>=-ok (log_rows parse output tenant coverage es) _ logged,
    )

logging_returns :
    (parse : Text → Option ℕ) (has_db : Bool) (output : AgentOutput) (tenant coverage : Text)
    (quotes : CheckResult) {t c : ℕ}
    → parse tenant ≡ some t
    → parse coverage ≡ some c
    → (rows : List AuditRow) × ((if has_db
          then log_hallucination_events parse output tenant coverage quotes
          else ok [])
        ≡ ok rows)
unfolding log_hallucination_events
logging_returns parse true output tenant coverage quotes ht hc =
    log_rows_returns parse output tenant coverage ht hc (events parse quotes)
logging_returns parse false output tenant coverage quotes ht hc = ([], refl)

-- The validation returns, with these counts.
pub record Counts {C : Type 0} (exact semantic : Text → Option C) (parse : Text → Option ℕ)
    (has_db : Bool) (output : AgentOutput) (tenant coverage : Text) : Type 0 where
  pub result : ValidationResult
  pub rows : List AuditRow
  pub returned :
      validate parse (total exact semantic) has_db output tenant coverage ≡ ok (result, rows)
  pub missing :
      result.hallucination_count
      ≡ min 5 (
          length (
            filter_by
              (is_missing exact semantic)
              (stripped_quotes exact semantic (citations_of output.content))))
  pub near :
      length result.paraphrase_warnings
      ≡ min 5 (
          length (
            filter_by
              (is_paraphrase exact semantic)
              (stripped_quotes exact semantic (citations_of output.content))))
  pub logged :
      length rows
      ≡ (if has_db then result.hallucination_count + length result.paraphrase_warnings else 0)

-- Where the searches return for every quote and both identifiers are UUIDs, the validation
-- returns. Its `hallucination_count` is the number of citations whose quote neither search finds,
-- or five if there are more; its paraphrase warnings are as many as the citations whose quote only
-- the semantic search finds, or five; the audit log receives one row for each counted
-- hallucination and each warning, and none without a session.
pub hallucination_count_lem :
    {C : Type 0} (exact semantic : Text → Option C) (parse : Text → Option ℕ) (has_db : Bool)
    (output : AgentOutput) (tenant coverage : Text) {t c : ℕ}
    → parse tenant ≡ some t
    → parse coverage ≡ some c
    → Counts exact semantic parse has_db output tenant coverage
unfolding validate
hallucination_count_lem exact semantic parse has_db output tenant coverage ht hc =
    let search = total exact semantic in
    let closed = check_quotes_closed exact semantic output.content in
    let quotes = quotes_result search (record {
      not_found =
          filter_by (is_missing exact semantic)
            (stripped_quotes exact semantic (citations_of output.content));
      paraphrased =
          filter_by (is_paraphrase exact semantic)
            (stripped_quotes exact semantic (citations_of output.content));
    }) in
    let (rows, appended) = logging_returns parse has_db output tenant coverage quotes ht hc in
    let (count, warned) = verdict_counts output.content quotes refl in
    let logged = logged_rows parse has_db output tenant coverage quotes appended in
    record {
      result = verdict (checks_of output.content quotes) output.content;
      rows = rows;
      returned =
          >>=-ok (check_quotes_exist_in_rag search output.content) _ closed ∙ >>=-ok _ _ appended;
      missing = count ∙ length-take_five _;
      near = ap length warned ∙ length-take_five _;
      logged = logged ∙ rw (count, warned) refl;
    }
