-- ===== src/Documents/Create.antt =====
-- How `upload_document` makes a row: from the file of a form, or from a filing of SEC EDGAR.
use stock_analyst.Shared.{
  ℕ, suc, ◌*◌, Text, codes, [], ◌∷◌, ◌++◌, Option, none, some, ltb, ◌==◌, is_empty, starts_with,
  drop, rfind_char, if◌then◌else◌,
}
use stock_analyst.Http.{Reply, answer, problem, crashed}
use stock_analyst.Storage.{upload_file}
use stock_analyst.Ingestion.Rows.{pending}
use stock_analyst.Documents.{
  Coverage, DocumentRow, Filing, DocumentServices, M, ◌>>=◌, reply, change, store,
}

-- `_MAX_UPLOAD_BYTES`
abbrev pub max_upload_bytes : ℕ
max_upload_bytes = 100 * 1024 * 1024

-- The fields of a multipart form; the content of its file, by its length.
pub record Form : Type 0 where
  pub file : Option (Text × ℕ)
  pub filing_type : Option Text
  pub period : Option Text
  pub source : Option Text

-- The JSON body that names a filing.
pub record SecBody : Type 0 where
  pub ticker : Option Text
  pub form_type : Option Text
  pub year : Option ℕ

-- A request for a new document, with the identifier that `uuid.uuid4` gives it.
pub record Upload : Type 0 where
  pub content_length : Option Text
  pub content_type : Text
  pub form : Form
  pub body : SecBody
  pub new_id : ℕ

-- The value of a field that is neither missing nor empty.
abbrev pub filled : Option Text → Option Text
filled none = none
filled (some t) = if is_empty t then none else some t

abbrev pub filled_year : Option ℕ → Option ℕ
filled_year none = none
filled_year (some y) = if y == 0 then none else some y

abbrev pub text_or : Text → Option Text → Text
text_or d none = d
text_or d (some t) = t

abbrev too_large : {A : Type 0} → Reply A
too_large = problem 413 (codes "File exceeds the 100MB upload limit")

-- `rsplit("/", 1)[-1]`
abbrev pub last_part : Text → Text
last_part path = elim (rfind_char b'/' path) [ none ↦ path | some i ↦ drop (suc i) path ]

module _ (s : DocumentServices) where
  -- The limit of the header.
  unfoldable pub check_length : Option Text → Reply (Unit {0})
  check_length header = elim (filled header) [
    | none ↦ answer tt
    | some t ↦ elim (s.parse_int t) [
      | none ↦ crashed (codes "invalid literal for int()")
      | some n ↦ if ltb max_upload_bytes n then too_large else answer tt
    ]
  ]

  -- `db.add(document)`
  abbrev pub add_document : DocumentRow → M (Unit {0})
  add_document d =
      change λ w. record w { rows = record w.rows { documents = w.rows.documents ++ (d ∷ []) } }

  -- The checks of the form: the name and length of the file, the type and the period.
  unfoldable pub check_form : Form → Reply (Text × ℕ × Text × Text)
  check_form form = elim form.file [
    | none ↦ problem 422 (codes "file field is required")
    | some (name, bytes) ↦ elim (filled form.filing_type) [
      | none ↦ problem 422 (codes "filing_type and period are required")
      | some kind ↦ elim (filled form.period) [
        | none ↦ problem 422 (codes "filing_type and period are required")
        | some period ↦
            if ltb max_upload_bytes bytes then too_large else answer (name, bytes, kind, period)
      ]
    ]
  ]

  -- `_create_document_from_upload`
  unfoldable pub create_document_from_upload : Upload → Coverage → ℕ → M DocumentRow
  create_document_from_upload u coverage tenant = do
    (name, _, kind, period) ← reply (check_form u.form)
    path ←
        store
          (upload_file s.client (s.show_uuid tenant) (s.show_uuid coverage.id) (codes "raw") name)
    let document : DocumentRow = record {
      id = u.new_id;
      coverage_id = coverage.id;
      tenant_id = tenant;
      file_name = name;
      filing_type = kind;
      period = period;
      source = text_or (codes "upload") (filled u.form.source);
      source_url = none;
      storage_path = path;
      ingest_status = pending;
    }
    _ ← add_document document
    reply (answer document)

  -- The end of a download: a failed one is a result without a path.
  abbrev pub fetched : Filing → Text → Text → Option Text → M (Option Text × Text)
  fetched filing tenant_id coverage_id (some e) = reply (answer (none, e))
  fetched filing tenant_id coverage_id none = do
    path ← store (
        upload_file s.client tenant_id coverage_id (codes "raw")
          (filing.accession_number ++ codes ".pdf"))
    reply (answer (some path, []))

  -- `SECEdgarConnector.download_to_minio`
  unfoldable pub download_to_minio : Filing → Text → Text → M (Option Text × Text)
  download_to_minio filing tenant_id coverage_id =
      fetched filing tenant_id coverage_id (s.download filing)

  -- The checks of the JSON body.
  unfoldable pub check_body : SecBody → Reply (Text × Text × ℕ)
  check_body body = elim (filled body.ticker) [
    | none ↦ problem 422 (codes "ticker, form_type, and year are required")
    | some ticker ↦ elim (filled body.form_type) [
      | none ↦ problem 422 (codes "ticker, form_type, and year are required")
      | some form_type ↦ elim (filled_year body.year) [
        | none ↦ problem 422 (codes "ticker, form_type, and year are required")
        | some year ↦ answer (ticker, form_type, year)
      ]
    ]
  ]

  abbrev pub found_filing : Option Filing → Reply Filing
  found_filing none = problem 404 (codes "No filing found")
  found_filing (some f) = answer f

  abbrev pub downloaded : Option Text × Text → Reply Text
  downloaded (none, e) = problem 502 (codes "Failed to download filing from SEC EDGAR: " ++ e)
  downloaded (some path, _) = answer path

  -- `_create_document_from_sec_fetch`
  unfoldable pub create_document_from_sec_fetch : Upload → Coverage → ℕ → M DocumentRow
  create_document_from_sec_fetch u coverage tenant = do
    (ticker, form_type, year) ← reply (check_body u.body)
    hit ← reply (s.fetch_filing ticker form_type year)
    filing ← reply (found_filing hit)
    result ← download_to_minio filing (s.show_uuid tenant) (s.show_uuid coverage.id)
    path ← reply (downloaded result)
    let document : DocumentRow = record {
      id = u.new_id;
      coverage_id = coverage.id;
      tenant_id = tenant;
      file_name = last_part path;
      filing_type = form_type;
      period = filing.period_of_report;
      source = codes "sec_edgar";
      source_url = some filing.primary_document_url;
      storage_path = path;
      ingest_status = pending;
    }
    _ ← add_document document
    reply (answer document)

  -- The branch on the content type.
  unfoldable pub create_document : Upload → Coverage → ℕ → M DocumentRow
  create_document u coverage tenant =
      if starts_with u.content_type (codes "multipart/form-data")
      then create_document_from_upload u coverage tenant
      else if starts_with u.content_type (codes "application/json")
      then create_document_from_sec_fetch u coverage tenant
      else reply (problem 415 (codes "Unsupported Media Type"))
