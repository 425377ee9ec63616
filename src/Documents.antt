-- ===== src/Documents.antt =====
-- The documents of a coverage: the handlers of apps/api/routers/documents.py over the rows of the
-- database, the objects of the storage, the points of the index and the tasks sent to the workers.
-- A request that is not answered leaves the rows as they were, since its transaction is rolled back
-- (apps/api/db.py); what it did outside the database stays.
pub mod Create
pub mod Handlers
pub mod Filters
pub mod Tenants
pub mod Calls
pub mod Owned
pub mod Isolation
pub mod Deleted
mod Examples
use stock_analyst.Shared.{
  ℕ, ◌-◌, Text, codes, List, [], ◌∷◌, ◌++◌, map, Bool, true, false, ◌&&◌, not, Option, none, some,
  ◌==◌, find_first, filter_by, same_text, if◌then◌else◌,
}
use stock_analyst.Http.{Reply, answer, problem, crashed}
use stock_analyst.Storage.{Client}
use stock_analyst.Ingestion.Rows.{IngestStatus}

-- A row of `coverages`, as far as these handlers read it.
pub record Coverage : Type 0 where
  pub id : ℕ
  pub tenant_id : ℕ
  pub document_count : ℕ

-- A row of `documents`.
pub record DocumentRow : Type 0 where
  pub id : ℕ
  pub coverage_id : ℕ
  pub tenant_id : ℕ
  pub file_name : Text
  pub filing_type : Text
  pub period : Text
  pub source : Text
  pub source_url : Option Text
  pub storage_path : Text
  pub ingest_status : IngestStatus

-- A row of `task_queue`.
pub record QueueRow : Type 0 where
  pub tenant_id : ℕ
  pub coverage_id : ℕ
  pub task_type : Text
  pub celery_task_id : Text

pub record Rows : Type 0 where
  pub coverages : List Coverage
  pub documents : List DocumentRow
  pub queue : List QueueRow

-- The arguments of `ingest_document_task.delay`.
pub record Job : Type 0 where
  pub document_id : Text
  pub coverage_id : Text
  pub tenant_id : Text

-- A point of the index, by what a deletion selects it.
pub record IndexPoint : Type 0 where
  pub collection : Text
  pub document_id : Text
  pub tenant_id : Text

pub record World : Type 0 where
  pub rows : Rows
  pub objects : List (Text × Text)
  pub points : List IndexPoint
  pub jobs : List Job

-- A filing that the connector to SEC EDGAR found.
pub record Filing : Type 0 where
  pub accession_number : Text
  pub period_of_report : Text
  pub primary_document_url : Text

-- What the handlers call: `uuid.UUID`, `str` and `int`, the client of the storage, the index (how a
-- deletion fails), Celery (the identifier of the task), the search for a filing and its download.
pub record DocumentServices : Type 0 where
  pub parse_uuid : Text → Option ℕ
  pub show_uuid : ℕ → Text
  pub parse_int : Text → Option ℕ
  pub client : Client
  pub delete_points : Text → Option Text
  pub send : Job → Reply Text
  pub fetch_filing : Text → Text → ℕ → Reply (Option Filing)
  pub download : Filing → Option Text

-- A handler: its reply, and the world that it leaves.
abbrev pub M : Type 0 → Type 0
M A = World → Reply A × World

abbrev pub then_run : {A B : Type 0} → Reply A × World → (A → M B) → Reply B × World
then_run (answer a, w) k = k a w
then_run (problem status detail, w) k = (problem status detail, w)
then_run (crashed detail, w) k = (crashed detail, w)

infixl 5 ◌>>=◌
abbrev pub ◌>>=◌ : {A B : Type 0} → M A → (A → M B) → M B
◌>>=◌ m k w = then_run (m w) k

abbrev pub reply : {A : Type 0} → Reply A → M A
reply r w = (r, w)

abbrev pub read : {A : Type 0} → (Rows → Reply A) → M A
read f w = (f w.rows, w)

abbrev pub change : (World → World) → M (Unit {0})
change f w = (answer tt, f w)

-- The calls of the storage.
abbrev pub store : {A : Type 0} → (List (Text × Text) → Reply A × List (Text × Text)) → M A
store f w = let r = f w.objects in (r.0, record w { objects = r.1 })

abbrev pub not_found : {A : Type 0} → Text → Reply A
not_found what = problem 404 (what ++ codes " not found")

abbrev pub find_coverage : ℕ → Rows → Option Coverage
find_coverage id rows = find_first (λ (c : Coverage). c.id == id) rows.coverages

abbrev pub find_document_row : ℕ → Rows → Option DocumentRow
find_document_row id rows = find_first (λ (d : DocumentRow). d.id == id) rows.documents

module _ (s : DocumentServices) where
  -- `_get_owned_coverage`
  unfoldable pub get_owned_coverage : Text → ℕ → Rows → Reply Coverage
  get_owned_coverage coverage_id tenant_id rows = elim (s.parse_uuid coverage_id) [
    | none ↦ not_found (codes "Coverage")
    | some id ↦ elim (find_coverage id rows) [
      | none ↦ not_found (codes "Coverage")
      | some c ↦ if c.tenant_id == tenant_id then answer c else not_found (codes "Coverage")
    ]
  ]

  -- The lookup that the handlers of one document share.
  unfoldable pub get_document : Coverage → Text → Rows → Reply DocumentRow
  get_document coverage document_id rows = elim (s.parse_uuid document_id) [
    | none ↦ not_found (codes "Document")
    | some id ↦ elim (find_document_row id rows) [
      | none ↦ not_found (codes "Document")
      | some d ↦ if d.coverage_id == coverage.id then answer d else not_found (codes "Document")
    ]
  ]

-- The end of a request: the rows are committed only if it was answered.
abbrev pub committed : {A : Type 0} → Rows → Reply A × World → Reply A × World
committed before (answer a, w) = (answer a, w)
committed before (problem status detail, w) = (problem status detail, record w { rows = before })
committed before (crashed detail, w) = (crashed detail, record w { rows = before })

unfoldable pub request : {A : Type 0} → M A → M A
request m w = committed w.rows (m w)
