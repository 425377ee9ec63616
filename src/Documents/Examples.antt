-- ===== src/Documents/Examples.antt =====
-- Two tenants, a coverage of each, and services whose calls succeed.
use stock_analyst.Shared.{
  ℕ, Text, codes, [], ◌∷◌, ◌++◌, true, false, Option, none, some, any, ◌≡◌, ◌≢◌, refl, arith,
}
use stock_analyst.Http.{answer, ended, refused}
use stock_analyst.Storage.{
  Client, is_object, upload_file, get_presigned_url, delete_file, validate_tenant_path, split_path,
}
use stock_analyst.Storage.Paths.{HasNoSlash, upload_reachable}
use stock_analyst.Ingestion.Rows.{pending, indexed}
use stock_analyst.Documents.{
  Coverage, DocumentRow, World, DocumentServices, get_owned_coverage, get_document, request,
}
use stock_analyst.Documents.Create.{
  Upload, check_length, check_form, create_document, create_document_from_upload,
}
use stock_analyst.Documents.Handlers.{
  delay, enqueue, delete_by_filter, upload_document, delete_document,
}
use stock_analyst.Documents.Tenants.{Unseen}
use stock_analyst.Documents.Owned.{IsConsistent}
use stock_analyst.Documents.Isolation.{delete, perform, perform-Unseen}
use stock_analyst.Documents.Deleted.{IsGone, delete_document-IsGone}

abbrev first_code : Text → Option ℕ
first_code [] = none
first_code (c ∷ _) = some c

abbrev client : Client
client = record {
  put_object = λ b k. none;
  remove_object = λ b k. none;
  presigned_get_object = λ b k. answer (b ++ k);
}

abbrev services : DocumentServices
services = record {
  parse_uuid = first_code;
  show_uuid = λ n. n ∷ [];
  parse_int = λ t. none;
  client = client;
  delete_points = λ d. none;
  send = λ job. answer (codes "c");
  fetch_filing = λ t f y. answer none;
  download = λ f. none;
}

abbrev mine : Coverage
mine = record { id = b'k'; tenant_id = b't'; document_count = 1 }

abbrev theirs : Coverage
theirs = record { id = b'l'; tenant_id = b'o'; document_count = 0 }

abbrev report : DocumentRow
report = record {
  id = b'd';
  coverage_id = b'k';
  tenant_id = b't';
  file_name = codes "a.pdf";
  filing_type = codes "10-K";
  period = codes "FY2023";
  source = codes "upload";
  source_url = none;
  storage_path = codes "stocks-t/raw/k/a.pdf";
  ingest_status = indexed;
}

-- A document that was never counted.
abbrev fresh : DocumentRow
fresh = record report { id = b'e'; ingest_status = pending }

abbrev file : Text × Text
file = (codes "stocks-t", codes "raw/k/a.pdf")

abbrev world : World
world = record {
  rows = record { coverages = mine ∷ theirs ∷ []; documents = report ∷ fresh ∷ []; queue = [] };
  objects = file ∷ [];
  points =
      record { collection = codes "tenant_t"; document_id = codes "d"; tenant_id = codes "t" } ∷ [];
  jobs = [];
}

consistent : IsConsistent world.rows
consistent = record {
  coverages = (refl, (refl, tt));
  documents = ((refl, λ c h. ground arith), ((refl, λ c h. ground arith), tt));
}

perform-Unseen_example :
    Unseen services b't' world (perform services b't' (delete (codes "k") (codes "d")) world)
perform-Unseen_example =
    perform-Unseen services b't' (delete (codes "k") (codes "d")) world (refl, tt) consistent

abbrev after_deletion : World
after_deletion = record {
  rows = record {
    coverages = record mine { document_count = 0 } ∷ theirs ∷ [];
    documents = fresh ∷ [];
    queue = [];
  };
  objects = [];
  points = [];
  jobs = [];
}

deletes : delete_document services b't' (codes "k") (codes "d") world ≡ (answer tt, after_deletion)
unfolding delete_document request get_owned_coverage get_document delete_by_filter delete_file
    validate_tenant_path split_path
deletes = refl

delete_document-IsGone_example :
    (c : Coverage) × (d : DocumentRow) × (get_owned_coverage services (codes "k") b't' world.rows
      ≡ answer c)
    × (get_document services c (codes "d") world.rows ≡ answer d)
    × IsGone services b't' c d world after_deletion
delete_document-IsGone_example =
    delete_document-IsGone services b't' (codes "k") (codes "d") world after_deletion deletes

-- The document that was never counted is counted off all the same, and the object that the two
-- documents of that name share goes with the first of them that is deleted.
counted_off : delete_document services b't' (codes "k") (codes "e") world ≡ (
  answer tt,
  record world {
    rows = record world.rows {
      coverages = record mine { document_count = 0 } ∷ theirs ∷ [];
      documents = report ∷ [];
    };
    objects = [];
  },
)
unfolding delete_document request get_owned_coverage get_document delete_by_filter delete_file
    validate_tenant_path split_path
counted_off = refl

upload_reachable_example :
    (any (is_object (codes "stocks-t", codes "raw/k/a.pdf")) (file ∷ []) ≡ true)
    × (get_presigned_url client (codes "t") (codes "stocks-t/raw/k/a.pdf")
        ≡ answer (codes "stocks-traw/k/a.pdf"))
    × (any
          (is_object (codes "stocks-t", codes "raw/k/a.pdf"))
          (delete_file client (codes "t") (codes "stocks-t/raw/k/a.pdf") (file ∷ [])).1
        ≡ false)
    × ((other : Text)
        → HasNoSlash other
        → other ≢ codes "t"
        → (ended (get_presigned_url client other (codes "stocks-t/raw/k/a.pdf")) ≡ refused)
          × ((delete_file client other (codes "stocks-t/raw/k/a.pdf") (file ∷ [])).1 ≡ file ∷ []))
unfolding upload_file
upload_reachable_example =
    upload_reachable client (codes "t") (codes "k") (codes "raw") (codes "a.pdf")
      (codes "stocks-t/raw/k/a.pdf") [] (file ∷ []) (refl, tt) refl

abbrev second_upload : Upload
second_upload = record {
  content_length = none;
  content_type = codes "multipart/form-data; boundary=x";
  form = record {
    file = some (codes "a.pdf", 10);
    filing_type = some (codes "10-K");
    period = some (codes "FY2024");
    source = none;
  };
  body = record { ticker = none; form_type = none; year = none };
  new_id = b'f';
}

-- An upload of the same name writes over the object of the document before it.
overwritten : (upload_document services b't' (codes "k") second_upload world).1.objects ≡ file ∷ []
unfolding upload_document request get_owned_coverage check_length create_document
    create_document_from_upload check_form upload_file enqueue delay
overwritten = refl
