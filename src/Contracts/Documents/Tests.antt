-- ===== src/Contracts/Documents/Tests.antt =====
-- The theorems on uploads and retries at one failed document and a storage that always answers.
use estate_os_service.Base.{ℕ, ◌+◌, Uuid, ◌≡◌, refl, true, false, some, [], ◌∷◌, arith}
use estate_os_service.Exec.{ok}
use estate_os_service.Dict.{lookup}
use estate_os_service.Json.{num, obj, end, field}
use estate_os_service.Contracts.Status.{UploadStatus, uploaded, parsed}
use estate_os_service.Contracts.Document.{SourceDocument}
use estate_os_service.Contracts.Store.{World, load_lists}
use estate_os_service.Contracts.Ingestion as Ingestion
use estate_os_service.Contracts.Ingestion.{
  Config, PipelineResult, document_input, reported_pages, ingest,
}
use estate_os_service.Contracts.Ingestion.Frame.{with_pages}
use estate_os_service.Contracts.Documents.{
  Shelf, Upload, Ports, upload_source_document, retry_document,
}
use estate_os_service.Contracts.Documents.Outcome.{
  AreDistinct, uploaded_document, upload-AreDistinct, retry_then_ingest,
}

abbrev ports : Ports
ports = record {
  sha256 = λ content. content;
  storage_key = λ org id name. name;
  upload = λ key content. ok "s3://b/a.pdf";
  send = λ command. ok tt;
}

abbrev file : Upload
file = record { content = "pdf"; filename = "a.pdf"; content_type = "application/pdf" }

abbrev world : World
world = record {
  tables = record {
    documents = [];
    parse_runs = [];
    sections = [];
    analysis_runs = [];
    analyses = [];
    references = [];
  };
  commands = [];
}

abbrev stored : SourceDocument
stored = uploaded_document ports file 9 1 5 "s3://b/a.pdf"

abbrev world_of : SourceDocument → World
world_of d = record world { tables = record world.tables { documents = (1, d) ∷ [] } }

abbrev shelf : World → Shelf
shelf w = record { world = w; files = [] }

none-AreDistinct : AreDistinct (shelf world).world.tables.documents
none-AreDistinct = record { one_row = λ h. ground arith }

upload-AreDistinct_example :
    AreDistinct (upload_source_document ports file 9 1 5 (shelf world)).1.world.tables.documents
upload-AreDistinct_example = upload-AreDistinct ports file 9 1 5 (shelf world) none-AreDistinct refl

abbrev broken : SourceDocument
broken = record stored { upload_status = UploadStatus.failed }

abbrev config : Config
config = record { has_endpoint = false; can_publish = true }

abbrev answer : PipelineResult
answer = record {
  job_id = "job";
  parse_response_json = obj (field "usage" (obj (field "num_pages" (num 3) end)) end);
  sections = [];
}

abbrev parser : Ingestion.Ports
parser = record {
  storage_key = λ url. "a.pdf";
  download = λ key. ok "content";
  upload_file = λ content name. ok "reducto://a";
  get_presigned_url = λ key. ok "https://b/a.pdf";
  run_pipeline = λ input. ok answer;
  integer = λ n. ok 3;
  send = λ command. ok tt;
}

abbrev ids : ℕ → Uuid
ids n = 100 + n

retry_then_ingest_example :
    let again : SourceDocument = record broken { upload_status = uploaded } in
    let (retried, w') = retry_document ports 1 (world_of broken) in
    let (r, w'') = ingest config parser 1 50 ids 9 w' in
    (retried ≡ ok (load_lists (world_of broken).tables again))
    × (r ≡ ok (record { parse_run_id = some 50; sections_created = 0 }))
    × (lookup 1 w''.tables.documents
        ≡ some (record (with_pages (some 3) again) { upload_status = parsed }))
unfolding document_input reported_pages
retry_then_ingest_example =
    retry_then_ingest ports config parser 1 50 ids 9 (world_of broken) broken answer (some (num 3))
      (some 3) refl refl refl refl refl refl refl refl
