-- ===== src/Contracts/Ingestion.antt =====
-- src/contract_intelligence/application/services/ingestion_service.py. The storage, Reducto,
-- publisher and driver ports are functions that may raise; ids and the time are arguments; log lines are left out.
pub mod Frame
pub mod Commit
pub mod Outcome
use estate_os_service.Base.{
  ℕ, ◌+◌, Uuid, Time, String, Bool, not, Option, none, some, List, [], ◌∷◌, ◌++◌, length,
  if◌then◌else◌,
}
use estate_os_service.Exec.{Result, ok, err, Exec, pure, raise, or_raise, ◌>>=◌, ◌>>◌}
use estate_os_service.Uow.{Session, in_uow, write}
use estate_os_service.Dict.{lookup}
use estate_os_service.Json.{Json, null, obj, get}
use estate_os_service.Contracts.Status.{
  Error, document_not_found, attribute_error, UploadStatus, uploaded, upload_eq,
}
use estate_os_service.Contracts.Runs.{SourceParseRun}
use estate_os_service.Contracts.Runs.Parse
use estate_os_service.Contracts.Review.{ParsedSection}
use estate_os_service.Contracts.Review.Section
use estate_os_service.Contracts.Document
use estate_os_service.Contracts.Document.{SourceDocument}
use estate_os_service.Contracts.Store.{
  Command, World, Query, Service, Step, get_by_id, load, set_page_count, update_or_raise,
  add_parse_run, set_parse_run, add_section, lift, on_run, on_document, update, commit_work,
  save_status, draw, attempt, working_on,
}

-- The fields of `PipelineResult` that the service reads.
pub record PipelineResult : Type 0 where
  pub job_id : String
  pub parse_response_json : Json
  pub sections : List ParsedSection

-- `storage_key` is `url.replace(f"s3://{bucket}/", "")`.
pub record Ports : Type 0 where
  pub storage_key : String → String
  pub download : String → Result Error String
  pub upload_file : String → String → Result Error String
  pub get_presigned_url : String → Result Error String
  pub run_pipeline : String → Result Error PipelineResult
  -- what the database driver makes of a value for an Integer column, or its refusal
  pub integer : Json → Result Error ℕ
  -- `command_publisher.send`, to the analysis queue
  pub send : Command → Result Error (Unit {0})

-- Whether an endpoint URL is configured, and whether a publisher and its queue are.
pub record Config : Type 0 where
  pub has_endpoint : Bool
  pub can_publish : Bool

pub record IngestResult : Type 0 where
  pub parse_run_id : Option Uuid
  pub sections_created : ℕ

pub data BlockResult : Type 0 where
  skipped : BlockResult
  complete : IngestResult → BlockResult

-- "Determine Reducto input based on environment"
unfoldable pub document_input : Config → Ports → SourceDocument → Result Error String
document_input c p d =
    if c.has_endpoint
    then elim (p.download (p.storage_key d.storage_url)) [
      | ok content ↦ p.upload_file content d.filename
      | err e ↦ err e
    ]
    else p.get_presigned_url (p.storage_key d.storage_url)

abbrev pub usage_pages : Option Json → Result Error (Option Json)
usage_pages none = ok none
usage_pages (some (obj usage)) = ok (get "num_pages" usage)
usage_pages (some other) = err attribute_error

abbrev pub drop_null : Option Json → Option Json
drop_null none = none
drop_null (some null) = none
drop_null (some v) = some v

-- `parse_response_json.get("usage", {}).get("num_pages")`; a JSON null reads as None.
unfoldable pub reported_pages : Json → Result Error (Option Json)
reported_pages (obj response) = elim (usage_pages (get "usage" response)) [
  | ok n ↦ ok (drop_null n)
  | err e ↦ err e
]
reported_pages other = err attribute_error

-- "Create sections from parsed chunks"
unfoldable pub save_sections :
    (ℕ → Uuid) → Time → List ParsedSection → Step SourceParseRun (Unit {0})
save_sections ids now [] = pure tt
save_sections ids now (p ∷ ps) = do
  fresh ← draw ids
  update (λ w. add_section (Section.from_parsed w.document.id p fresh) now)
  save_sections ids now ps

-- `if page_count is not None: …`
unfoldable pub backfill_pages : Ports → Option Json → Step SourceParseRun (Unit {0})
backfill_pages p none = pure tt
backfill_pages p (some n) = do
  on_document (λ d. ok (Document.record_page_count n d))
  update_or_raise
      (λ w t. set_page_count (p.integer n) (lookup w.document.id t.documents) w.document.id t)

abbrev pub save_run : Step SourceParseRun (Unit {0})
save_run = update (λ w t. set_parse_run w.run (lookup w.run.id t.parse_runs) t)

-- "Mark document as parsed", the commit, and the result.
unfoldable pub finish_ingest : ℕ → Step SourceParseRun IngestResult
finish_ingest sections_created = do
  on_document Document.mark_parsed
  save_status
  commit_work
  λ w. (ok (record { parse_run_id = some w.run.id; sections_created = sections_created }), w)

-- The `try` block, after Reducto has answered.
unfoldable pub store_result :
    Ports → (ℕ → Uuid) → Time → PipelineResult → Step SourceParseRun IngestResult
unfolding backfill_pages reported_pages finish_ingest
store_result p ids now result = do
  on_run (Parse.mark_succeeded now (some result.job_id) (some result.parse_response_json))
  save_run
  save_sections ids now result.sections
  page_count ← lift (reported_pages result.parse_response_json)
  backfill_pages p page_count
  finish_ingest (length result.sections)

unfoldable pub try_ingest :
    Config → Ports → (ℕ → Uuid) → Time → SourceDocument → Step SourceParseRun IngestResult
unfolding document_input store_result
try_ingest c p ids now d = do
  input ← lift (document_input c p d)
  result ← lift (p.run_pipeline input)
  store_result p ids now result

-- The `except` block, which raises again.
unfoldable pub fail_ingest : Time → Error → Step SourceParseRun IngestResult
fail_ingest now e = do
  on_run (Parse.mark_failed now)
  save_run
  on_document Document.mark_failed
  save_status
  commit_work
  raise e

unfoldable pub start_run :
    Config → Ports → Uuid → (ℕ → Uuid) → Time → SourceDocument → Query BlockResult
unfolding try_ingest fail_ingest
start_run c p run_id ids now d = do
  run ← λ s. (Parse.start d.id run_id, s)
  write (add_parse_run run now)
  done ←
      working_on (record run { created_at = some now }) d
        (attempt (try_ingest c p ids now d) (fail_ingest now))
  pure (complete done)

unfoldable pub ingest_block : Config → Ports → Uuid → Uuid → (ℕ → Uuid) → Time → Query BlockResult
unfolding start_run
ingest_block c p document_id run_id ids now = do
  found ← get_by_id document_id
  d ← or_raise found (document_not_found document_id)
  if upload_eq d.upload_status uploaded then start_run c p run_id ids now d else pure skipped

abbrev pub analysis_requested : Uuid → Command
analysis_requested id = record { event_type = "DOCUMENT_ANALYSIS_REQUESTED.v1"; document_id = id }

-- A send that raises ends the call, after the commit.
abbrev pub after_send :
    {A : Type 0} → A → Command → Result Error (Unit {0}) → World → Result Error A × World
after_send a c (ok u) w = (ok a, record w { commands = w.commands ++ c ∷ [] })
after_send a c (err e) w = (err e, w)

-- After the block: the analysis command is sent only for a document that was ingested.
unfoldable pub publish_analysis :
    Config → Ports → Uuid → BlockResult → World → Result Error IngestResult × World
publish_analysis c p id skipped w = (ok (record { parse_run_id = none; sections_created = 0 }), w)
publish_analysis c p id (complete r) w =
    let sent = after_send r (analysis_requested id) (p.send (analysis_requested id)) w in
    if c.can_publish then sent else (ok r, w)

-- `IngestionService.ingest`
unfoldable pub ingest : Config → Ports → Uuid → Uuid → (ℕ → Uuid) → Time → Service IngestResult
unfolding ingest_block publish_analysis
ingest c p document_id run_id ids now w =
    let (r, t) = in_uow (ingest_block c p document_id run_id ids now) w.tables in
    elim r [
      | ok out ↦ publish_analysis c p document_id out (record w { tables = t })
      | err e ↦ (err e, record w { tables = t })
    ]
