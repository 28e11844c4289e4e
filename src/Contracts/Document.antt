-- ===== src/Contracts/Document.antt =====
-- `SourceDocument` of src/contract_intelligence/domain/entities/source_document.py.
use estate_os_service.Base.{Uuid, Time, String, Option, none, some, List, []}
use estate_os_service.Exec.{Result}
use estate_os_service.Json.{Json}
use estate_os_service.Contracts.Status.{
  Error, UploadStatus, uploaded, parsed, extracted, analyzed, failed, upload_eq, upload_transitions,
  validate_transition, ◌then_set◌,
}
use estate_os_service.Contracts.Runs.{SourceParseRun, SourceExtractionRun, SourceSectionAnalysisRun}
use estate_os_service.Contracts.Review.{SourceSection}

-- `page_count` is the JSON value that the parser reported, which the code does not inspect.
pub record SourceDocument : Type 0 where
  pub id : Uuid
  pub filename : String
  pub storage_url : String
  pub mime_type : String
  pub document_hash : String
  pub organization_id : Option Uuid
  pub page_count : Option Json
  pub language_code : Option String
  pub upload_status : UploadStatus
  pub created_at : Option Time
  pub parse_runs : List SourceParseRun
  pub sections : List SourceSection
  pub extraction_runs : List SourceExtractionRun
  pub analysis_runs : List SourceSectionAnalysisRun

-- `SourceDocument.create`, with the id already chosen.
unfoldable pub create : String → String → String → String → Uuid → Option Uuid → SourceDocument
create filename storage_url mime_type document_hash id organization_id = record {
  id = id;
  filename = filename;
  storage_url = storage_url;
  mime_type = mime_type;
  document_hash = document_hash;
  organization_id = organization_id;
  page_count = none;
  language_code = none;
  upload_status = uploaded;
  created_at = none;
  parse_runs = [];
  sections = [];
  extraction_runs = [];
  analysis_runs = [];
}

abbrev move_to : UploadStatus → SourceDocument → Result Error SourceDocument
move_to target d =
    validate_transition upload_eq d.upload_status target upload_transitions "SourceDocument"
    then_set record d { upload_status = target }

unfoldable pub mark_parsed : SourceDocument → Result Error SourceDocument
unfolding upload_transitions
mark_parsed = move_to parsed

unfoldable pub mark_extracted : SourceDocument → Result Error SourceDocument
unfolding upload_transitions
mark_extracted = move_to extracted

unfoldable pub mark_analyzed : SourceDocument → Result Error SourceDocument
unfolding upload_transitions
mark_analyzed = move_to analyzed

unfoldable pub mark_failed : SourceDocument → Result Error SourceDocument
unfolding upload_transitions
mark_failed = move_to failed

-- "Reset a FAILED document back to UPLOADED so it can be re-ingested."
unfoldable pub retry : SourceDocument → Result Error SourceDocument
unfolding upload_transitions
retry = move_to uploaded

unfoldable pub record_page_count : Json → SourceDocument → SourceDocument
record_page_count count d = record d { page_count = some count }
