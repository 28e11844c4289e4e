-- ===== src/Contracts/Tests.antt =====
-- The contract_intelligence theorems at a concrete document 1 of one section, run 50.
mod History
use estate_os_service.Base.{
  ℕ, ◌+◌, ◌≤◌, Uuid, ◌≡◌, ◌≢◌, refl, true, false, none, some, [], ◌∷◌, arith,
}
use estate_os_service.Exec.{Result, ok, err}
use estate_os_service.Dict.{lookup}
use estate_os_service.Json.{Json, null, num, obj, end, field}
use estate_os_service.Contracts.Status.{
  Error, ReviewStatus, invalid_transition, port_error, attribute_error, UploadStatus, uploaded,
  parsed, RunStatus, TemplateStatus, GeneratedContractStatus, reviewed, signed,
}
use estate_os_service.Contracts.Runs.{SourceParseRun}
use estate_os_service.Contracts.Review.{
  ParsedSection, SourceSection, RiskLevel, SectionType, RecommendedStrategy,
}
use estate_os_service.Contracts.Document
use estate_os_service.Contracts.Document.{SourceDocument}
use estate_os_service.Contracts.Template.{TemplateVersion}
use estate_os_service.Contracts.Generated
use estate_os_service.Contracts.Generated.{GeneratedContract}
use estate_os_service.Contracts.Store.{World, load_lists}
use estate_os_service.Contracts.Ingestion.{
  Config, Ports, PipelineResult, document_input, reported_pages, ingest,
}
use estate_os_service.Contracts.Ingestion.Frame.{running_run, with_pages}
use estate_os_service.Contracts.Ingestion.Outcome.{
  ingest_failure_stored, ingest_late_failure_lost, ingest_command_lost,
}
use estate_os_service.Contracts.Analysis.{SectionAnalysisOutput, analyze}
use estate_os_service.Contracts.Analysis.Outcome.{
  running_run as running_analysis, analyze_results_lost, analyze_failure_stored,
  analyze_never_completes,
}
use estate_os_service.Contracts.Calls.{
  run_starts, run_succeeds, run_fails, call_parse, is_parsed, is_analyzed, is_failed, is_retried,
  call_document, submits, approves, sends_back, call_version, generates, reviews, signs,
  stores_away, call_contract, after,
}
use estate_os_service.Contracts.Lifecycle.{
  settled_run_final, IsTimed, completed_exactly-IsTimed, IsSignedOff, released_exactly-IsSignedOff,
  returned, contract_calls_bounded, signed_then_archived, is_unextracted, analysis_needs_extraction,
}

abbrev document_in : UploadStatus → SourceDocument
document_in st = record (Document.create "a.pdf" "s3://b/a.pdf" "application/pdf" "h" 1 none) {
  upload_status = st;
}

abbrev parsed_section : ParsedSection
parsed_section = record {
  sort_order = 0;
  title = some "Parties";
  page_start = some 1;
  page_end = some 1;
  content = "Between";
}

abbrev section : SourceSection
section = record {
  id = 30;
  source_document_id = 1;
  sort_order = 0;
  section_key = none;
  title = some "Parties";
  page_start = some 1;
  page_end = some 1;
  extracted_text = some "Between";
  normalized_text = none;
  classification_confidence = none;
  review_status = ReviewStatus.pending;
  created_at = none;
  updated_at = none;
}

abbrev world_in : UploadStatus → World
world_in st = record {
  tables = record {
    documents = (1, document_in st) ∷ [];
    parse_runs = [];
    sections = (30, section) ∷ [];
    analysis_runs = [];
    analyses = [];
    references = [];
  };
  commands = [];
}

-- No endpoint is configured; a publisher is.
abbrev config : Config
config = record { has_endpoint = false; can_publish = true }

abbrev ports : Result Error PipelineResult → Result Error (Unit {0}) → Ports
ports answer sent = record {
  storage_key = λ url. "a.pdf";
  download = λ key. ok "content";
  upload_file = λ content name. ok "reducto://a";
  get_presigned_url = λ key. ok "https://b/a.pdf";
  run_pipeline = λ input. answer;
  integer = λ n. ok 3;
  send = λ command. sent;
}

-- A response whose usage is the given value.
abbrev answer_with : Json → PipelineResult
answer_with usage = record {
  job_id = "job";
  parse_response_json = obj (field "usage" usage end);
  sections = parsed_section ∷ [];
}

abbrev good : PipelineResult
good = answer_with (obj (field "num_pages" (num 3) end))

abbrev ids : ℕ → Uuid
ids n = 100 + n

abbrev row : SourceDocument
row = document_in uploaded

-- The link to the file cannot be made.
abbrev unlinked : Ports
unlinked = record (ports (ok good) (ok tt)) { get_presigned_url = λ key. err port_error }

ingest_failure_stored_example :
    let (r, w') = ingest config unlinked 1 50 ids 9 (world_in uploaded) in
    (r ≡ err port_error)
    × (lookup 1 w'.tables.documents ≡ some (record row { upload_status = UploadStatus.failed }))
    × (lookup 50 w'.tables.parse_runs
        ≡ some (record (running_run row 50) {
          status = RunStatus.failed;
          created_at = some 9;
          completed_at = some 9;
        }))
    × (w'.commands ≡ [])
unfolding document_input Document.create
ingest_failure_stored_example =
    ingest_failure_stored config unlinked 1 50 ids 9 (world_in uploaded) row port_error refl refl
      refl refl

ingest_late_failure_lost_example :
    ingest config (ports (ok (answer_with null)) (ok tt)) 1 50 ids 9 (world_in uploaded)
    ≡ (err (invalid_transition "SourceParseRun"), world_in uploaded)
unfolding document_input reported_pages
ingest_late_failure_lost_example =
    ingest_late_failure_lost config (ports (ok (answer_with null)) (ok tt)) 1 50 ids 9
      (world_in uploaded) row "https://b/a.pdf" (answer_with null) attribute_error refl refl refl
      refl refl

-- The publisher fails once, and works when the request is delivered again.
ingest_command_lost_example :
    let (r, w') = ingest config (ports (ok good) (err port_error)) 1 50 ids 9 (world_in uploaded) in
    (r ≡ err port_error)
    × (lookup 1 w'.tables.documents
        ≡ some (record (with_pages (some 3) row) { upload_status = parsed }))
    × (w'.commands ≡ [])
    × (ingest config (ports (ok good) (ok tt)) 1 51 ids 10 w'
        ≡ (ok (record { parse_run_id = none; sections_created = 0 }), w'))
unfolding document_input reported_pages Document.create
ingest_command_lost_example =
    ingest_command_lost config (ports (ok good) (err port_error)) (ports (ok good) (ok tt)) 1 50 51
      ids ids 9 10 (world_in uploaded) row good (some (num 3)) (some 3) port_error refl refl refl
      refl refl refl refl

abbrev output : SectionAnalysisOutput
output = record {
  source_section_id = 30;
  section_type = SectionType.static;
  reasoning = "fixed text";
  risk_level = RiskLevel.low;
  recommended_strategy = RecommendedStrategy.literal;
  references = [];
}

abbrev parsed_row : SourceDocument
parsed_row = document_in parsed

analyze_results_lost_example :
    analyze (λ ss. ok (output ∷ [])) 1 50 ids 9 (world_in parsed).tables
    ≡ (err (invalid_transition "SourceSectionAnalysisRun"), (world_in parsed).tables)
unfolding Document.create
analyze_results_lost_example =
    analyze_results_lost (λ ss. ok (output ∷ [])) 1 50 ids 9 (world_in parsed).tables
      (load_lists (world_in parsed).tables parsed_row) (output ∷ []) refl refl refl refl refl
      (ground arith)

analyze_failure_stored_example :
    let (r, t') = analyze (λ ss. err port_error) 1 50 ids 9 (world_in parsed).tables in
    (r ≡ err port_error)
    × (lookup 1 t'.documents ≡ some (record parsed_row { upload_status = UploadStatus.failed }))
    × (lookup 50 t'.analysis_runs
        ≡ some (record (running_analysis parsed_row 50) {
          status = RunStatus.failed;
          created_at = some 9;
          completed_at = some 9;
        }))
unfolding Document.create
analyze_failure_stored_example =
    analyze_failure_stored (λ ss. err port_error) 1 50 ids 9 (world_in parsed).tables parsed_row
      port_error refl refl refl refl refl refl
