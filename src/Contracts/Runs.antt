-- ===== src/Contracts/Runs.antt =====
-- Parse, extraction and analysis runs of
-- src/contract_intelligence/domain/entities/source_document.py; the children have their methods.
pub mod Parse
pub mod Extraction
pub mod Analysis
use estate_os_service.Base.{Uuid, Time, String, Option, none, some}
use estate_os_service.Exec.{Result}
use estate_os_service.Json.{Json}
use estate_os_service.Contracts.Status.{
  Error, RunStatus, run_eq, run_transitions, validate_transition,
}

-- `if x is not None: self.field = x`
abbrev pub assign {ℓ} : {A : Type ℓ} → Option A → Option A → Option A
assign none old = old
assign (some x) old = some x

pub record SourceParseRun : Type 0 where
  pub id : Uuid
  pub source_document_id : Uuid
  pub provider : String
  pub provider_job_id : Option String
  pub parse_config_json : Json
  pub response_json : Option Json
  pub status : RunStatus
  pub created_at : Option Time
  pub completed_at : Option Time

pub record SourceExtractionRun : Type 0 where
  pub id : Uuid
  pub source_document_id : Uuid
  pub schema_version : String
  pub extraction_schema_json : Json
  pub provider : String
  pub provider_job_id : Option String
  pub result_json : Option Json
  pub status : RunStatus
  pub created_at : Option Time
  pub completed_at : Option Time

pub record SourceSectionAnalysisRun : Type 0 where
  pub id : Uuid
  pub source_document_id : Uuid
  pub provider : String
  pub model_name : String
  pub prompt_version : String
  pub status : RunStatus
  pub created_at : Option Time
  pub completed_at : Option Time

abbrev pub check_run : RunStatus → RunStatus → String → Result Error (Unit {0})
check_run current target entity = validate_transition run_eq current target run_transitions entity
