-- ===== src/Contracts/Runs/Extraction.antt =====
-- The methods of `SourceExtractionRun` in src/contract_intelligence/domain/entities/source_document.py.
use estate_os_service.Base.{Uuid, Time, String, Option, none, some}
use estate_os_service.Exec.{Result}
use estate_os_service.Json.{Json}
use estate_os_service.Contracts.Status.{Error, succeeded, failed, run_transitions, ◌then_set◌}
use estate_os_service.Contracts.Runs.{SourceExtractionRun, assign, check_run}

-- `SourceExtractionRun.create_succeeded`
unfoldable pub create_succeeded :
    Uuid → String → Json → Time → Option String → Option Json → Uuid → SourceExtractionRun
create_succeeded source_document_id schema_version schema now job_id result fresh = record {
  id = fresh;
  source_document_id = source_document_id;
  schema_version = schema_version;
  extraction_schema_json = schema;
  provider = "reducto";
  provider_job_id = job_id;
  result_json = result;
  status = succeeded;
  created_at = none;
  completed_at = some now;
}

unfoldable pub mark_succeeded :
    Time → Option String → Option Json → SourceExtractionRun → Result Error SourceExtractionRun
unfolding run_transitions
mark_succeeded now job_id result r =
    check_run r.status succeeded "SourceExtractionRun" then_set record r {
      status = succeeded;
      completed_at = some now;
      provider_job_id = assign job_id r.provider_job_id;
      result_json = assign result r.result_json;
    }

unfoldable pub mark_failed : Time → SourceExtractionRun → Result Error SourceExtractionRun
unfolding run_transitions
mark_failed now r =
    check_run r.status failed "SourceExtractionRun"
    then_set record r { status = failed; completed_at = some now }
