-- ===== src/Contracts/Runs/Parse.antt =====
-- The methods of `SourceParseRun` in src/contract_intelligence/domain/entities/source_document.py.
use estate_os_service.Base.{Uuid, Time, String, Option, none, some}
use estate_os_service.Exec.{Result}
use estate_os_service.Json.{Json, obj, end}
use estate_os_service.Contracts.Status.{
  Error, pending, running, succeeded, failed, run_transitions, ◌then_set◌,
}
use estate_os_service.Contracts.Runs.{SourceParseRun, assign, check_run}

unfoldable pub mark_running : SourceParseRun → Result Error SourceParseRun
unfolding run_transitions
mark_running r = check_run r.status running "SourceParseRun" then_set record r { status = running }

-- `SourceParseRun.start`, with the id that it draws.
unfoldable pub start : Uuid → Uuid → Result Error SourceParseRun
unfolding mark_running
start source_document_id fresh = mark_running (record {
  id = fresh;
  source_document_id = source_document_id;
  provider = "reducto";
  provider_job_id = none;
  parse_config_json = obj end;
  response_json = none;
  status = pending;
  created_at = none;
  completed_at = none;
})

unfoldable pub mark_succeeded :
    Time → Option String → Option Json → SourceParseRun → Result Error SourceParseRun
unfolding run_transitions
mark_succeeded now job_id response r =
    check_run r.status succeeded "SourceParseRun" then_set record r {
      status = succeeded;
      completed_at = some now;
      provider_job_id = assign job_id r.provider_job_id;
      response_json = assign response r.response_json;
    }

unfoldable pub mark_failed : Time → SourceParseRun → Result Error SourceParseRun
unfolding run_transitions
mark_failed now r =
    check_run r.status failed "SourceParseRun"
    then_set record r { status = failed; completed_at = some now }
