-- ===== src/Contracts/Runs/Analysis.antt =====
-- The methods of `SourceSectionAnalysisRun` in src/contract_intelligence/domain/entities/source_document.py.
use estate_os_service.Base.{Uuid, Time, none, some}
use estate_os_service.Exec.{Result}
use estate_os_service.Contracts.Status.{
  Error, pending, running, succeeded, failed, run_transitions, ◌then_set◌,
}
use estate_os_service.Contracts.Runs.{SourceSectionAnalysisRun, check_run}

-- `SourceSectionAnalysisRun(source_document_id=…)`
abbrev pub new : Uuid → Uuid → SourceSectionAnalysisRun
new source_document_id fresh = record {
  id = fresh;
  source_document_id = source_document_id;
  provider = "openai";
  model_name = "gpt-5.4";
  prompt_version = "v1";
  status = pending;
  created_at = none;
  completed_at = none;
}

unfoldable pub mark_running : SourceSectionAnalysisRun → Result Error SourceSectionAnalysisRun
unfolding run_transitions
mark_running r =
    check_run r.status running "SourceSectionAnalysisRun" then_set record r { status = running }

unfoldable pub mark_succeeded :
    Time → SourceSectionAnalysisRun → Result Error SourceSectionAnalysisRun
unfolding run_transitions
mark_succeeded now r =
    check_run r.status succeeded "SourceSectionAnalysisRun"
    then_set record r { status = succeeded; completed_at = some now }

unfoldable pub mark_failed : Time → SourceSectionAnalysisRun → Result Error SourceSectionAnalysisRun
unfolding run_transitions
mark_failed now r =
    check_run r.status failed "SourceSectionAnalysisRun"
    then_set record r { status = failed; completed_at = some now }
