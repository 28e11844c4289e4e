-- ===== src/Jobs/Tracker.antt =====
-- src/shared/jobs/application/use_cases and adapters/tracking/default_job_tracker.py. How many
-- bytes `json.dumps` makes of a summary is the parameter `encoded_bytes`.
use estate_os_service.Base.{ℕ, Uuid, Time, String, true, Option, none, some, leb, if◌then◌else◌}
use estate_os_service.Exec.{Result, pure, or_raise, ◌>>=◌, ◌>>◌}
use estate_os_service.Json.{Json, bool, num, obj, field, end}
use estate_os_service.Jobs.Model.{
  Job, JobKind, JobEntityType, processing, Error, job_not_found, mark_completed, mark_failed,
  update_entity_id,
}
use estate_os_service.Jobs.Store.{Service, insert_job, update_job, get_by_id}

-- `RESULT_SUMMARY_SOFT_CAP_BYTES`
abbrev pub summary_cap : ℕ
summary_cap = 4096

abbrev pub truncated : ℕ → Json
truncated n = obj (field "_truncated" (bool true) (field "_original_bytes" (num n) end))

-- `_enforce_summary_cap`
unfoldable pub enforce_summary_cap : (Json → ℕ) → Option Json → Option Json
enforce_summary_cap encoded_bytes none = none
enforce_summary_cap encoded_bytes (some s) =
    if leb (encoded_bytes s) summary_cap then some s else some (truncated (encoded_bytes s))

abbrev pub call_job : Result Error Job → Service Job
call_job r rows = (r, rows)

abbrev pub new_job : Uuid → Uuid → JobKind → JobEntityType → Uuid → String → Uuid → Time → Job
new_job organization_id user_id kind entity_type entity_id title fresh now = record {
  id = fresh;
  organization_id = organization_id;
  requested_by_user_id = user_id;
  kind = kind;
  entity_type = entity_type;
  entity_id = entity_id;
  title = title;
  status = processing;
  error_code = none;
  error_message = none;
  result_summary = none;
  started_at = now;
  completed_at = none;
  created_at = now;
  updated_at = now;
}

-- `StartJob.execute`
unfoldable pub start_job :
    Uuid → Uuid → JobKind → JobEntityType → Uuid → String → Uuid → Time → Service Job
start_job organization_id user_id kind entity_type entity_id title fresh now =
    insert_job (new_job organization_id user_id kind entity_type entity_id title fresh now)

-- The body that the next three share: they differ in the method that they call on the job.
unfoldable pub change_job : (Job → Result Error Job) → Uuid → Service (Unit {0})
change_job change id = do
  found ← get_by_id id
  job ← or_raise found (job_not_found id)
  changed ← call_job (change job)
  update_job changed
  pure tt

-- `CompleteJob.execute`
unfoldable pub complete_job : (Json → ℕ) → Uuid → Option Json → Time → Service (Unit {0})
complete_job encoded_bytes id summary now =
    change_job (mark_completed (enforce_summary_cap encoded_bytes summary) now) id

-- `FailJob.execute`
unfoldable pub fail_job : Uuid → String → String → Time → Service (Unit {0})
fail_job id code message now = change_job (mark_failed code message now) id

-- `DefaultJobTracker.update_entity_id`
unfoldable pub repoint_job : Uuid → Uuid → Time → Service (Unit {0})
repoint_job id entity_id now = change_job (update_entity_id entity_id now) id
