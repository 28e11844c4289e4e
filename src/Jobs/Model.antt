-- ===== src/Jobs/Model.antt =====
-- src/shared/jobs/domain/job.py.
use estate_os_service.Base.{Uuid, Time, String, Bool, true, false, Option, some}
use estate_os_service.Exec.{Result, ok, err}
use estate_os_service.Json.{Json}

pub data JobStatus : Type 0 where
  pending processing completed failed : JobStatus

pub data JobKind : Type 0 where
  property_document_extraction property_enrichment applicant_screening : JobKind
  contract_ingestion contract_analysis : JobKind
  media_generation_image media_generation_video : JobKind

pub data JobEntityType : Type 0 where
  property listing applicant contract generated_media : JobEntityType

pub record Job : Type 0 where
  pub id : Uuid
  pub organization_id : Uuid
  pub requested_by_user_id : Uuid
  pub kind : JobKind
  pub entity_type : JobEntityType
  pub entity_id : Uuid
  pub title : String
  pub status : JobStatus
  pub error_code : Option String
  pub error_message : Option String
  pub result_summary : Option Json
  pub started_at : Time
  pub completed_at : Option Time
  pub created_at : Time
  pub updated_at : Time

-- `key_error` is Python's.
pub data Error : Type 0 where
  job_not_found invalid_job_transition key_error : Uuid → Error

-- `_TERMINAL_STATUSES`
abbrev pub is_terminal : JobStatus → Bool
is_terminal completed = true
is_terminal failed = true
is_terminal _ = false

abbrev complete_from : JobStatus → Option Json → Time → Job → Result Error Job
complete_from failed summary now j = err (invalid_job_transition j.id)
complete_from completed summary now j = ok j
complete_from _ summary now j = ok (record j {
  status = completed;
  result_summary = summary;
  completed_at = some now;
  updated_at = now;
})

-- `Job.mark_completed`
unfoldable pub mark_completed : Option Json → Time → Job → Result Error Job
mark_completed summary now j = complete_from j.status summary now j

abbrev fail_from : JobStatus → String → String → Time → Job → Result Error Job
fail_from completed code message now j = err (invalid_job_transition j.id)
fail_from failed code message now j = ok j
fail_from _ code message now j = ok (record j {
  status = failed;
  error_code = some code;
  error_message = some message;
  completed_at = some now;
  updated_at = now;
})

-- `Job.mark_failed`
unfoldable pub mark_failed : String → String → Time → Job → Result Error Job
mark_failed code message now j = fail_from j.status code message now j

abbrev repoint_from : Bool → Uuid → Time → Job → Result Error Job
repoint_from true entity_id now j = err (invalid_job_transition j.id)
repoint_from false entity_id now j = ok (record j { entity_id = entity_id; updated_at = now })

-- `Job.update_entity_id`
unfoldable pub update_entity_id : Uuid → Time → Job → Result Error Job
update_entity_id entity_id now j = repoint_from (is_terminal j.status) entity_id now j
