-- ===== src/Jobs/Store.antt =====
-- src/shared/jobs/adapters/persistence/inmemory_job_repository.py. Rows are copied in and out, so
-- a job that a caller changes is stored only by `update`.
use estate_os_service.Base.{
  ℕ, Uuid, Bool, true, false, Option, none, some, List, [], ◌∷◌, ◌||◌, ◌==◌, leb, filter, take,
  if◌then◌else◌,
}
use estate_os_service.Exec.{Result, ok, err, Exec, gets}
use estate_os_service.Dict.{Dict, lookup, insert, values_where}
use estate_os_service.Jobs.Model.{
  Job, JobStatus, pending, processing, completed, failed, JobKind, property_document_extraction,
  property_enrichment, applicant_screening, contract_ingestion, contract_analysis,
  media_generation_image, media_generation_video, JobEntityType, property, listing, applicant,
  contract, generated_media, Error, key_error,
}

abbrev pub Rows : Type 0
Rows = Dict Job

abbrev pub Service : Type 0 → Type 0
Service A = Exec Error Rows A

abbrev pub status_eq : JobStatus → JobStatus → Bool
status_eq pending pending = true
status_eq processing processing = true
status_eq completed completed = true
status_eq failed failed = true
status_eq _ _ = false

abbrev pub kind_eq : JobKind → JobKind → Bool
kind_eq property_document_extraction property_document_extraction = true
kind_eq property_enrichment property_enrichment = true
kind_eq applicant_screening applicant_screening = true
kind_eq contract_ingestion contract_ingestion = true
kind_eq contract_analysis contract_analysis = true
kind_eq media_generation_image media_generation_image = true
kind_eq media_generation_video media_generation_video = true
kind_eq _ _ = false

abbrev pub entity_eq : JobEntityType → JobEntityType → Bool
entity_eq property property = true
entity_eq listing listing = true
entity_eq applicant applicant = true
entity_eq contract contract = true
entity_eq generated_media generated_media = true
entity_eq _ _ = false

abbrev pub status_in : JobStatus → List JobStatus → Bool
status_in s [] = false
status_in s (t ∷ ts) = status_eq s t || status_in s ts

unfoldable pub insert_job : Job → Service Job
insert_job job rows = (ok job, insert job.id job rows)

abbrev pub update_row : Option Job → Job → Rows → Result Error Job × Rows
update_row none job rows = (err (key_error job.id), rows)
update_row (some old) job rows = (ok job, insert job.id job rows)

unfoldable pub update_job : Job → Service Job
update_job job rows = update_row (lookup job.id rows) job rows

unfoldable pub get_by_id : Uuid → Service (Option Job)
get_by_id id = gets (λ rows. lookup id rows)

-- "if statuses is not None: …", and the like for the other filters.
abbrev pub if_given {ℓ} : {A : Type ℓ} → Option A → (A → Job → Bool) → List Job → List Job
if_given none p js = js
if_given (some a) p js = filter (p a) js

-- `rows.sort(key=lambda j: j.created_at, reverse=True)`: newest first, and jobs of one time keep
-- their order.
abbrev pub insert_newest : Job → List Job → List Job
insert_newest j [] = j ∷ []
insert_newest j (k ∷ ks) =
    if leb k.created_at j.created_at then j ∷ k ∷ ks else k ∷ insert_newest j ks

abbrev pub newest_first : List Job → List Job
newest_first [] = []
newest_first (j ∷ js) = insert_newest j (newest_first js)

unfoldable pub matching :
    Uuid
    → Option (List JobStatus)
    → Option JobKind
    → Option JobEntityType
    → Option Uuid
    → Rows
    → List Job
matching org statuses kind entity_type entity_id rows =
    if_given entity_id (λ e j. j.entity_id == e)
      (if_given entity_type (λ e j. entity_eq j.entity_type e)
        (if_given kind (λ k j. kind_eq j.kind k)
          (if_given statuses (λ ss j. status_in j.status ss)
            (values_where (λ j. j.organization_id == org) rows))))

-- `InMemoryJobRepository.list`
unfoldable pub list :
    Uuid
    → Option (List JobStatus)
    → Option JobKind
    → Option JobEntityType
    → Option Uuid
    → ℕ
    → Rows
    → List Job
unfolding matching
list org statuses kind entity_type entity_id limit rows =
    take limit (newest_first (matching org statuses kind entity_type entity_id rows))
