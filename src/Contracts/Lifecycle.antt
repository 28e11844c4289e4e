-- ===== src/Contracts/Lifecycle.antt =====
-- What any history of calls keeps of the entities in src/contract_intelligence/domain/entities.
use estate_os_service.Base.{
  ℕ, ◌+◌, ◌≤◌, ◌<◌, ◌≡◌, refl, Bool, true, false, List, [], ◌∷◌, arith, is_some, inl, inr,
}
use estate_os_service.Exec.{ok, err, Result-cases}
use estate_os_service.Contracts.Status.{
  UploadStatus, extracted, analyzed, RunStatus, succeeded, TemplateStatus, deprecated,
  GeneratedContractStatus, generated, reviewed, signed,
}
use estate_os_service.Contracts.Runs.{SourceParseRun}
use estate_os_service.Contracts.Runs.Parse
use estate_os_service.Contracts.Document
use estate_os_service.Contracts.Document.{SourceDocument}
use estate_os_service.Contracts.Template.{TemplateVersion}
use estate_os_service.Contracts.Template.Version
use estate_os_service.Contracts.Generated
use estate_os_service.Contracts.Generated.{GeneratedContract}
use estate_os_service.Contracts.Calls.{
  ParseCall, run_starts, run_succeeds, run_fails, call_parse, DocumentCall, is_parsed, is_extracted,
  is_analyzed, is_failed, is_retried, call_document, VersionCall, submits, approves, sends_back,
  deprecates, archives, call_version, ContractCall, generates, reviews, signs, stores_away,
  call_contract, kept, after,
}

abbrev pub is_settled : RunStatus → Bool
is_settled succeeded = true
is_settled RunStatus.failed = true
is_settled _ = false

settled_raises :
    (c : ParseCall) (r : SourceParseRun) → is_settled r.status ≡ true → kept r (call_parse c r) ≡ r
unfolding call_parse Parse.mark_running Parse.mark_succeeded Parse.mark_failed
settled_raises run_starts r h = ground arith
settled_raises (run_succeeds now j x) r h = ground arith
settled_raises (run_fails now) r h = ground arith

-- A parse run that has succeeded or failed is never changed again: every later method raises and
-- leaves its status, its response and its completion time as they are.
pub settled_run_final :
    (cs : List ParseCall) (r : SourceParseRun)
    → is_settled r.status ≡ true
    → after call_parse cs r ≡ r
unfolding after
settled_run_final [] r h = refl
settled_run_final (c ∷ cs) r h = rw (settled_raises c r h) (settled_run_final cs r h)

pub record IsTimed (r : SourceParseRun) : Type 0 where
  pub stamped : is_some r.completed_at ≡ is_settled r.status

IsTimed-step : (c : ParseCall) (r : SourceParseRun) → IsTimed r → IsTimed (kept r (call_parse c r))
unfolding call_parse Parse.mark_running Parse.mark_succeeded Parse.mark_failed
IsTimed-step run_starts r h = record { stamped = ground (arith, h.stamped) }
IsTimed-step (run_succeeds now j x) r h = record { stamped = ground (arith, h.stamped) }
IsTimed-step (run_fails now) r h = record { stamped = ground (arith, h.stamped) }

-- Over any history of calls, a parse run has a completion time exactly when it has succeeded or
-- failed, if that held at the start.
pub completed_exactly-IsTimed :
    (cs : List ParseCall) (r : SourceParseRun) → IsTimed r → IsTimed (after call_parse cs r)
unfolding after
completed_exactly-IsTimed [] r h = h
completed_exactly-IsTimed (c ∷ cs) r h =
    completed_exactly-IsTimed cs (kept r (call_parse c r)) (IsTimed-step c r h)

-- The statuses of a version that has been approved.
abbrev pub is_released : TemplateStatus → Bool
is_released TemplateStatus.approved = true
is_released deprecated = true
is_released TemplateStatus.archived = true
is_released _ = false

pub record IsSignedOff (v : TemplateVersion) : Type 0 where
  pub by : is_some v.approved_by ≡ is_released v.status
  pub at : is_some v.approved_at ≡ is_released v.status

IsSignedOff-step :
    (c : VersionCall) (v : TemplateVersion)
    → IsSignedOff v
    → IsSignedOff (kept v (call_version c v))
unfolding call_version Version.submit_for_review Version.approve Version.reject_to_draft
    Version.deprecate Version.archive
IsSignedOff-step submits v h = record { by = ground (arith, h.by); at = ground (arith, h.at) }
IsSignedOff-step (approves u now) v h = record {
  by = ground (arith, h.by);
  at = ground (arith, h.at);
}
IsSignedOff-step sends_back v h = record { by = ground (arith, h.by); at = ground (arith, h.at) }
IsSignedOff-step deprecates v h = record { by = ground (arith, h.by); at = ground (arith, h.at) }
IsSignedOff-step archives v h = record { by = ground (arith, h.by); at = ground (arith, h.at) }

-- Over any history of calls, a template version names its approver and the time of its approval
-- exactly when it is APPROVED, DEPRECATED or ARCHIVED, if that held at the start.
pub released_exactly-IsSignedOff :
    (cs : List VersionCall) (v : TemplateVersion)
    → IsSignedOff v
    → IsSignedOff (after call_version cs v)
unfolding after
released_exactly-IsSignedOff [] v h = h
released_exactly-IsSignedOff (c ∷ cs) v h =
    released_exactly-IsSignedOff cs (kept v (call_version c v)) (IsSignedOff-step c v h)

-- How far a generated contract has come.
abbrev pub contract_rank : GeneratedContractStatus → ℕ
contract_rank GeneratedContractStatus.draft = 0
contract_rank generated = 1
contract_rank reviewed = 2
contract_rank signed = 3
contract_rank GeneratedContractStatus.archived = 4

-- How many calls of a history return.
unfoldable pub returned : List ContractCall → GeneratedContract → ℕ
returned [] g = 0
returned (c ∷ cs) g = elim (call_contract c g) [
  | ok g' ↦ 1 + returned cs g'
  | err e ↦ returned cs g
]

contract_rises :
    (c : ContractCall) (g g' : GeneratedContract)
    → call_contract c g ≡ ok g'
    → contract_rank g.status < contract_rank g'.status
unfolding call_contract Generated.mark_generated Generated.mark_reviewed Generated.mark_signed
    Generated.archive
contract_rises generates g g' h = ground arith
contract_rises reviews g g' h = ground arith
contract_rises signs g g' h = ground arith
contract_rises stores_away g g' h = ground arith

rank_bound : (s : GeneratedContractStatus) → contract_rank s ≤ 4
rank_bound GeneratedContractStatus.draft = ground arith
rank_bound generated = ground arith
rank_bound reviewed = ground arith
rank_bound signed = ground arith
rank_bound GeneratedContractStatus.archived = ground arith

-- In any history of calls on a generated contract, the calls that return are at most the steps
-- that its status leaves: four from DRAFT, and none once it is ARCHIVED.
pub contract_calls_bounded :
    (cs : List ContractCall) (g : GeneratedContract) → contract_rank g.status + returned cs g ≤ 4
unfolding returned
contract_calls_bounded [] g = ground (arith, rank_bound g.status)
contract_calls_bounded (c ∷ cs) g = elim (Result-cases (call_contract c g)) [
  | inl (g', e) ↦ ground (arith, contract_rises c g g' e, contract_calls_bounded cs g')
  | inr (x, e) ↦ ground (arith, contract_calls_bounded cs g)
]

-- A contract can be signed only out of REVIEWED, and the signature then ends its reviews: the
-- next call that returns archives it.
pub signed_then_archived :
    (c : ContractCall) (g g' g'' : GeneratedContract)
    → Generated.mark_signed g ≡ ok g'
    → call_contract c g' ≡ ok g''
    → (g.status ≡ reviewed) × (g''.status ≡ GeneratedContractStatus.archived)
unfolding call_contract Generated.mark_generated Generated.mark_reviewed Generated.mark_signed
    Generated.archive
signed_then_archived generates g g' g'' h k = ground arith
signed_then_archived reviews g g' g'' h k = ground arith
signed_then_archived signs g g' g'' h k = ground arith
signed_then_archived stores_away g g' g'' h k = ground arith

-- Whether a history extracts.
abbrev pub extracts : List DocumentCall → Bool
extracts [] = false
extracts (is_extracted ∷ cs) = true
extracts (_ ∷ cs) = extracts cs

-- The statuses of a document that nothing has extracted.
abbrev pub is_unextracted : UploadStatus → Bool
is_unextracted extracted = false
is_unextracted analyzed = false
is_unextracted _ = true

-- A document that starts unextracted can become EXTRACTED or ANALYZED only through
-- `mark_extracted`: no history without that call reaches either.
pub analysis_needs_extraction :
    (cs : List DocumentCall) (d : SourceDocument)
    → extracts cs ≡ false
    → is_unextracted d.upload_status ≡ true
    → is_unextracted (after call_document cs d).upload_status ≡ true
unfolding after call_document Document.mark_parsed Document.mark_extracted Document.mark_analyzed
    Document.mark_failed Document.retry
analysis_needs_extraction [] d h k = k
analysis_needs_extraction (is_parsed ∷ cs) d h k =
    analysis_needs_extraction cs (kept d (Document.mark_parsed d)) h (ground arith)
analysis_needs_extraction (is_extracted ∷ cs) d h k = ground arith
analysis_needs_extraction (is_analyzed ∷ cs) d h k =
    analysis_needs_extraction cs (kept d (Document.mark_analyzed d)) h (ground arith)
analysis_needs_extraction (is_failed ∷ cs) d h k =
    analysis_needs_extraction cs (kept d (Document.mark_failed d)) h (ground arith)
analysis_needs_extraction (is_retried ∷ cs) d h k =
    analysis_needs_extraction cs (kept d (Document.retry d)) h (ground arith)
