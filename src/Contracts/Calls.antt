-- ===== src/Contracts/Calls.antt =====
-- The methods of the entities of src/contract_intelligence/domain/entities that change a status,
-- one constructor each with its arguments, and histories of calls on one object.
use estate_os_service.Base.{Uuid, Time, String, Option, List, [], ◌∷◌}
use estate_os_service.Exec.{Result, ok, err}
use estate_os_service.Json.{Json}
use estate_os_service.Contracts.Status.{Error}
use estate_os_service.Contracts.Runs.{SourceParseRun}
use estate_os_service.Contracts.Runs.Parse
use estate_os_service.Contracts.Document
use estate_os_service.Contracts.Document.{SourceDocument}
use estate_os_service.Contracts.Template.{TemplateVersion}
use estate_os_service.Contracts.Template.Version
use estate_os_service.Contracts.Generated
use estate_os_service.Contracts.Generated.{GeneratedContract}

pub data ParseCall : Type 0 where
  run_starts : ParseCall
  run_succeeds : Time → Option String → Option Json → ParseCall
  run_fails : Time → ParseCall

unfoldable pub call_parse : ParseCall → SourceParseRun → Result Error SourceParseRun
call_parse run_starts r = Parse.mark_running r
call_parse (run_succeeds now job response) r = Parse.mark_succeeded now job response r
call_parse (run_fails now) r = Parse.mark_failed now r

pub data DocumentCall : Type 0 where
  is_parsed is_extracted is_analyzed is_failed is_retried : DocumentCall

unfoldable pub call_document : DocumentCall → SourceDocument → Result Error SourceDocument
call_document is_parsed d = Document.mark_parsed d
call_document is_extracted d = Document.mark_extracted d
call_document is_analyzed d = Document.mark_analyzed d
call_document is_failed d = Document.mark_failed d
call_document is_retried d = Document.retry d

pub data VersionCall : Type 0 where
  submits : VersionCall
  approves : Uuid → Time → VersionCall
  sends_back deprecates archives : VersionCall

unfoldable pub call_version : VersionCall → TemplateVersion → Result Error TemplateVersion
call_version submits v = Version.submit_for_review v
call_version (approves user now) v = Version.approve user now v
call_version sends_back v = Version.reject_to_draft v
call_version deprecates v = Version.deprecate v
call_version archives v = Version.archive v

pub data ContractCall : Type 0 where
  generates reviews signs stores_away : ContractCall

unfoldable pub call_contract : ContractCall → GeneratedContract → Result Error GeneratedContract
call_contract generates c = Generated.mark_generated c
call_contract reviews c = Generated.mark_reviewed c
call_contract signs c = Generated.mark_signed c
call_contract stores_away c = Generated.archive c

-- A method that raises leaves its object as it is.
abbrev pub kept : {A : Type 0} → A → Result Error A → A
kept old (ok new) = new
kept old (err e) = old

-- An object after a history of calls.
unfoldable pub after : {C A : Type 0} → (C → A → Result Error A) → List C → A → A
after call [] a = a
after call (c ∷ cs) a = after call cs (kept a (call c a))
