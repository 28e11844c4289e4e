-- ===== src/Contracts/Tests/History.antt =====
-- The theorems on histories of calls at one run, template version, contract and document.
use estate_os_service.Base.{◌≡◌, refl, true, none, [], ◌∷◌}
use estate_os_service.Exec.{ok}
use estate_os_service.Json.{null}
use estate_os_service.Contracts.Status.{TemplateStatus, GeneratedContractStatus, reviewed, signed}
use estate_os_service.Contracts.Runs.{SourceParseRun}
use estate_os_service.Contracts.Template.{TemplateVersion}
use estate_os_service.Contracts.Generated
use estate_os_service.Contracts.Generated.{GeneratedContract}
use estate_os_service.Contracts.Ingestion.Frame.{running_run, answered}
use estate_os_service.Contracts.Calls.{
  is_parsed, is_analyzed, is_failed, is_retried, call_document, submits, approves, sends_back,
  call_version, stores_away, call_contract, after,
}
use estate_os_service.Contracts.Lifecycle.{
  IsSignedOff, released_exactly-IsSignedOff, is_unextracted, analysis_needs_extraction,
}
use estate_os_service.Contracts.Tests.{row, good}

abbrev done_run : SourceParseRun
done_run = answered (running_run row 50) 9 good

abbrev version : TemplateVersion
version = record {
  id = 60;
  contract_template_id = 61;
  version_number = 1;
  schema_json = null;
  source_document_id = none;
  render_engine = "jinja";
  computed_rules_json = null;
  status = TemplateStatus.draft;
  review_notes = none;
  created_by = none;
  approved_by = none;
  created_at = none;
  approved_at = none;
  sections = [];
  field_bindings = [];
  conditions = [];
  party_slots = [];
}

released_exactly-IsSignedOff_example :
    IsSignedOff (after call_version (submits ∷ sends_back ∷ submits ∷ approves 7 9 ∷ []) version)
released_exactly-IsSignedOff_example =
    released_exactly-IsSignedOff (submits ∷ sends_back ∷ submits ∷ approves 7 9 ∷ []) version
      (record { by = refl; at = refl })

abbrev contract_in : GeneratedContractStatus → GeneratedContract
contract_in st = record {
  id = 70;
  contract_template_id = 61;
  template_version_id = 60;
  input_payload_json = null;
  rendered_schema_json = null;
  organization_id = none;
  crm_contact_id = none;
  crm_property_id = none;
  status = st;
  created_at = none;
  updated_at = none;
  parties = [];
  sections = [];
  artifacts = [];
}

abbrev signed_contract : GeneratedContract
signed_contract = contract_in signed

may_sign : Generated.mark_signed (contract_in reviewed) ≡ ok signed_contract
unfolding Generated.mark_signed
may_sign = refl

may_archive :
    call_contract stores_away signed_contract ≡ ok (contract_in GeneratedContractStatus.archived)
unfolding call_contract Generated.archive
may_archive = refl

analysis_needs_extraction_example :
    is_unextracted
      (after call_document
        (is_parsed ∷ is_analyzed ∷ is_failed ∷ is_retried ∷ [])
        row).upload_status
    ≡ true
analysis_needs_extraction_example =
    analysis_needs_extraction (is_parsed ∷ is_analyzed ∷ is_failed ∷ is_retried ∷ []) row refl refl
