-- ===== src/Contracts/Generated.antt =====
-- src/contract_intelligence/domain/entities/generated_contract.py.
use estate_os_service.Base.{ℕ, Uuid, Time, String, Option, List}
use estate_os_service.Exec.{Result}
use estate_os_service.Json.{Json}
use estate_os_service.Contracts.Status.{
  Error, GeneratedContractStatus, generated, reviewed, signed, contract_eq, contract_transitions,
  validate_transition, ◌then_set◌,
}

pub record GeneratedContractParty : Type 0 where
  pub id : Uuid
  pub generated_contract_id : Uuid
  pub role_key : String
  pub party_order : ℕ
  pub full_name : String
  pub party_type : String
  pub tax_id : Option String
  pub document_type : Option String
  pub document_number : Option String
  pub document_expiry : Option String
  pub address_line_1 : Option String
  pub address_line_2 : Option String
  pub postal_code : Option String
  pub city : Option String
  pub country_code : Option String
  pub source_ref : Option String
  pub created_at : Option Time
  pub updated_at : Option Time

pub record GeneratedContractSection : Type 0 where
  pub id : Uuid
  pub generated_contract_id : Uuid
  pub section_key : String
  pub sort_order : ℕ
  pub rendered_text : String
  pub template_section_id : Option Uuid
  pub render_state : String
  pub skip_reason : Option String
  pub created_at : Option Time

pub record GeneratedContractArtifact : Type 0 where
  pub id : Uuid
  pub generated_contract_id : Uuid
  pub artifact_type : String
  pub storage_url : String
  pub checksum : Option String
  pub created_at : Option Time

pub record GeneratedContract : Type 0 where
  pub id : Uuid
  pub contract_template_id : Uuid
  pub template_version_id : Uuid
  pub input_payload_json : Json
  pub rendered_schema_json : Json
  pub organization_id : Option Uuid
  pub crm_contact_id : Option String
  pub crm_property_id : Option String
  pub status : GeneratedContractStatus
  pub created_at : Option Time
  pub updated_at : Option Time
  pub parties : List GeneratedContractParty
  pub sections : List GeneratedContractSection
  pub artifacts : List GeneratedContractArtifact

unfoldable pub mark_generated : GeneratedContract → Result Error GeneratedContract
unfolding contract_transitions
mark_generated t =
    validate_transition contract_eq t.status generated contract_transitions "GeneratedContract"
    then_set record t { status = generated }

unfoldable pub mark_reviewed : GeneratedContract → Result Error GeneratedContract
unfolding contract_transitions
mark_reviewed t =
    validate_transition contract_eq t.status reviewed contract_transitions "GeneratedContract"
    then_set record t { status = reviewed }

unfoldable pub mark_signed : GeneratedContract → Result Error GeneratedContract
unfolding contract_transitions
mark_signed t =
    validate_transition contract_eq t.status signed contract_transitions "GeneratedContract"
    then_set record t { status = signed }

unfoldable pub archive : GeneratedContract → Result Error GeneratedContract
unfolding contract_transitions
archive t =
    validate_transition contract_eq t.status GeneratedContractStatus.archived contract_transitions
      "GeneratedContract"
    then_set record t { status = GeneratedContractStatus.archived }
