-- ===== src/Contracts/Template.antt =====
-- The records of src/contract_intelligence/domain/entities/template.py; the children have their
-- methods.
pub mod Section
pub mod Version
pub mod Contract
use estate_os_service.Base.{ℕ, Uuid, Time, String, Bool, Option, List}
use estate_os_service.Json.{Json}
use estate_os_service.Contracts.Status.{TemplateStatus, SectionStatus}

pub record TemplateSection : Type 0 where
  pub id : Uuid
  pub template_version_id : Uuid
  pub section_key : String
  pub title : String
  pub section_type : String
  pub sort_order : ℕ
  pub render_template : String
  pub is_repeatable : Bool
  pub is_optional : Bool
  pub condition_expression : Option String
  pub source_text_snapshot : Option String
  pub status : SectionStatus
  pub created_at : Option Time
  pub updated_at : Option Time

pub record TemplateFieldBinding : Type 0 where
  pub id : Uuid
  pub template_version_id : Uuid
  pub field_key : String
  pub binding_type : String
  pub template_section_id : Option Uuid
  pub required : Bool
  pub placeholder_label : Option String
  pub description : Option String
  pub default_value_json : Json
  pub validation_rules_json : Option Json
  pub source_hint : Option String
  pub created_at : Option Time
  pub updated_at : Option Time

pub record TemplateCondition : Type 0 where
  pub id : Uuid
  pub template_version_id : Uuid
  pub condition_key : String
  pub expression : String
  pub template_section_id : Option Uuid
  pub description : Option String
  pub created_at : Option Time

pub record TemplatePartySlot : Type 0 where
  pub id : Uuid
  pub template_version_id : Uuid
  pub role_key : String
  pub display_label_singular : String
  pub display_label_plural : String
  pub min_count : ℕ
  pub max_count : ℕ
  pub alias_singular : Option String
  pub alias_plural : Option String
  pub section_intro_label : Option String
  pub sort_order : ℕ
  pub is_required : Bool
  pub created_at : Option Time

pub record TemplateVersion : Type 0 where
  pub id : Uuid
  pub contract_template_id : Uuid
  pub version_number : ℕ
  pub schema_json : Json
  pub source_document_id : Option Uuid
  pub render_engine : String
  pub computed_rules_json : Json
  pub status : TemplateStatus
  pub review_notes : Option String
  pub created_by : Option Uuid
  pub approved_by : Option Uuid
  pub created_at : Option Time
  pub approved_at : Option Time
  pub sections : List TemplateSection
  pub field_bindings : List TemplateFieldBinding
  pub conditions : List TemplateCondition
  pub party_slots : List TemplatePartySlot

pub record ContractTemplate : Type 0 where
  pub id : Uuid
  pub key : String
  pub name : String
  pub contract_type : String
  pub jurisdiction : String
  pub language_code : String
  pub status : TemplateStatus
  pub current_version_id : Option Uuid
  pub created_at : Option Time
  pub updated_at : Option Time
  pub versions : List TemplateVersion
