-- ===== src/Contracts/Review.antt =====
-- Sections, field evidence and section analyses of domain/entities/source_document.py: what a
-- reviewer accepts, rejects or corrects. A confidence is the text of its decimal.
pub mod Analysis
pub mod Evidence
pub mod Section
use estate_os_service.Base.{ℕ, Uuid, Time, String, Option, none, some}
use estate_os_service.Exec.{Result, ok, err}
use estate_os_service.Json.{Json}
use estate_os_service.Contracts.Status.{
  Error, ReviewStatus, pending, accepted, corrected, rejected, review_eq, review_transitions,
  validate_transition, ◌then_set◌,
}
use estate_os_service.Contracts.Runs.{assign}

pub data SectionType : Type 0 where
  static parameterized conditional generative : SectionType

pub data RiskLevel : Type 0 where
  low medium high : RiskLevel

pub data RecommendedStrategy : Type 0 where
  literal template template_variant ai_draft : RecommendedStrategy

pub data AnalysisReferenceType : Type 0 where
  field condition : AnalysisReferenceType

pub record SourceSectionAnalysisReference : Type 0 where
  pub id : Uuid
  pub source_section_analysis_id : Uuid
  pub reference_type : AnalysisReferenceType
  pub reference_key : String
  pub display_label : Option String
  pub confidence : Option String
  pub created_at : Option Time

pub record SourceSectionAnalysis : Type 0 where
  pub id : Uuid
  pub source_section_analysis_run_id : Uuid
  pub source_section_id : Uuid
  pub section_type : SectionType
  pub reasoning : String
  pub risk_level : RiskLevel
  pub recommended_strategy : RecommendedStrategy
  pub review_status : ReviewStatus
  pub review_notes : Option String
  pub corrected_section_type : Option SectionType
  pub corrected_risk_level : Option RiskLevel
  pub corrected_strategy : Option RecommendedStrategy
  pub created_at : Option Time
  pub updated_at : Option Time

pub record SourceFieldEvidence : Type 0 where
  pub id : Uuid
  pub source_extraction_run_id : Uuid
  pub field_key : String
  pub source_section_id : Option Uuid
  pub field_value_json : Json
  pub source_text : Option String
  pub page_number : Option ℕ
  pub confidence : Option String
  pub review_status : ReviewStatus
  pub corrected_value_json : Option Json
  pub created_at : Option Time
  pub updated_at : Option Time

pub record SourceSection : Type 0 where
  pub id : Uuid
  pub source_document_id : Uuid
  pub sort_order : ℕ
  pub section_key : Option String
  pub title : Option String
  pub page_start : Option ℕ
  pub page_end : Option ℕ
  pub extracted_text : Option String
  pub normalized_text : Option String
  pub classification_confidence : Option String
  pub review_status : ReviewStatus
  pub created_at : Option Time
  pub updated_at : Option Time

pub record ParsedSection : Type 0 where
  pub sort_order : ℕ
  pub title : Option String
  pub page_start : Option ℕ
  pub page_end : Option ℕ
  pub content : String

abbrev pub check_review : ReviewStatus → ReviewStatus → String → Result Error (Unit {0})
check_review current target entity =
    validate_transition review_eq current target review_transitions entity
