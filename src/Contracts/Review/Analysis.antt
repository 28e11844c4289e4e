-- ===== src/Contracts/Review/Analysis.antt =====
-- The methods of `SourceSectionAnalysis` in src/contract_intelligence/domain/entities/source_document.py.
use estate_os_service.Base.{String, Option}
use estate_os_service.Exec.{Result}
use estate_os_service.Contracts.Status.{
  Error, accepted, corrected, rejected, review_transitions, ◌then_set◌,
}
use estate_os_service.Contracts.Runs.{assign}
use estate_os_service.Contracts.Review.{
  SourceSectionAnalysis, SectionType, RiskLevel, RecommendedStrategy, check_review,
}

unfoldable pub accept : SourceSectionAnalysis → Result Error SourceSectionAnalysis
unfolding review_transitions
accept a =
    check_review a.review_status accepted "SourceSectionAnalysis"
    then_set record a { review_status = accepted }

unfoldable pub reject : SourceSectionAnalysis → Result Error SourceSectionAnalysis
unfolding review_transitions
reject a =
    check_review a.review_status rejected "SourceSectionAnalysis"
    then_set record a { review_status = rejected }

unfoldable pub correct :
    Option SectionType
    → Option RiskLevel
    → Option RecommendedStrategy
    → Option String
    → SourceSectionAnalysis
    → Result Error SourceSectionAnalysis
unfolding review_transitions
correct section_type risk_level strategy review_notes a =
    check_review a.review_status corrected "SourceSectionAnalysis" then_set record a {
      review_status = corrected;
      corrected_section_type = assign section_type a.corrected_section_type;
      corrected_risk_level = assign risk_level a.corrected_risk_level;
      corrected_strategy = assign strategy a.corrected_strategy;
      review_notes = assign review_notes a.review_notes;
    }
