-- ===== src/Contracts/Review/Evidence.antt =====
-- The methods of `SourceFieldEvidence` in src/contract_intelligence/domain/entities/source_document.py.
use estate_os_service.Base.{some}
use estate_os_service.Exec.{Result}
use estate_os_service.Json.{Json}
use estate_os_service.Contracts.Status.{
  Error, accepted, corrected, rejected, review_transitions, ◌then_set◌,
}
use estate_os_service.Contracts.Review.{SourceFieldEvidence, check_review}

unfoldable pub accept : SourceFieldEvidence → Result Error SourceFieldEvidence
unfolding review_transitions
accept a =
    check_review a.review_status accepted "SourceFieldEvidence"
    then_set record a { review_status = accepted }

unfoldable pub reject : SourceFieldEvidence → Result Error SourceFieldEvidence
unfolding review_transitions
reject a =
    check_review a.review_status rejected "SourceFieldEvidence"
    then_set record a { review_status = rejected }

unfoldable pub correct : Json → SourceFieldEvidence → Result Error SourceFieldEvidence
unfolding review_transitions
correct corrected_value a =
    check_review a.review_status corrected "SourceFieldEvidence"
    then_set record a { review_status = corrected; corrected_value_json = some corrected_value }
