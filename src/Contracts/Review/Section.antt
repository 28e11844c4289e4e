-- ===== src/Contracts/Review/Section.antt =====
-- The methods of `SourceSection` in src/contract_intelligence/domain/entities/source_document.py.
use estate_os_service.Base.{Uuid, String, Option, none, some}
use estate_os_service.Exec.{Result}
use estate_os_service.Contracts.Status.{
  Error, pending, accepted, corrected, rejected, review_transitions, ◌then_set◌,
}
use estate_os_service.Contracts.Runs.{assign}
use estate_os_service.Contracts.Review.{SourceSection, ParsedSection, check_review}

unfoldable pub accept : SourceSection → Result Error SourceSection
unfolding review_transitions
accept a =
    check_review a.review_status accepted "SourceSection"
    then_set record a { review_status = accepted }

unfoldable pub reject : SourceSection → Result Error SourceSection
unfolding review_transitions
reject a =
    check_review a.review_status rejected "SourceSection"
    then_set record a { review_status = rejected }

unfoldable pub correct : Option String → SourceSection → Result Error SourceSection
unfolding review_transitions
correct normalized_text a =
    check_review a.review_status corrected "SourceSection" then_set record a {
      review_status = corrected;
      normalized_text = assign normalized_text a.normalized_text;
    }

-- `SourceSection.from_parsed`, with the id that it draws.
unfoldable pub from_parsed : Uuid → ParsedSection → Uuid → SourceSection
from_parsed source_document_id p fresh = record {
  id = fresh;
  source_document_id = source_document_id;
  sort_order = p.sort_order;
  section_key = none;
  title = p.title;
  page_start = p.page_start;
  page_end = p.page_end;
  extracted_text = some p.content;
  normalized_text = none;
  classification_confidence = none;
  review_status = pending;
  created_at = none;
  updated_at = none;
}
