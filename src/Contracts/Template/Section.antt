-- ===== src/Contracts/Template/Section.antt =====
-- The methods of `TemplateSection` in src/contract_intelligence/domain/entities/template.py.
use estate_os_service.Exec.{Result}
use estate_os_service.Contracts.Status.{
  Error, SectionStatus, hidden, section_eq, section_transitions, validate_transition, ◌then_set◌,
}
use estate_os_service.Contracts.Template.{TemplateSection}

unfoldable pub approve : TemplateSection → Result Error TemplateSection
unfolding section_transitions
approve t =
    validate_transition section_eq t.status SectionStatus.approved section_transitions
      "TemplateSection"
    then_set record t { status = SectionStatus.approved }

unfoldable pub hide : TemplateSection → Result Error TemplateSection
unfolding section_transitions
hide t =
    validate_transition section_eq t.status hidden section_transitions "TemplateSection"
    then_set record t { status = hidden }

unfoldable pub revert_to_draft : TemplateSection → Result Error TemplateSection
unfolding section_transitions
revert_to_draft t =
    validate_transition section_eq t.status SectionStatus.draft section_transitions
      "TemplateSection"
    then_set record t { status = SectionStatus.draft }
