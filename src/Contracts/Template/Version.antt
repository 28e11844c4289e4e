-- ===== src/Contracts/Template/Version.antt =====
-- The methods of `TemplateVersion` in src/contract_intelligence/domain/entities/template.py.
use estate_os_service.Base.{Uuid, Time, some}
use estate_os_service.Exec.{Result}
use estate_os_service.Contracts.Status.{
  Error, TemplateStatus, review, deprecated, template_eq, template_transitions, validate_transition,
  ◌then_set◌,
}
use estate_os_service.Contracts.Template.{TemplateVersion}

unfoldable pub submit_for_review : TemplateVersion → Result Error TemplateVersion
unfolding template_transitions
submit_for_review t =
    validate_transition template_eq t.status review template_transitions "TemplateVersion"
    then_set record t { status = review }

unfoldable pub approve : Uuid → Time → TemplateVersion → Result Error TemplateVersion
unfolding template_transitions
approve approved_by approved_at t =
    validate_transition template_eq t.status TemplateStatus.approved template_transitions
      "TemplateVersion"
    then_set record t {
      status = TemplateStatus.approved;
      approved_by = some approved_by;
      approved_at = some approved_at;
    }

unfoldable pub reject_to_draft : TemplateVersion → Result Error TemplateVersion
unfolding template_transitions
reject_to_draft t =
    validate_transition template_eq t.status TemplateStatus.draft template_transitions
      "TemplateVersion"
    then_set record t { status = TemplateStatus.draft }

unfoldable pub deprecate : TemplateVersion → Result Error TemplateVersion
unfolding template_transitions
deprecate t =
    validate_transition template_eq t.status deprecated template_transitions "TemplateVersion"
    then_set record t { status = deprecated }

unfoldable pub archive : TemplateVersion → Result Error TemplateVersion
unfolding template_transitions
archive t =
    validate_transition template_eq t.status TemplateStatus.archived template_transitions
      "TemplateVersion"
    then_set record t { status = TemplateStatus.archived }
