-- ===== src/Contracts/Template/Contract.antt =====
-- The methods of `ContractTemplate` in src/contract_intelligence/domain/entities/template.py.
use estate_os_service.Exec.{Result}
use estate_os_service.Contracts.Status.{
  Error, TemplateStatus, review, deprecated, template_eq, template_transitions, validate_transition,
  ◌then_set◌,
}
use estate_os_service.Contracts.Template.{ContractTemplate}

unfoldable pub submit_for_review : ContractTemplate → Result Error ContractTemplate
unfolding template_transitions
submit_for_review t =
    validate_transition template_eq t.status review template_transitions "ContractTemplate"
    then_set record t { status = review }

unfoldable pub approve : ContractTemplate → Result Error ContractTemplate
unfolding template_transitions
approve t =
    validate_transition template_eq t.status TemplateStatus.approved template_transitions
      "ContractTemplate"
    then_set record t { status = TemplateStatus.approved }

unfoldable pub deprecate : ContractTemplate → Result Error ContractTemplate
unfolding template_transitions
deprecate t =
    validate_transition template_eq t.status deprecated template_transitions "ContractTemplate"
    then_set record t { status = deprecated }

unfoldable pub archive : ContractTemplate → Result Error ContractTemplate
unfolding template_transitions
archive t =
    validate_transition template_eq t.status TemplateStatus.archived template_transitions
      "ContractTemplate"
    then_set record t { status = TemplateStatus.archived }
