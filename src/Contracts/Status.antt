-- ===== src/Contracts/Status.antt =====
-- The status enums and transition tables of src/contract_intelligence/domain/entities.
use estate_os_service.Base.{String, Bool, true, false, List, [], ◌∷◌, ◌||◌, if◌then◌else◌}
use estate_os_service.Exec.{Result, ok, err}
use estate_os_service.Base.{Uuid}

-- The exceptions of domain/exceptions.py and of the services that the models raise;
-- `attribute_error` is Python's, `multiple_rows` the database driver's, and `port_error` stands for
-- whatever a port raises.
pub data Error : Type 0 where
  document_not_found : Uuid → Error
  duplicate_hash : String → Error
  invalid_transition : String → Error
  analysis_error : Error
  attribute_error port_error multiple_rows : Error

pub data UploadStatus : Type 0 where
  uploaded parsed extracted analyzed failed : UploadStatus

pub data RunStatus : Type 0 where
  pending running succeeded failed : RunStatus

pub data ReviewStatus : Type 0 where
  pending accepted corrected rejected merged split : ReviewStatus

pub data TemplateStatus : Type 0 where
  draft review approved deprecated archived : TemplateStatus

pub data SectionStatus : Type 0 where
  draft approved hidden : SectionStatus

pub data GeneratedContractStatus : Type 0 where
  draft generated reviewed signed archived : GeneratedContractStatus

abbrev pub upload_eq : UploadStatus → UploadStatus → Bool
upload_eq uploaded uploaded = true
upload_eq parsed parsed = true
upload_eq extracted extracted = true
upload_eq analyzed analyzed = true
upload_eq UploadStatus.failed UploadStatus.failed = true
upload_eq _ _ = false

abbrev pub run_eq : RunStatus → RunStatus → Bool
run_eq RunStatus.pending RunStatus.pending = true
run_eq running running = true
run_eq succeeded succeeded = true
run_eq RunStatus.failed RunStatus.failed = true
run_eq _ _ = false

abbrev pub review_eq : ReviewStatus → ReviewStatus → Bool
review_eq ReviewStatus.pending ReviewStatus.pending = true
review_eq accepted accepted = true
review_eq corrected corrected = true
review_eq rejected rejected = true
review_eq merged merged = true
review_eq split split = true
review_eq _ _ = false

abbrev pub template_eq : TemplateStatus → TemplateStatus → Bool
template_eq TemplateStatus.draft TemplateStatus.draft = true
template_eq review review = true
template_eq TemplateStatus.approved TemplateStatus.approved = true
template_eq deprecated deprecated = true
template_eq TemplateStatus.archived TemplateStatus.archived = true
template_eq _ _ = false

abbrev pub section_eq : SectionStatus → SectionStatus → Bool
section_eq SectionStatus.draft SectionStatus.draft = true
section_eq SectionStatus.approved SectionStatus.approved = true
section_eq hidden hidden = true
section_eq _ _ = false

abbrev pub contract_eq : GeneratedContractStatus → GeneratedContractStatus → Bool
contract_eq GeneratedContractStatus.draft GeneratedContractStatus.draft = true
contract_eq generated generated = true
contract_eq reviewed reviewed = true
contract_eq signed signed = true
contract_eq GeneratedContractStatus.archived GeneratedContractStatus.archived = true
contract_eq _ _ = false

-- `_UPLOAD_TRANSITIONS`
unfoldable pub upload_transitions : UploadStatus → List UploadStatus
upload_transitions uploaded = parsed ∷ extracted ∷ UploadStatus.failed ∷ []
upload_transitions parsed = extracted ∷ UploadStatus.failed ∷ []
upload_transitions extracted = analyzed ∷ UploadStatus.failed ∷ []
upload_transitions analyzed = UploadStatus.failed ∷ []
upload_transitions UploadStatus.failed = uploaded ∷ []

-- `_RUN_TRANSITIONS`
unfoldable pub run_transitions : RunStatus → List RunStatus
run_transitions RunStatus.pending = running ∷ []
run_transitions running = succeeded ∷ RunStatus.failed ∷ []
run_transitions succeeded = []
run_transitions RunStatus.failed = []

-- `_REVIEW_TRANSITIONS`
unfoldable pub review_transitions : ReviewStatus → List ReviewStatus
review_transitions ReviewStatus.pending = accepted ∷ corrected ∷ rejected ∷ merged ∷ split ∷ []
review_transitions _ = []

-- `_TEMPLATE_TRANSITIONS`
unfoldable pub template_transitions : TemplateStatus → List TemplateStatus
template_transitions TemplateStatus.draft = review ∷ []
template_transitions review = TemplateStatus.approved ∷ TemplateStatus.draft ∷ []
template_transitions TemplateStatus.approved = deprecated ∷ []
template_transitions deprecated = TemplateStatus.archived ∷ []
template_transitions TemplateStatus.archived = []

-- `_SECTION_TRANSITIONS`
unfoldable pub section_transitions : SectionStatus → List SectionStatus
section_transitions SectionStatus.draft = SectionStatus.approved ∷ hidden ∷ []
section_transitions SectionStatus.approved = SectionStatus.draft ∷ hidden ∷ []
section_transitions hidden = SectionStatus.draft ∷ []

-- `_CONTRACT_TRANSITIONS`
unfoldable pub contract_transitions : GeneratedContractStatus → List GeneratedContractStatus
contract_transitions GeneratedContractStatus.draft = generated ∷ []
contract_transitions generated = reviewed ∷ GeneratedContractStatus.archived ∷ []
contract_transitions reviewed = signed ∷ GeneratedContractStatus.archived ∷ []
contract_transitions signed = GeneratedContractStatus.archived ∷ []
contract_transitions GeneratedContractStatus.archived = []

-- `target in allowed`
abbrev pub is_allowed : {S : Type 0} → (S → S → Bool) → S → List S → Bool
is_allowed eq target [] = false
is_allowed eq target (s ∷ allowed) = eq s target || is_allowed eq target allowed

-- `_validate_transition`; the message keeps the entity's name alone.
abbrev pub validate_transition :
    {S : Type 0} → (S → S → Bool) → S → S → (S → List S) → String → Result Error (Unit {0})
validate_transition eq current target transitions entity =
    if is_allowed eq target (transitions current) then ok tt else err (invalid_transition entity)

-- A validated change of a mutable object: the object is untouched when the check raises.
infixl 5 ◌then_set◌
abbrev pub ◌then_set◌ : {A : Type 0} → Result Error (Unit {0}) → A → Result Error A
ok u then_set a = ok a
err e then_set a = err e
