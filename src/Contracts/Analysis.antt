-- ===== src/Contracts/Analysis.antt =====
-- src/contract_intelligence/application/services/section_analysis_service.py. The LLM port is a
-- function of the document's sections that may raise: the field evidence and the document id that
-- it is also given are fixed for a call. Ids and the time are arguments.
pub mod Frame
pub mod Outcome
use estate_os_service.Base.{
  ℕ, ◌+◌, Uuid, Time, String, Bool, true, false, not, Option, none, some, List, [], ◌∷◌, ◌||◌, ◌==◌,
  filter, if◌then◌else◌,
}
use estate_os_service.Exec.{Result, ok, err, Exec, pure, raise, or_raise, raise_if, ◌>>=◌, ◌>>◌}
use estate_os_service.Uow.{Session, in_uow, write}
use estate_os_service.Dict.{lookup}
use estate_os_service.Contracts.Status.{
  Error, document_not_found, analysis_error, parsed, succeeded, pending, upload_eq, run_eq,
}
use estate_os_service.Contracts.Runs.{SourceSectionAnalysisRun}
use estate_os_service.Contracts.Runs.Analysis as Runs
use estate_os_service.Contracts.Review.{
  SourceSection, SourceSectionAnalysis, SourceSectionAnalysisReference, SectionType, RiskLevel,
  RecommendedStrategy, AnalysisReferenceType,
}
use estate_os_service.Contracts.Document
use estate_os_service.Contracts.Document.{SourceDocument}
use estate_os_service.Contracts.Store.{
  Tables, World, Query, Service, Step, get_by_id, add_analysis_run, set_analysis_run, add_analysis,
  add_reference, lift, on_run, on_document, update, commit_work, save_status, draw, attempt,
  working_on,
}

pub record ReferenceOutput : Type 0 where
  pub reference_type : AnalysisReferenceType
  pub reference_key : String
  pub display_label : Option String
  pub confidence : Option String

pub record SectionAnalysisOutput : Type 0 where
  pub source_section_id : Uuid
  pub section_type : SectionType
  pub reasoning : String
  pub risk_level : RiskLevel
  pub recommended_strategy : RecommendedStrategy
  pub references : List ReferenceOutput

abbrev pub Llm : Type 0
Llm = List SourceSection → Result Error (List SectionAnalysisOutput)

-- `_build_analysis`, with the id that it draws.
unfoldable pub build_analysis : Uuid → SectionAnalysisOutput → Uuid → SourceSectionAnalysis
build_analysis run_id output fresh = record {
  id = fresh;
  source_section_analysis_run_id = run_id;
  source_section_id = output.source_section_id;
  section_type = output.section_type;
  reasoning = output.reasoning;
  risk_level = output.risk_level;
  recommended_strategy = output.recommended_strategy;
  review_status = pending;
  review_notes = none;
  corrected_section_type = none;
  corrected_risk_level = none;
  corrected_strategy = none;
  created_at = none;
  updated_at = none;
}

-- `analysis_output.source_section_id in section_ids`
abbrev pub is_known : Uuid → List SourceSection → Bool
is_known id [] = false
is_known id (s ∷ ss) = s.id == id || is_known id ss

unfoldable pub save_references :
    (ℕ → Uuid) → Time → Uuid → List ReferenceOutput → Step SourceSectionAnalysisRun (Unit {0})
save_references ids now analysis_id [] = pure tt
save_references ids now analysis_id (r ∷ rs) = do
  fresh ← draw ids
  update (λ w.
      add_reference
        (record {
          id = fresh;
          source_section_analysis_id = analysis_id;
          reference_type = r.reference_type;
          reference_key = r.reference_key;
          display_label = r.display_label;
          confidence = r.confidence;
          created_at = none;
        })
        now)
  save_references ids now analysis_id rs

-- One known output is stored with its references.
unfoldable pub save_output :
    (ℕ → Uuid) → Time → SectionAnalysisOutput → Step SourceSectionAnalysisRun (Unit {0})
unfolding build_analysis
save_output ids now output = do
  fresh ← draw ids
  update (λ w. add_analysis (build_analysis w.run.id output fresh) now)
  save_references ids now fresh output.references

-- The loop's body; the result tells whether the output counts. An unknown section is skipped.
unfoldable pub save_known :
    (ℕ → Uuid) → Time → SectionAnalysisOutput → Step SourceSectionAnalysisRun Bool
unfolding save_output
save_known ids now o w =
    if is_known o.source_section_id w.document.sections
    then (save_output ids now o >> pure true) w
    else (ok false, w)

-- The loop over the outputs; it returns `processed_count`.
unfoldable pub save_outputs :
    (ℕ → Uuid) → Time → List SectionAnalysisOutput → ℕ → Step SourceSectionAnalysisRun ℕ
save_outputs ids now [] processed = pure processed
save_outputs ids now (o ∷ os) processed = do
  kept ← save_known ids now o
  save_outputs ids now os (if kept then processed + 1 else processed)

abbrev pub save_run : Step SourceSectionAnalysisRun (Unit {0})
save_run = update (λ w t. set_analysis_run w.run (lookup w.run.id t.analysis_runs) t)

-- Step 7: "Mark run succeeded and document as analyzed".
unfoldable pub finish_analysis : Time → Step SourceSectionAnalysisRun SourceSectionAnalysisRun
finish_analysis now = do
  on_run (Runs.mark_succeeded now)
  save_run
  on_document Document.mark_analyzed
  save_status
  commit_work
  λ w. (ok w.run, w)

unfoldable pub try_analyze :
    Llm
    → (ℕ → Uuid)
    → Time
    → SourceDocument
    → Step SourceSectionAnalysisRun SourceSectionAnalysisRun
unfolding finish_analysis
try_analyze llm ids now d = do
  outputs ← lift (llm d.sections)
  processed ← save_outputs ids now outputs 0
  raise_if (processed == 0) analysis_error
  finish_analysis now

-- The `except` block, which raises again.
unfoldable pub fail_analysis : Time → Error → Step SourceSectionAnalysisRun SourceSectionAnalysisRun
fail_analysis now e = do
  on_run (Runs.mark_failed now)
  save_run
  on_document Document.mark_failed
  save_status
  commit_work
  raise e

-- Steps 5 to 7.
unfoldable pub run_analysis :
    Llm → Uuid → (ℕ → Uuid) → Time → SourceDocument → Query SourceSectionAnalysisRun
unfolding try_analyze fail_analysis
run_analysis llm run_id ids now d = do
  run ← λ s. (Runs.mark_running (Runs.new d.id run_id), s)
  write (add_analysis_run run now)
  working_on (record run { created_at = some now }) d
      (attempt (try_analyze llm ids now d) (fail_analysis now))

abbrev pub is_succeeded : SourceSectionAnalysisRun → Bool
is_succeeded r = run_eq r.status succeeded

-- Steps 3 and 4: a succeeded run is returned as it is; a document without sections is refused.
abbrev pub first_or :
    List SourceSectionAnalysisRun → Query SourceSectionAnalysisRun → Query SourceSectionAnalysisRun
first_or [] rest = rest
first_or (r ∷ rs) rest = pure r

abbrev pub no_sections : List SourceSection → Bool
no_sections [] = true
no_sections (s ∷ ss) = false

unfoldable pub analyze_block :
    Llm → Uuid → Uuid → (ℕ → Uuid) → Time → Query SourceSectionAnalysisRun
unfolding run_analysis
analyze_block llm document_id run_id ids now = do
  found ← get_by_id document_id
  d ← or_raise found (document_not_found document_id)
  raise_if (not (upload_eq d.upload_status parsed)) analysis_error
  first_or (filter is_succeeded d.analysis_runs)
      (do raise_if (no_sections d.sections) analysis_error; run_analysis llm run_id ids now d)

-- `SectionAnalysisService.analyze`
unfoldable pub analyze :
    Llm → Uuid → Uuid → (ℕ → Uuid) → Time → Exec Error Tables SourceSectionAnalysisRun
unfolding analyze_block
analyze llm document_id run_id ids now = in_uow (analyze_block llm document_id run_id ids now)
