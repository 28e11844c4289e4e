-- ===== src/Contracts/Analysis/Frame.antt =====
-- What the loops of `SectionAnalysisService.analyze` over the LLM's answer leave alone.
use estate_os_service.Base.{
  ℕ, ◌+◌, Uuid, Time, true, List, [], ◌∷◌, ◌≡◌, refl, ap, ◌∙◌, inl, inr, Bool-cases, if◌then◌else◌,
}
use estate_os_service.Exec.{ok, pure, bind-ok}
use estate_os_service.Contracts.Runs.{SourceSectionAnalysisRun}
use estate_os_service.Contracts.Review.{SourceSection}
use estate_os_service.Contracts.Document.{SourceDocument}
use estate_os_service.Contracts.Store.{Tables, Work}
use estate_os_service.Contracts.Analysis.{
  ReferenceOutput, SectionAnalysisOutput, save_references, save_output, save_known, save_outputs,
  is_known,
}

-- What the loops over the LLM's answer leave alone: the run, the document, and what is durable.
pub record IsFramed (run : SourceSectionAnalysisRun) (document : SourceDocument) (durable : Tables)
    (w : Work SourceSectionAnalysisRun) : Type 0 where
  pub same_run : w.run ≡ run
  pub same_document : w.document ≡ document
  pub same_durable : w.session.durable ≡ durable

-- How many outputs name a section of the document.
abbrev pub known_count : List SourceSection → List SectionAnalysisOutput → ℕ → ℕ
known_count ss [] n = n
known_count ss (o ∷ os) n = known_count ss os (if is_known o.source_section_id ss then n + 1 else n)

module _ (ids : ℕ → Uuid) (now : Time) where
  references_frame :
      (id : Uuid) (rs : List ReferenceOutput) (w : Work SourceSectionAnalysisRun)
      → IsFramed w.run w.document w.session.durable (save_references ids now id rs w).1
        × ((save_references ids now id rs w).0 ≡ ok tt)
  unfolding save_references
  references_frame id [] w =
      (record { same_run = refl; same_document = refl; same_durable = refl }, refl)
  references_frame id (r ∷ rs) w = references_frame id rs _

  output_frame :
      (o : SectionAnalysisOutput) (w : Work SourceSectionAnalysisRun)
      → IsFramed w.run w.document w.session.durable (save_output ids now o w).1
        × ((save_output ids now o w).0 ≡ ok tt)
  unfolding save_output
  output_frame o w = references_frame (ids w.drawn) o.references _

  known_frame :
      (o : SectionAnalysisOutput) (w : Work SourceSectionAnalysisRun)
      → IsFramed w.run w.document w.session.durable (save_known ids now o w).1
        × ((save_known ids now o w).0 ≡ ok (is_known o.source_section_id w.document.sections))
  unfolding save_known
  known_frame o w = elim (Bool-cases (is_known o.source_section_id w.document.sections)) [
    | inl known ↦ rw known (
        rw (bind-ok (save_output ids now o) (λ _. pure true) w (output_frame o w).1)
          ((output_frame o w).0, refl))
    | inr unknown ↦
        rw unknown (record { same_run = refl; same_document = refl; same_durable = refl }, refl)
  ]

  pub outputs_frame :
      (os : List SectionAnalysisOutput) (n : ℕ) (w : Work SourceSectionAnalysisRun)
      → IsFramed w.run w.document w.session.durable (save_outputs ids now os n w).1
        × ((save_outputs ids now os n w).0 ≡ ok (known_count w.document.sections os n))
  unfolding save_outputs
  outputs_frame [] n w =
      (record { same_run = refl; same_document = refl; same_durable = refl }, refl)
  outputs_frame (o ∷ os) n w =
      let (f, e) = known_frame o w in
      let n' : ℕ = if is_known o.source_section_id w.document.sections then n + 1 else n in
      let (g, e') = outputs_frame os n' (save_known ids now o w).1 in
      rw
        (bind-ok (save_known ids now o)
          (λ kept. save_outputs ids now os (if kept then n + 1 else n)) w e)
        (
          record {
            same_run = g.same_run ∙ f.same_run;
            same_document = g.same_document ∙ f.same_document;
            same_durable = g.same_durable ∙ f.same_durable;
          },
          e' ∙ ap (λ (d : SourceDocument). ok (known_count d.sections os n')) f.same_document,
        )
