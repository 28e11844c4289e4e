-- ===== src/Contracts/Analysis/Outcome.antt =====
-- What `SectionAnalysisService.analyze` can do to a document.
use estate_os_service.Base.{
  ◌<◌, ℕ, Uuid, Time, false, none, some, List, [], ◌≡◌, ◌≢◌, refl, arith, inl, inr, filter,
}
use estate_os_service.Exec.{ok, err, Result-cases}
use estate_os_service.Dict.{lookup, lookup-insert}
use estate_os_service.Contracts.Status.{
  Error, invalid_transition, parsed, running, succeeded, UploadStatus, RunStatus,
}
use estate_os_service.Contracts.Runs.{SourceSectionAnalysisRun}
use estate_os_service.Contracts.Runs.Analysis as Runs
use estate_os_service.Contracts.Document
use estate_os_service.Contracts.Document.{SourceDocument}
use estate_os_service.Contracts.Store.{
  Tables, Work, load, load_lists, set_analysis_run, add_analysis_run, set_status,
}
use estate_os_service.Contracts.Analysis.{
  Llm, SectionAnalysisOutput, save_outputs, finish_analysis, try_analyze, fail_analysis, analyze,
  is_succeeded, no_sections,
}
use estate_os_service.Contracts.Analysis.Frame.{known_count, outputs_frame}

-- The end of the `try` block on a parsed document: the run is marked as succeeded, and then
-- marking the document as analysed raises.
finish_raises :
    (now : Time) (w : Work SourceSectionAnalysisRun)
    → w.run.status ≡ running
    → w.document.upload_status ≡ parsed
    → let (r, w') = finish_analysis now w in
      (r ≡ err (invalid_transition "SourceDocument"))
      × (w'.run.status ≡ succeeded)
      × (w'.session.durable ≡ w.session.durable)
unfolding finish_analysis Runs.mark_succeeded Document.mark_analyzed
finish_raises now w hr hd = ground arith

-- The handler cannot fail a run that is marked as succeeded, and raises before it writes.
fail_raises :
    (now : Time) (e : Error) (w : Work SourceSectionAnalysisRun)
    → w.run.status ≡ succeeded
    → fail_analysis now e w ≡ (err (invalid_transition "SourceSectionAnalysisRun"), w)
unfolding fail_analysis Runs.mark_failed
fail_raises now e w h = ground arith

try_raises :
    (llm : Llm) (ids : ℕ → Uuid) (now : Time) (outputs : List SectionAnalysisOutput)
    (w : Work SourceSectionAnalysisRun)
    → w.run.status ≡ running
    → w.document.upload_status ≡ parsed
    → llm w.document.sections ≡ ok outputs
    → 0 < known_count w.document.sections outputs 0
    → let (r, w') = try_analyze llm ids now w.document w in
      (r ≡ err (invalid_transition "SourceDocument"))
      × (w'.run.status ≡ succeeded)
      × (w'.session.durable ≡ w.session.durable)
unfolding try_analyze
try_raises llm ids now outputs w hr hd hl hk =
    let (f, e) = outputs_frame ids now outputs 0 w in
    ground (
      arith,
      f.same_run,
      f.same_document,
      f.same_durable,
      e,
      hl,
      finish_raises now (save_outputs ids now outputs 0 w).1,
    )

-- Where the `try` statement starts.
abbrev pub running_run : SourceDocument → Uuid → SourceSectionAnalysisRun
running_run d run_id = record (Runs.new d.id run_id) { status = running }

abbrev started : Tables → SourceDocument → Uuid → Time → Work SourceSectionAnalysisRun
started t d run_id now = record {
  session = record { durable = t; working = add_analysis_run (running_run d run_id) now t };
  run = record (running_run d run_id) { created_at = some now };
  document = d;
  drawn = 0;
}

-- A parsed document with sections, no succeeded run, and an LLM answer about at least one of its
-- sections: the analysis always raises, on the run's transition, and nothing it did is kept.
pub analyze_results_lost :
    (llm : Llm) (document_id run_id : Uuid) (ids : ℕ → Uuid) (now : Time) (t : Tables)
    (d : SourceDocument) (outputs : List SectionAnalysisOutput)
    → load t document_id ≡ some d
    → d.upload_status ≡ parsed
    → filter is_succeeded d.analysis_runs ≡ []
    → no_sections d.sections ≡ false
    → llm d.sections ≡ ok outputs
    → 0 < known_count d.sections outputs 0
    → analyze llm document_id run_id ids now t
      ≡ (err (invalid_transition "SourceSectionAnalysisRun"), t)
unfolding analyze Runs.mark_running
analyze_results_lost llm document_id run_id ids now t d outputs hl hp hs hn hx hk = ground (
  arith,
  try_raises llm ids now outputs (started t d run_id now) refl hp hx hk,
  fail_raises now (invalid_transition "SourceDocument")
      (try_analyze llm ids now d (started t d run_id now)).1,
)

fail_commits :
    (now : Time) (e : Error) (w : Work SourceSectionAnalysisRun)
    → w.run.status ≡ running
    → w.document.upload_status ≡ parsed
    → let (r, w') = fail_analysis now e w in
      let failed_run : SourceSectionAnalysisRun = record w.run {
        status = RunStatus.failed;
        completed_at = some now;
      } in
      (r ≡ err e)
      × (w'.session.durable
          ≡ set_status UploadStatus.failed
              (lookup w.document.id
                (set_analysis_run failed_run
                  (lookup w.run.id w.session.working.analysis_runs)
                  w.session.working).documents)
              w.document.id
              (set_analysis_run failed_run
                (lookup w.run.id w.session.working.analysis_runs)
                w.session.working))
unfolding fail_analysis Runs.mark_failed Document.mark_failed
fail_commits now e w hr hd = ground arith

-- A failure of the LLM on a parsed document with sections and no succeeded run is raised again,
-- after the document and its new run have been stored as failed.
pub analyze_failure_stored :
    (llm : Llm) (document_id run_id : Uuid) (ids : ℕ → Uuid) (now : Time) (t : Tables)
    (row : SourceDocument) (e : Error)
    → lookup document_id t.documents ≡ some row
    → row.id ≡ document_id
    → row.upload_status ≡ parsed
    → filter is_succeeded (load_lists t row).analysis_runs ≡ []
    → no_sections (load_lists t row).sections ≡ false
    → llm (load_lists t row).sections ≡ err e
    → let (r, t') = analyze llm document_id run_id ids now t in
      (r ≡ err e)
      × (lookup document_id t'.documents
          ≡ some (record row { upload_status = UploadStatus.failed }))
      × (lookup run_id t'.analysis_runs
          ≡ some (record (running_run row run_id) {
            status = RunStatus.failed;
            created_at = some now;
            completed_at = some now;
          }))
unfolding analyze Runs.mark_running try_analyze
analyze_failure_stored llm document_id run_id ids now t row e hrow hid hp hs hn hx =
    let w : Work SourceSectionAnalysisRun = started t (load_lists t row) run_id now in
    let stored : SourceSectionAnalysisRun = record w.run {
      created_at = some now;
      completed_at = none;
    } in
    let failed_run : SourceSectionAnalysisRun = record stored {
      status = RunStatus.failed;
      completed_at = some now;
    } in
    ground (
      arith,
      fail_commits now e w refl hp,
      lookup-insert run_id run_id stored t.analysis_runs,
      lookup-insert run_id run_id failed_run w.session.working.analysis_runs,
      lookup-insert document_id document_id (record row { upload_status = UploadStatus.failed })
          t.documents,
    )

handler_raises :
    (now : Time) (e : Error) (w : Work SourceSectionAnalysisRun) (r : SourceSectionAnalysisRun)
    → (fail_analysis now e w).0 ≢ ok r
unfolding fail_analysis Runs.mark_failed Document.mark_failed
handler_raises now e w r = ground arith

try_never_returns :
    (llm : Llm) (ids : ℕ → Uuid) (now : Time) (w : Work SourceSectionAnalysisRun)
    (r : SourceSectionAnalysisRun)
    → w.run.status ≡ running
    → w.document.upload_status ≡ parsed
    → (try_analyze llm ids now w.document w).0 ≢ ok r
unfolding try_analyze
try_never_returns llm ids now w r hr hd = elim (Result-cases (llm w.document.sections)) [
  | inr (e, he) ↦ ground arith
  | inl (os, ho) ↦
      let (f, e) = outputs_frame ids now os 0 w in
      ground
        (arith, f.same_run, f.same_document, e, finish_raises now (save_outputs ids now os 0 w).1)
]

-- The analysis of a document that has no succeeded run never returns a run.
pub analyze_never_completes :
    (llm : Llm) (document_id run_id : Uuid) (ids : ℕ → Uuid) (now : Time) (t : Tables)
    (d : SourceDocument) (run : SourceSectionAnalysisRun)
    → load t document_id ≡ some d
    → filter is_succeeded d.analysis_runs ≡ []
    → (analyze llm document_id run_id ids now t).0 ≢ ok run
unfolding analyze Runs.mark_running
analyze_never_completes llm document_id run_id ids now t d run hl hs =
    let w : Work SourceSectionAnalysisRun = started t d run_id now in
    elim (Result-cases (try_analyze llm ids now d w).0) [
      | inl (r, done) ↦ ground (arith, try_never_returns llm ids now w r refl)
      | inr (e, gone) ↦ ground (arith, handler_raises now e (try_analyze llm ids now d w).1 run)
    ]
