-- ===== src/Contracts/Ingestion/Outcome.antt =====
-- What `IngestionService.ingest` does to a document, its parse run and the analysis queue.
use estate_os_service.Base.{
  ℕ, Uuid, Time, String, Option, none, some, [], ◌∷◌, ◌++◌, ◌≡◌, ◌≢◌, refl, arith, length,
  if◌then◌else◌,
}
use estate_os_service.Exec.{Result, ok, err}
use estate_os_service.Dict.{lookup, lookup-insert}
use estate_os_service.Json.{Json}
use estate_os_service.Contracts.Status.{
  Error, invalid_transition, uploaded, parsed, running, succeeded, UploadStatus, RunStatus,
}
use estate_os_service.Contracts.Runs.{SourceParseRun}
use estate_os_service.Contracts.Runs.Parse
use estate_os_service.Contracts.Document
use estate_os_service.Contracts.Document.{SourceDocument}
use estate_os_service.Contracts.Store.{Tables, World, Work, load_lists, set_parse_run, set_status}
use estate_os_service.Contracts.Ingestion.{
  Config, Ports, PipelineResult, document_input, reported_pages, store_result, try_ingest,
  fail_ingest, ingest, publish_analysis, analysis_requested,
}
use estate_os_service.Contracts.Ingestion.Frame.{
  sections_frame, running_run, started, answered, stored_answer, with_pages, to_store,
}
use estate_os_service.Contracts.Ingestion.Commit.{reducto_answer, answer_fails, ingest_commits}

-- A document that is not UPLOADED is skipped: nothing is written and nothing is sent.
ingest_skips :
    (c : Config) (p : Ports) (document_id run_id : Uuid) (ids : ℕ → Uuid) (now : Time) (w : World)
    (row : SourceDocument)
    → lookup document_id w.tables.documents ≡ some row
    → row.upload_status ≢ uploaded
    → ingest c p document_id run_id ids now w
      ≡ (ok (record { parse_run_id = none; sections_created = 0 }), w)
unfolding ingest
ingest_skips c p document_id run_id ids now w row hrow hs = ground arith

fail_commits :
    (now : Time) (e : Error) (w : Work SourceParseRun)
    → w.run.status ≡ running
    → w.document.upload_status ≡ uploaded
    → let (r, w') = fail_ingest now e w in
      let failed_run : SourceParseRun = record w.run {
        status = RunStatus.failed;
        completed_at = some now;
      } in
      let t : Tables =
        set_parse_run failed_run (lookup w.run.id w.session.working.parse_runs) w.session.working in
      (r ≡ err e)
      × (w'.session.durable
          ≡ set_status UploadStatus.failed (lookup w.document.id t.documents) w.document.id t)
unfolding fail_ingest Parse.mark_failed Document.mark_failed
fail_commits now e w hr hd = ground arith

-- A failure before Reducto has answered about an uploaded document, of the download, the upload,
-- the link or the parser, is raised again, after the document and its run have been stored as
-- failed; no command is sent.
pub ingest_failure_stored :
    (c : Config) (p : Ports) (document_id run_id : Uuid) (ids : ℕ → Uuid) (now : Time) (w : World)
    (row : SourceDocument) (e : Error)
    → lookup document_id w.tables.documents ≡ some row
    → row.id ≡ document_id
    → row.upload_status ≡ uploaded
    → reducto_answer c p (load_lists w.tables row) ≡ err e
    → let (r, w') = ingest c p document_id run_id ids now w in
      (r ≡ err e)
      × (lookup document_id w'.tables.documents
          ≡ some (record row { upload_status = UploadStatus.failed }))
      × (lookup run_id w'.tables.parse_runs
          ≡ some (record (running_run row run_id) {
            status = RunStatus.failed;
            created_at = some now;
            completed_at = some now;
          }))
      × (w'.commands ≡ w.commands)
unfolding ingest Parse.start
ingest_failure_stored c p document_id run_id ids now w row e hrow hid hs hx =
    let w0 : Work SourceParseRun = started w.tables (load_lists w.tables row) run_id now in
    let stored : SourceParseRun = record w0.run { created_at = some now; completed_at = none } in
    let failed_run : SourceParseRun = record stored {
      status = RunStatus.failed;
      completed_at = some now;
    } in
    ground (
      arith,
      answer_fails c p ids now (load_lists w.tables row) e w0 hx,
      fail_commits now e w0 refl hs,
      lookup-insert run_id run_id stored w.tables.parse_runs,
      lookup-insert run_id run_id failed_run w0.session.working.parse_runs,
      lookup-insert document_id document_id (record row { upload_status = UploadStatus.failed })
          w.tables.documents,
    )

pages_raise :
    (p : Ports) (ids : ℕ → Uuid) (now : Time) (result : PipelineResult) (w : Work SourceParseRun)
    (e : Error)
    → w.run.status ≡ running
    → reported_pages result.parse_response_json ≡ err e
    → let (r, w') = store_result p ids now result w in
      (r ≡ err e) × (w'.run.status ≡ succeeded) × (w'.session.durable ≡ w.session.durable)
unfolding store_result Parse.mark_succeeded
pages_raise p ids now result w e hr he =
    let (f, done) = sections_frame ids now result.sections (stored_answer w now result) in
    ground (arith, f.same_run, f.same_durable, done)

handler_raises :
    (now : Time) (e : Error) (w : Work SourceParseRun)
    → w.run.status ≡ succeeded
    → fail_ingest now e w ≡ (err (invalid_transition "SourceParseRun"), w)
unfolding fail_ingest Parse.mark_failed
handler_raises now e w h = ground arith

-- A response whose usage is not an object makes the ingestion raise on the run's transition: the
-- run is already marked as succeeded and cannot be failed, so the document stays UPLOADED, no run
-- is stored and no command is sent.
pub ingest_late_failure_lost :
    (c : Config) (p : Ports) (document_id run_id : Uuid) (ids : ℕ → Uuid) (now : Time) (w : World)
    (row : SourceDocument) (input : String) (result : PipelineResult) (e : Error)
    → lookup document_id w.tables.documents ≡ some row
    → row.upload_status ≡ uploaded
    → document_input c p (load_lists w.tables row) ≡ ok input
    → p.run_pipeline input ≡ ok result
    → reported_pages result.parse_response_json ≡ err e
    → ingest c p document_id run_id ids now w ≡ (err (invalid_transition "SourceParseRun"), w)
unfolding ingest try_ingest Parse.start
ingest_late_failure_lost c p document_id run_id ids now w row input result e hrow hs hi hx he =
    let w0 : Work SourceParseRun = started w.tables (load_lists w.tables row) run_id now in
    ground (
      arith,
      pages_raise p ids now result w0 e refl he,
      handler_raises now e (store_result p ids now result w0).1,
    )

-- Whether the analysis can be asked for: the send's answer, if a publisher is configured.
abbrev pub asked_for : Config → Ports → Uuid → Result Error (Unit {0})
asked_for c p id = if c.can_publish then p.send (analysis_requested id) else ok tt

pub ingest_succeeds :
    (c : Config) (p : Ports) (document_id run_id : Uuid) (ids : ℕ → Uuid) (now : Time) (w : World)
    (row : SourceDocument) (result : PipelineResult) (raw : Option Json) (pages : Option ℕ)
    → lookup document_id w.tables.documents ≡ some row
    → row.id ≡ document_id
    → row.upload_status ≡ uploaded
    → reducto_answer c p (load_lists w.tables row) ≡ ok result
    → reported_pages result.parse_response_json ≡ ok raw
    → to_store p raw ≡ ok pages
    → asked_for c p document_id ≡ ok tt
    → let (r, w') = ingest c p document_id run_id ids now w in
      (r ≡ ok (record { parse_run_id = some run_id; sections_created = length result.sections }))
      × (lookup document_id w'.tables.documents
          ≡ some (record (with_pages pages row) { upload_status = parsed }))
      × (lookup run_id w'.tables.parse_runs
          ≡ some (record (answered (running_run row run_id) now result) { created_at = some now }))
      × (w'.commands ≡ (
          if c.can_publish then w.commands ++ analysis_requested document_id ∷ [] else w.commands))
unfolding ingest publish_analysis
ingest_succeeds c p document_id run_id ids now w row result raw pages hrow hid hs hx hp hn ha =
    ground (
      arith,
      ingest_commits c p document_id run_id ids now w.tables row result raw pages hrow hid hs hx hp
          hn,
    )

-- The same document, when the analysis command cannot be sent.
ingest_unsent :
    (c : Config) (p : Ports) (document_id run_id : Uuid) (ids : ℕ → Uuid) (now : Time) (w : World)
    (row : SourceDocument) (result : PipelineResult) (raw : Option Json) (pages : Option ℕ)
    (e : Error)
    → lookup document_id w.tables.documents ≡ some row
    → row.id ≡ document_id
    → row.upload_status ≡ uploaded
    → reducto_answer c p (load_lists w.tables row) ≡ ok result
    → reported_pages result.parse_response_json ≡ ok raw
    → to_store p raw ≡ ok pages
    → asked_for c p document_id ≡ err e
    → let (r, w') = ingest c p document_id run_id ids now w in
      (r ≡ err e)
      × (lookup document_id w'.tables.documents
          ≡ some (record (with_pages pages row) { upload_status = parsed }))
      × (w'.commands ≡ w.commands)
unfolding ingest publish_analysis
ingest_unsent c p document_id run_id ids now w row result raw pages e hrow hid hs hx hp hn ha =
    ground (
      arith,
      ingest_commits c p document_id run_id ids now w.tables row result raw pages hrow hid hs hx hp
          hn,
    )

-- An uploaded document that is parsed and whose analysis command cannot be sent stays without one:
-- the call raises the publisher's error after the document has been stored as PARSED, and when the
-- request is delivered again in that state, with a publisher that works or not, the document is
-- skipped, nothing is written and no command is sent.
pub ingest_command_lost :
    (c : Config) (p p' : Ports) (document_id run_id run_id' : Uuid) (ids ids' : ℕ → Uuid)
    (now later : Time) (w : World) (row : SourceDocument) (result : PipelineResult)
    (raw : Option Json) (pages : Option ℕ) (e : Error)
    → lookup document_id w.tables.documents ≡ some row
    → row.id ≡ document_id
    → row.upload_status ≡ uploaded
    → reducto_answer c p (load_lists w.tables row) ≡ ok result
    → reported_pages result.parse_response_json ≡ ok raw
    → to_store p raw ≡ ok pages
    → asked_for c p document_id ≡ err e
    → let (r, w') = ingest c p document_id run_id ids now w in
      (r ≡ err e)
      × (lookup document_id w'.tables.documents
          ≡ some (record (with_pages pages row) { upload_status = parsed }))
      × (w'.commands ≡ w.commands)
      × (ingest c p' document_id run_id' ids' later w'
          ≡ (ok (record { parse_run_id = none; sections_created = 0 }), w'))
ingest_command_lost c p p' document_id run_id run_id' ids ids' now later w row result raw pages e
      hrow hid hs hx hp hn ha =
    let (failed, stored, unsent) =
      ingest_unsent c p document_id run_id ids now w row result raw pages e hrow hid hs hx hp hn
        ha in
    (
      failed,
      stored,
      unsent,
      ingest_skips c p' document_id run_id' ids' later (ingest c p document_id run_id ids now w).1
          (record (with_pages pages row) { upload_status = parsed }) stored (ground arith),
    )
