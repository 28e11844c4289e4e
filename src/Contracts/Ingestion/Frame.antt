-- ===== src/Contracts/Ingestion/Frame.antt =====
-- The steps of `IngestionService.ingest` after Reducto has answered: what each leaves and writes.
use estate_os_service.Base.{
  ℕ, Uuid, Time, Option, none, some, List, [], ◌∷◌, ◌≡◌, refl, arith, length, inl, inr,
}
use estate_os_service.Exec.{Result, ok, err, Result-cases}
use estate_os_service.Dict.{Dict, lookup, lookup-insert}
use estate_os_service.Json.{Json, num, obj, end}
use estate_os_service.Contracts.Status.{Error, uploaded, parsed, running, succeeded}
use estate_os_service.Contracts.Runs.{SourceParseRun}
use estate_os_service.Contracts.Runs.Parse
use estate_os_service.Contracts.Review.{ParsedSection}
use estate_os_service.Contracts.Document
use estate_os_service.Contracts.Document.{SourceDocument}
use estate_os_service.Contracts.Store.{Tables, Work, add_parse_run, set_parse_run}
use estate_os_service.Contracts.Ingestion.{
  Ports, PipelineResult, reported_pages, backfill_pages, save_sections, finish_ingest, store_result,
}

-- What the loop over the parsed sections leaves alone.
pub record IsFramed (run : SourceParseRun) (document : SourceDocument) (durable : Tables)
    (documents : Dict SourceDocument) (parse_runs : Dict SourceParseRun) (w : Work SourceParseRun)
    : Type 0 where
  pub same_run : w.run ≡ run
  pub same_document : w.document ≡ document
  pub same_durable : w.session.durable ≡ durable
  pub same_documents : w.session.working.documents ≡ documents
  pub same_parse_runs : w.session.working.parse_runs ≡ parse_runs

pub sections_frame :
    (ids : ℕ → Uuid) (now : Time) (ps : List ParsedSection) (w : Work SourceParseRun)
    → IsFramed w.run w.document w.session.durable w.session.working.documents
        w.session.working.parse_runs
        (save_sections ids now ps w).1
      × ((save_sections ids now ps w).0 ≡ ok tt)
unfolding save_sections
sections_frame ids now [] w = (
  record {
    same_run = refl;
    same_document = refl;
    same_durable = refl;
    same_documents = refl;
    same_parse_runs = refl;
  },
  refl,
)
sections_frame ids now (p ∷ ps) w = sections_frame ids now ps _

-- The parse run, and the work that the `try` statement starts from.
abbrev pub running_run : SourceDocument → Uuid → SourceParseRun
running_run d run_id = record {
  id = run_id;
  source_document_id = d.id;
  provider = "reducto";
  provider_job_id = none;
  parse_config_json = obj end;
  response_json = none;
  status = running;
  created_at = none;
  completed_at = none;
}

abbrev pub started : Tables → SourceDocument → Uuid → Time → Work SourceParseRun
started t d run_id now = record {
  session = record { durable = t; working = add_parse_run (running_run d run_id) now t };
  run = record (running_run d run_id) { created_at = some now };
  document = d;
  drawn = 0;
}

-- The run after Reducto has answered, and the work after that has been written.
abbrev pub answered : SourceParseRun → Time → PipelineResult → SourceParseRun
answered r now result = record r {
  status = succeeded;
  completed_at = some now;
  provider_job_id = some result.job_id;
  response_json = some result.parse_response_json;
}

abbrev pub stored_answer : Work SourceParseRun → Time → PipelineResult → Work SourceParseRun
stored_answer w now result = record w {
  run = answered w.run now result;
  session = record w.session {
    working =
        set_parse_run (answered w.run now result) (lookup w.run.id w.session.working.parse_runs)
          w.session.working;
  };
}

abbrev pub with_pages : Option ℕ → SourceDocument → SourceDocument
with_pages none d = d
with_pages (some n) d = record d { page_count = some (num n) }

-- The number of pages that the database takes for a reported page count, if one is reported.
abbrev pub to_store : Ports → Option Json → Result Error (Option ℕ)
to_store p none = ok none
to_store p (some n) = elim (p.integer n) [ ok k ↦ ok (some k) | err e ↦ err e ]

with_pages_id :
    (n : Option ℕ) (d : SourceDocument)
    → ((with_pages n d).id ≡ d.id) × ((with_pages n d).upload_status ≡ d.upload_status)
with_pages_id none d = (refl, refl)
with_pages_id (some n) d = (refl, refl)

pages_stored :
    (p : Ports) (raw : Option Json) (pages : Option ℕ) (w : Work SourceParseRun)
    (row : SourceDocument)
    → lookup w.document.id w.session.working.documents ≡ some row
    → to_store p raw ≡ ok pages
    → let (r, w') = backfill_pages p raw w in
      (r ≡ ok tt)
      × (w'.run ≡ w.run)
      × (w'.document.id ≡ w.document.id)
      × (w'.document.upload_status ≡ w.document.upload_status)
      × (w'.session.working.parse_runs ≡ w.session.working.parse_runs)
      × (lookup w.document.id w'.session.working.documents ≡ some (with_pages pages row))
unfolding backfill_pages Document.record_page_count
pages_stored p none pages w row h e = ground arith
pages_stored p (some n) pages w row h e = elim (Result-cases (p.integer n)) [
  | inr (x, f) ↦ ground arith
  | inl (k, f) ↦ ground (
    arith,
    lookup-insert w.document.id w.document.id (record row { page_count = some (num k) })
        w.session.working.documents,
  )
]

finish_stored :
    (k : ℕ) (w : Work SourceParseRun) (row : SourceDocument)
    → w.document.upload_status ≡ uploaded
    → lookup w.document.id w.session.working.documents ≡ some row
    → let (r, w') = finish_ingest k w in
      (r ≡ ok (record { parse_run_id = some w.run.id; sections_created = k }))
      × (w'.session.durable.parse_runs ≡ w.session.working.parse_runs)
      × (lookup w.document.id w'.session.durable.documents
          ≡ some (record row { upload_status = parsed }))
unfolding finish_ingest Document.mark_parsed
finish_stored k w row hs h = ground (
  arith,
  lookup-insert w.document.id w.document.id (record row { upload_status = parsed })
      w.session.working.documents,
)

pub store_succeeds :
    (p : Ports) (ids : ℕ → Uuid) (now : Time) (result : PipelineResult) (raw : Option Json)
    (pages : Option ℕ) (w : Work SourceParseRun) (row : SourceDocument)
    → w.run.status ≡ running
    → w.document.upload_status ≡ uploaded
    → lookup w.document.id w.session.working.documents ≡ some row
    → lookup w.run.id w.session.working.parse_runs ≡ some w.run
    → reported_pages result.parse_response_json ≡ ok raw
    → to_store p raw ≡ ok pages
    → let (r, w') = store_result p ids now result w in
      (r ≡ ok (record { parse_run_id = some w.run.id; sections_created = length result.sections }))
      × (lookup w.document.id w'.session.durable.documents
          ≡ some (record (with_pages pages row) { upload_status = parsed }))
      × (lookup w.run.id w'.session.durable.parse_runs ≡ some (answered w.run now result))
unfolding store_result Parse.mark_succeeded
store_succeeds p ids now result raw pages w row hr hs hd hw hp hn =
    let (f, done) = sections_frame ids now result.sections (stored_answer w now result) in
    let w1 : Work SourceParseRun =
      (save_sections ids now result.sections (stored_answer w now result)).1 in
    let w2 : Work SourceParseRun = (backfill_pages p raw w1).1 in
    ground (
      arith,
      f.same_run,
      f.same_document,
      f.same_documents,
      f.same_parse_runs,
      done,
      pages_stored p raw pages w1 row,
      finish_stored (length result.sections) w2 (with_pages pages row),
      with_pages_id pages w.document,
      lookup-insert w.run.id w.run.id (answered w.run now result) w.session.working.parse_runs,
    )
