-- ===== src/Contracts/Store.antt =====
-- The repositories of src/contract_intelligence/adapters/database/repositories.py that the
-- services use, over tables by primary key, and the objects that a service works on. Inserts of
-- rows with fresh ids are taken to succeed.
use estate_os_service.Base.{ℕ, ◌+◌, Uuid, Time, String, Option, none, some, List, ◌==◌}
use estate_os_service.Exec.{Result, ok, err, Exec}
use estate_os_service.Uow.{Session}
use estate_os_service.Dict.{Dict, lookup, insert, values_where}
use estate_os_service.Json.{num}
use estate_os_service.Contracts.Status.{Error, UploadStatus}
use estate_os_service.Contracts.Runs.{SourceParseRun, SourceSectionAnalysisRun}
use estate_os_service.Contracts.Review.{
  SourceSection, SourceSectionAnalysis, SourceSectionAnalysisReference,
}
use estate_os_service.Contracts.Document.{SourceDocument}

-- The document rows; the lists of a `SourceDocument` are filled when it is loaded.
pub record Tables : Type 0 where
  pub documents : Dict SourceDocument
  pub parse_runs : Dict SourceParseRun
  pub sections : Dict SourceSection
  pub analysis_runs : Dict SourceSectionAnalysisRun
  pub analyses : Dict SourceSectionAnalysis
  pub references : Dict SourceSectionAnalysisReference

-- A command to a queue: the event type and the document.
pub record Command : Type 0 where
  pub event_type : String
  pub document_id : Uuid

-- The tables, and the commands whose `send` has returned.
pub record World : Type 0 where
  pub tables : Tables
  pub commands : List Command

abbrev pub Query : Type 0 → Type 0
Query A = Exec Error (Session Tables) A

abbrev pub Service : Type 0 → Type 0
Service A = Exec Error World A

abbrev pub load_lists : Tables → SourceDocument → SourceDocument
load_lists t d = record d {
  parse_runs = values_where (λ r. r.source_document_id == d.id) t.parse_runs;
  sections = values_where (λ s. s.source_document_id == d.id) t.sections;
  analysis_runs = values_where (λ r. r.source_document_id == d.id) t.analysis_runs;
}

abbrev pub load : Tables → Uuid → Option SourceDocument
load t id = elim (lookup id t.documents) [ none ↦ none | some d ↦ some (load_lists t d) ]

-- `get_by_id`
abbrev pub get_by_id : Uuid → Query (Option SourceDocument)
get_by_id id s = (ok (load s.working id), s)

-- `update_status`
abbrev pub set_status : UploadStatus → Option SourceDocument → Uuid → Tables → Tables
set_status st none id t = t
set_status st (some row) id t = record t {
  documents = insert id (record row { upload_status = st }) t.documents;
}

-- `update_page_count`, by what the driver makes of the value for the Integer column: an integer, or
-- a raise at the flush. A document that is not there is passed over.
abbrev pub set_page_count :
    Result Error ℕ → Option SourceDocument → Uuid → Tables → Result Error (Unit {0}) × Tables
set_page_count n none id t = (ok tt, t)
set_page_count (err e) (some row) id t = (err e, t)
set_page_count (ok n) (some row) id t = (
  ok tt,
  record t { documents = insert id (record row { page_count = some (num n) }) t.documents },
)

-- `save_parse_run` stores no completion time.
abbrev pub add_parse_run : SourceParseRun → Time → Tables → Tables
add_parse_run r now t = record t {
  parse_runs = insert r.id (record r { created_at = some now; completed_at = none }) t.parse_runs;
}

-- `update_parse_run`
abbrev pub set_parse_run : SourceParseRun → Option SourceParseRun → Tables → Tables
set_parse_run r none t = t
set_parse_run r (some row) t = record t {
  parse_runs =
      insert r.id
        (record row {
          provider_job_id = r.provider_job_id;
          response_json = r.response_json;
          status = r.status;
          completed_at = r.completed_at;
        })
        t.parse_runs;
}

-- `save_section`
abbrev pub add_section : SourceSection → Time → Tables → Tables
add_section s now t = record t {
  sections = insert s.id (record s { created_at = some now; updated_at = some now }) t.sections;
}

-- `save_analysis_run` stores no completion time.
abbrev pub add_analysis_run : SourceSectionAnalysisRun → Time → Tables → Tables
add_analysis_run r now t = record t {
  analysis_runs =
      insert r.id (record r { created_at = some now; completed_at = none }) t.analysis_runs;
}

-- `update_analysis_run`
abbrev pub set_analysis_run :
    SourceSectionAnalysisRun → Option SourceSectionAnalysisRun → Tables → Tables
set_analysis_run r none t = t
set_analysis_run r (some row) t = record t {
  analysis_runs =
      insert r.id (record row { status = r.status; completed_at = r.completed_at }) t.analysis_runs;
}

-- `save_analysis`
abbrev pub add_analysis : SourceSectionAnalysis → Time → Tables → Tables
add_analysis a now t = record t {
  analyses = insert a.id (record a { created_at = some now; updated_at = some now }) t.analyses;
}

-- `save_analysis_reference`
abbrev pub add_reference : SourceSectionAnalysisReference → Time → Tables → Tables
add_reference r now t = record t {
  references = insert r.id (record r { created_at = some now }) t.references;
}

-- The objects that a `try` block and its handler share: the session, the run, the document, and
-- how many ids have been drawn.
pub record Work (R : Type 0) : Type 0 where
  pub session : Session Tables
  pub run : R
  pub document : SourceDocument
  pub drawn : ℕ

abbrev pub Step : Type 0 → Type 0 → Type 0
Step R A = Exec Error (Work R) A

module _ {R : Type 0} where
  abbrev pub lift : {A : Type 0} → Result Error A → Step R A
  lift r w = (r, w)

  abbrev pub set_run : Result Error R → Work R → Result Error (Unit {0}) × Work R
  set_run (ok r) w = (ok tt, record w { run = r })
  set_run (err e) w = (err e, w)

  -- A method of the run that may raise.
  abbrev pub on_run : (R → Result Error R) → Step R (Unit {0})
  on_run f w = set_run (f w.run) w

  abbrev pub set_document : Result Error SourceDocument → Work R → Result Error (Unit {0}) × Work R
  set_document (ok d) w = (ok tt, record w { document = d })
  set_document (err e) w = (err e, w)

  abbrev pub on_document : (SourceDocument → Result Error SourceDocument) → Step R (Unit {0})
  on_document f w = set_document (f w.document) w

  abbrev pub update : (Work R → Tables → Tables) → Step R (Unit {0})
  update f w = (ok tt, record w { session = record w.session { working = f w w.session.working } })

  abbrev pub wrote : Work R → Result Error (Unit {0}) × Tables → Result Error (Unit {0}) × Work R
  wrote w (r, t) = (r, record w { session = record w.session { working = t } })

  -- A write that may raise.
  abbrev pub update_or_raise :
      (Work R → Tables → Result Error (Unit {0}) × Tables) → Step R (Unit {0})
  update_or_raise f w = wrote w (f w w.session.working)

  abbrev pub commit_work : Step R (Unit {0})
  commit_work w = (ok tt, record w { session = record w.session { durable = w.session.working } })

  -- `document.upload_status` is written to the document's row.
  abbrev pub save_status : Step R (Unit {0})
  save_status = update (λ w t.
      set_status w.document.upload_status (lookup w.document.id t.documents) w.document.id t)

  -- `uuid4()`, from the ids that the call is given.
  abbrev pub draw : (ℕ → Uuid) → Step R Uuid
  draw ids w = (ok (ids w.drawn), record w { drawn = w.drawn + 1 })

  abbrev pub handle :
      {A : Type 0} → (Error → Step R A) → Result Error A × Work R → Result Error A × Work R
  handle h (ok a, w) = (ok a, w)
  handle h (err e, w) = h e w

  -- `try: m except Exception: h`
  abbrev pub attempt : {A : Type 0} → Step R A → (Error → Step R A) → Step R A
  attempt m h w = handle h (m w)

  -- The `try` statement within the unit of work.
  abbrev pub working_on : {A : Type 0} → R → SourceDocument → Step R A → Query A
  working_on r d m s =
      let (out, w) = m (record { session = s; run = r; document = d; drawn = 0 }) in
      (out, w.session)
