-- ===== src/Contracts/Ingestion/Commit.antt =====
-- What the `try` block of `IngestionService.ingest` makes of Reducto's answer:
-- src/contract_intelligence/application/services/ingestion_service.py.
use estate_os_service.Base.{ℕ, Uuid, Time, Option, some, ◌≡◌, refl, arith, length, inl, inr}
use estate_os_service.Exec.{Result, ok, err, Result-cases}
use estate_os_service.Uow.{in_uow}
use estate_os_service.Dict.{lookup, lookup-insert}
use estate_os_service.Json.{Json}
use estate_os_service.Contracts.Status.{Error, uploaded, parsed}
use estate_os_service.Contracts.Runs.{SourceParseRun}
use estate_os_service.Contracts.Runs.Parse
use estate_os_service.Contracts.Document.{SourceDocument}
use estate_os_service.Contracts.Store.{Tables, Work, load_lists}
use estate_os_service.Contracts.Ingestion.{
  Config, Ports, PipelineResult, document_input, reported_pages, try_ingest, ingest_block, complete,
}
use estate_os_service.Contracts.Ingestion.Frame.{
  running_run, started, answered, with_pages, to_store, store_succeeds,
}

-- What the document's file, the upload to Reducto or the link to it, and the parser come to.
abbrev pub reducto_answer : Config → Ports → SourceDocument → Result Error PipelineResult
reducto_answer c p d = elim (document_input c p d) [
  | ok input ↦ p.run_pipeline input
  | err e ↦ err e
]

-- The `try` block raises it, with nothing written.
pub answer_fails :
    (c : Config) (p : Ports) (ids : ℕ → Uuid) (now : Time) (d : SourceDocument) (e : Error)
    (w : Work SourceParseRun)
    → reducto_answer c p d ≡ err e
    → try_ingest c p ids now d w ≡ (err e, w)
unfolding try_ingest
answer_fails c p ids now d e w h = elim (Result-cases (document_input c p d)) [
  | inl (input, hi) ↦ ground arith
  | inr (x, hi) ↦ ground arith
]

-- The block of `ingest`, when Reducto answers and the database takes the page count.
pub ingest_commits :
    (c : Config) (p : Ports) (document_id run_id : Uuid) (ids : ℕ → Uuid) (now : Time) (t : Tables)
    (row : SourceDocument) (result : PipelineResult) (raw : Option Json) (pages : Option ℕ)
    → lookup document_id t.documents ≡ some row
    → row.id ≡ document_id
    → row.upload_status ≡ uploaded
    → reducto_answer c p (load_lists t row) ≡ ok result
    → reported_pages result.parse_response_json ≡ ok raw
    → to_store p raw ≡ ok pages
    → let (r, t') = in_uow (ingest_block c p document_id run_id ids now) t in
      (r
        ≡ ok (
            complete
              (record { parse_run_id = some run_id; sections_created = length result.sections })))
      × (lookup document_id t'.documents
          ≡ some (record (with_pages pages row) { upload_status = parsed }))
      × (lookup run_id t'.parse_runs
          ≡ some (record (answered (running_run row run_id) now result) { created_at = some now }))
unfolding ingest_block try_ingest Parse.start
ingest_commits c p document_id run_id ids now t row result raw pages hrow hid hs hx hp hn =
    let w0 : Work SourceParseRun = started t (load_lists t row) run_id now in
    elim (Result-cases (document_input c p (load_lists t row))) [
      | inr (x, hi) ↦ ground arith
      | inl (input, hi) ↦ ground (
        arith,
        store_succeeds p ids now result raw pages w0 row refl hs,
        lookup-insert run_id run_id w0.run t.parse_runs,
      )
    ]
