-- ===== src/Contracts/Documents/Outcome.antt =====
-- What uploads and retries do: src/contract_intelligence/application/services/source_document_service.py.
use estate_os_service.Base.{
  ℕ, ◌≤◌, Uuid, Time, String, ◌≡◌, ◌≢◌, refl, Option, none, some, [], ◌∷◌, ◌++◌, arith, length,
  str_eq, eq_iff, Bool-cases, inl, inr, ap,
}
use estate_os_service.Exec.{ok, err, Result-cases}
use estate_os_service.Json.{Json}
use estate_os_service.Dict.{
  Dict, lookup, insert, values_where, lookup-insert, length-values_where-insert,
}
use estate_os_service.Contracts.Status.{
  Error, duplicate_hash, invalid_transition, uploaded, parsed, UploadStatus,
}
use estate_os_service.Contracts.Document
use estate_os_service.Contracts.Document.{SourceDocument}
use estate_os_service.Contracts.Store.{World, load_lists}
use estate_os_service.Contracts.Documents.{
  Shelf, Upload, Ports, has_hash, get_by_hash, upload_source_document, retry_document, after_send,
  ingestion_requested,
}
use estate_os_service.Contracts.Ingestion as Ingestion
use estate_os_service.Contracts.Ingestion.{Config, PipelineResult, reported_pages, ingest}
use estate_os_service.Contracts.Ingestion.Frame.{with_pages, to_store}
use estate_os_service.Contracts.Ingestion.Outcome.{ingest_succeeds, asked_for}
use estate_os_service.Contracts.Ingestion.Commit.{reducto_answer}

-- No two documents have the same hash.
pub record AreDistinct (d : Dict SourceDocument) : Type 0 where
  pub one_row : (h : String) → length (values_where (has_hash h) d) ≤ 1

-- The document that an upload stores.
abbrev pub uploaded_document : Ports → Upload → Uuid → Uuid → Time → String → SourceDocument
uploaded_document p u org fresh now url = record {
  id = fresh;
  filename = u.filename;
  storage_url = url;
  mime_type = u.content_type;
  document_hash = p.sha256 u.content;
  organization_id = some org;
  page_count = none;
  language_code = none;
  upload_status = uploaded;
  created_at = some now;
  parse_runs = [];
  sections = [];
  extraction_runs = [];
  analysis_runs = [];
}

-- A file that no stored document has the hash of is stored as an UPLOADED document, under the id
-- that was drawn; if the ingestion command can be sent, the call returns the document and one
-- command is sent for it.
pub upload_succeeds :
    (p : Ports) (u : Upload) (org fresh : Uuid) (now : Time) (s : Shelf) (url : String)
    → p.upload (p.storage_key org fresh u.filename) u.content ≡ ok url
    → values_where (has_hash (p.sha256 u.content)) s.world.tables.documents ≡ []
    → p.send (ingestion_requested fresh) ≡ ok tt
    → upload_source_document p u org fresh now s ≡ (
      ok (uploaded_document p u org fresh now url),
      record {
        world = record {
          tables = record s.world.tables {
            documents =
                insert fresh (uploaded_document p u org fresh now url) s.world.tables.documents;
          };
          commands = s.world.commands ++ ingestion_requested fresh ∷ [];
        };
        files = s.files ++ p.storage_key org fresh u.filename ∷ [];
      },
    )
unfolding upload_source_document get_by_hash Document.create
upload_succeeds p u org fresh now s url hu hh sent = ground arith

-- A file whose hash one stored document has is refused: the tables and the commands stay as they
-- are, but the file has been put into the storage.
pub upload_duplicate_refused :
    (p : Ports) (u : Upload) (org fresh : Uuid) (now : Time) (s : Shelf) (url : String)
    (old : SourceDocument)
    → p.upload (p.storage_key org fresh u.filename) u.content ≡ ok url
    → values_where (has_hash (p.sha256 u.content)) s.world.tables.documents ≡ old ∷ []
    → upload_source_document p u org fresh now s ≡ (
      err (duplicate_hash (p.sha256 u.content)),
      record s { files = s.files ++ p.storage_key org fresh u.filename ∷ [] },
    )
unfolding upload_source_document get_by_hash Document.create
upload_duplicate_refused p u org fresh now s url old hu hh = ground arith

-- An upload keeps the documents' hashes distinct, whether it returns or raises, if the id that it
-- draws is not in use.
pub upload-AreDistinct :
    (p : Ports) (u : Upload) (org fresh : Uuid) (now : Time) (s : Shelf)
    → AreDistinct s.world.tables.documents
    → lookup fresh s.world.tables.documents ≡ none
    → AreDistinct (upload_source_document p u org fresh now s).1.world.tables.documents
unfolding upload_source_document get_by_hash Document.create
upload-AreDistinct p u org fresh now s o new =
    elim (Result-cases (p.upload (p.storage_key org fresh u.filename) u.content)) [
      | inr (x, e) ↦ record { one_row = λ h. ground (arith, o.one_row h) }
      | inl (url, e) ↦ record {
        one_row = λ h. elim (Bool-cases (str_eq (p.sha256 u.content) h)) [
          | inl same ↦ rw⁻¹ ((eq_iff (p.sha256 u.content) h).0 same) (
              ground (
                arith,
                o.one_row (p.sha256 u.content),
                length-values_where-insert (has_hash (p.sha256 u.content)) fresh
                    (uploaded_document p u org fresh now url) s.world.tables.documents,
              ))
          | inr other ↦ ground (
            arith,
            o.one_row h,
            length-values_where-insert (has_hash h) fresh (uploaded_document p u org fresh now url)
                s.world.tables.documents,
          )
        ];
      }
    ]

-- The tables after a document has been reset.
abbrev after_reset : World → Uuid → SourceDocument → World
after_reset w id row = record w {
  tables = record w.tables {
    documents = insert id (record row { upload_status = uploaded }) w.tables.documents;
  };
}

retry_resets :
    (q : Ports) (id : Uuid) (w : World) (row : SourceDocument)
    → lookup id w.tables.documents ≡ some row
    → row.id ≡ id
    → row.upload_status ≡ UploadStatus.failed
    → retry_document q id w
      ≡ after_send
          (load_lists w.tables (record row { upload_status = uploaded }))
          (q.send (ingestion_requested id))
          (after_reset w id row)
unfolding retry_document Document.retry
retry_resets q id w row hrow hid hs = ground arith

retry_succeeds :
    (q : Ports) (id : Uuid) (w : World) (row : SourceDocument)
    → lookup id w.tables.documents ≡ some row
    → row.id ≡ id
    → row.upload_status ≡ UploadStatus.failed
    → q.send (ingestion_requested id) ≡ ok tt
    → retry_document q id w ≡ (
      ok (load_lists w.tables (record row { upload_status = uploaded })),
      record (after_reset w id row) { commands = w.commands ++ ingestion_requested id ∷ [] },
    )
retry_succeeds q id w row hrow hid hs sent = ground (arith, retry_resets q id w row hrow hid hs)

-- A FAILED document that is retried and then ingested, with both commands sent, an answer of the
-- parser and a page count that the database takes, is PARSED with that count, and the ingestion's
-- result counts the parsed sections.
pub retry_then_ingest :
    (q : Ports) (c : Config) (p : Ingestion.Ports) (id run_id : Uuid) (ids : ℕ → Uuid) (now : Time)
    (w : World) (row : SourceDocument) (result : PipelineResult) (raw : Option Json)
    (pages : Option ℕ)
    → lookup id w.tables.documents ≡ some row
    → row.id ≡ id
    → row.upload_status ≡ UploadStatus.failed
    → q.send (ingestion_requested id) ≡ ok tt
    → reducto_answer c p
        (load_lists (retry_document q id w).1.tables (record row { upload_status = uploaded }))
      ≡ ok result
    → reported_pages result.parse_response_json ≡ ok raw
    → to_store p raw ≡ ok pages
    → asked_for c p id ≡ ok tt
    → let again : SourceDocument = record row { upload_status = uploaded } in
      let (retried, w') = retry_document q id w in
      let (r, w'') = ingest c p id run_id ids now w' in
      (retried ≡ ok (load_lists w.tables again))
      × (r ≡ ok (record { parse_run_id = some run_id; sections_created = length result.sections }))
      × (lookup id w''.tables.documents
          ≡ some (record (with_pages pages again) { upload_status = parsed }))
retry_then_ingest q c p id run_id ids now w row result raw pages hrow hid hs sent hx hp hn ha =
    let again : SourceDocument = record row { upload_status = uploaded } in
    let e = retry_succeeds q id w row hrow hid hs sent in
    let (r, d, runs, commands) =
      ingest_succeeds c p id run_id ids now (retry_document q id w).1 again result raw pages
        (rw e (ground (arith, lookup-insert id id again w.tables.documents))) hid refl hx hp hn
        ha in
    (ap (λ x. x.0) e, r, d)

-- A document that is not FAILED is not retried, and nothing changes.
retry_refused :
    (q : Ports) (id : Uuid) (w : World) (row : SourceDocument)
    → lookup id w.tables.documents ≡ some row
    → row.upload_status ≢ UploadStatus.failed
    → retry_document q id w ≡ (err (invalid_transition "SourceDocument"), w)
unfolding retry_document Document.retry
retry_refused q id w row hrow hs = ground arith

-- A FAILED document that is retried when the ingestion command cannot be sent is stuck: the call
-- raises after the document has been stored as UPLOADED, no command is sent, and another retry in
-- that state, with a publisher that works or not, raises and changes nothing.
pub retry_command_lost :
    (q q' : Ports) (id : Uuid) (w : World) (row : SourceDocument) (x : Error)
    → lookup id w.tables.documents ≡ some row
    → row.id ≡ id
    → row.upload_status ≡ UploadStatus.failed
    → q.send (ingestion_requested id) ≡ err x
    → let (r, w') = retry_document q id w in
      (r ≡ err x)
      × (lookup id w'.tables.documents ≡ some (record row { upload_status = uploaded }))
      × (w'.commands ≡ w.commands)
      × (retry_document q' id w' ≡ (err (invalid_transition "SourceDocument"), w'))
retry_command_lost q q' id w row x hrow hid hs hx =
    let again : SourceDocument = record row { upload_status = uploaded } in
    let e : retry_document q id w ≡ (err x, after_reset w id row) =
      ground (arith, retry_resets q id w row hrow hid hs) in
    let here : lookup id (after_reset w id row).tables.documents ≡ some again =
      ground (arith, lookup-insert id id again w.tables.documents) in
    rw e (refl, here, refl, retry_refused q' id (after_reset w id row) again here (ground arith))
