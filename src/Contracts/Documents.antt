-- ===== src/Contracts/Documents.antt =====
-- src/contract_intelligence/application/services/source_document_service.py: uploads and retries.
-- The hash, the storage key, the storage and the publisher are parameters; ids and the time are arguments.
pub mod Outcome
mod Tests
use estate_os_service.Base.{
  Uuid, Time, String, Bool, Option, none, some, List, [], ◌∷◌, ◌++◌, str_eq,
}
use estate_os_service.Exec.{Result, ok, err, Exec, pure, raise, or_raise, ◌>>=◌, ◌>>◌}
use estate_os_service.Uow.{Session, in_uow, commit, write}
use estate_os_service.Dict.{Dict, lookup, insert, values_where}
use estate_os_service.Contracts.Status.{Error, duplicate_hash, document_not_found, multiple_rows}
use estate_os_service.Contracts.Document
use estate_os_service.Contracts.Document.{SourceDocument}
use estate_os_service.Contracts.Store.{
  Tables, Command, World, Query, Service, get_by_id, load_lists, set_status,
}

-- What the service keeps outside the database: the keys of the stored files.
pub record Shelf : Type 0 where
  pub world : World
  pub files : List String

-- `file.filename or "untitled.pdf"`, `file.content_type or "application/pdf"` have been taken.
pub record Upload : Type 0 where
  pub content : String
  pub filename : String
  pub content_type : String

pub record Ports : Type 0 where
  pub sha256 : String → String
  pub storage_key : Uuid → Uuid → String → String
  pub upload : String → String → Result Error String
  -- `command_publisher.send`, to the ingestion queue
  pub send : Command → Result Error (Unit {0})

abbrev pub has_hash : String → SourceDocument → Bool
has_hash h d = str_eq d.document_hash h

-- `result.scalar_one_or_none()`
abbrev pub scalar_one_or_none : List SourceDocument → Query (Option SourceDocument)
scalar_one_or_none [] s = (ok none, s)
scalar_one_or_none (d ∷ []) s = (ok (some (load_lists s.working d)), s)
scalar_one_or_none (d ∷ e ∷ r) s = (err multiple_rows, s)

unfoldable pub get_by_hash : String → Query (Option SourceDocument)
get_by_hash h s = scalar_one_or_none (values_where (has_hash h) s.working.documents) s

-- `save`: the new row has the time at which it is written.
abbrev pub add_document : SourceDocument → Time → Tables → Tables
add_document d now t = record t {
  documents = insert d.id (record d { created_at = some now }) t.documents;
}

abbrev pub refuse_existing : Option SourceDocument → String → Query (Unit {0})
refuse_existing none h = pure tt
refuse_existing (some d) h = raise (duplicate_hash h)

-- The unit of work of `upload_source_document`.
unfoldable pub save_upload : SourceDocument → Time → Query SourceDocument
save_upload d now = do
  existing ← get_by_hash d.document_hash
  refuse_existing existing d.document_hash
  write (add_document d now)
  commit
  pure (record d { created_at = some now })

abbrev pub ingestion_requested : Uuid → Command
ingestion_requested id = record { event_type = "DOCUMENT_INGESTION_REQUESTED.v1"; document_id = id }

-- A send that raises ends the call, after the commit.
abbrev pub after_send :
    SourceDocument → Result Error (Unit {0}) → World → Result Error SourceDocument × World
after_send d (ok u) w = (ok d, record w { commands = w.commands ++ ingestion_requested d.id ∷ [] })
after_send d (err e) w = (err e, w)

-- After the block: the ingestion command is sent for the document that was stored.
abbrev pub request_ingestion :
    Ports → Result Error SourceDocument × Tables → World → Result Error SourceDocument × World
request_ingestion p (ok d, t) w =
    after_send d (p.send (ingestion_requested d.id)) (record w { tables = t })
request_ingestion p (err e, t) w = (err e, record w { tables = t })

abbrev pub stored_at :
    Ports
    → Upload
    → Uuid
    → Uuid
    → Time
    → Result Error String
    → Shelf
    → Result Error SourceDocument × Shelf
stored_at p u org fresh now (err e) s = (err e, s)
stored_at p u org fresh now (ok url) s =
    let d : SourceDocument =
      Document.create u.filename url u.content_type (p.sha256 u.content) fresh (some org) in
    let (r, w) = request_ingestion p (in_uow (save_upload d now) s.world.tables) s.world in
    (r, record { world = w; files = s.files ++ p.storage_key org fresh u.filename ∷ [] })

-- `SourceDocumentService.upload_source_document`
unfoldable pub upload_source_document :
    Ports → Upload → Uuid → Uuid → Time → Exec Error Shelf SourceDocument
unfolding save_upload
upload_source_document p u org fresh now s =
    stored_at p u org fresh now (p.upload (p.storage_key org fresh u.filename) u.content) s

abbrev pub lift : {A : Type 0} → Result Error A → Query A
lift r s = (r, s)

unfoldable pub retry_block : Uuid → Query SourceDocument
retry_block id = do
  found ← get_by_id id
  d ← or_raise found (document_not_found id)
  reset ← lift (Document.retry d)
  write (λ t. set_status reset.upload_status (lookup d.id t.documents) d.id t)
  commit
  pure reset

-- `SourceDocumentService.retry_document`
unfoldable pub retry_document : Ports → Uuid → Service SourceDocument
unfolding retry_block
retry_document p id w = request_ingestion p (in_uow (retry_block id) w.tables) w
