-- ===== src/Documents/Repository.antt =====
-- src/adapters/persistence/document_repository.py: `PostgresDocumentRepository`, its save and its
-- read of one document. Spans are left out.
pub mod Scope
pub mod Atomic
pub mod Errors
pub mod Saved
use ai_system_engineering_cu.Base.{
  ℕ, Bool, true, false, not, Option, none, some, List, [], ◌∷◌, Text, ◌==◌, text_eq, if◌then◌else◌,
}
use ai_system_engineering_cu.Effects.{
  pure, raise, call, Outcome, returned, raised, ◌>>=◌, ◌>>◌, attempt, or_raise,
}
use ai_system_engineering_cu.Domain.Access.{
  AccessTier, tier_value, access_tier_of, AccessLabel, access_label, AuthorizationContext,
}
use ai_system_engineering_cu.Domain.Documents.{
  Provenance, provenance_of, DocumentRecord, is_document, ChunkRecord,
}
use ai_system_engineering_cu.Domain.Embedding.{format_vector}
use ai_system_engineering_cu.Documents.Calls.{
  Action, Error, repository_error, validation_error, value_error, postgres_error, os_error,
  interface_error, DocumentRow, ChunkRow, Insert, document_row, chunk_row, Got, got, rejected,
  unreachable, unusable, acquire, release, begin, commit, rollback, execute, select_document,
}

abbrev pub got_or_raise : {A : Type 0} → Got A → Action A
got_or_raise (got a) = pure a
got_or_raise rejected = raise postgres_error
got_or_raise unreachable = raise os_error
got_or_raise unusable = raise interface_error

-- The values that the INSERT of a document binds.
unfoldable pub row_of_document : DocumentRecord → DocumentRow
row_of_document document = record {
  document_id = document.document_id;
  title = document.title;
  body = document.body;
  tenant_id = document.access.tenant_id;
  access_tier = tier_value document.access.access_tier;
  provenance_source_uri = document.provenance.source_uri;
  provenance_custodian = document.provenance.custodian;
  provenance_revision = document.provenance.revision;
  provenance_recorded_at = document.provenance.recorded_at;
}

-- `_label`, `_provenance` and `_document`, on a row.
checked_document : DocumentRecord → Outcome Error DocumentRecord
checked_document document =
    if is_document document then returned document else raised validation_error

with_provenance : DocumentRow → AccessLabel → Option Provenance → Outcome Error DocumentRecord
unfolding checked_document
with_provenance row access none = raised validation_error
with_provenance row access (some provenance) = checked_document (record {
  document_id = row.document_id;
  title = row.title;
  body = row.body;
  access = access;
  provenance = provenance;
})

with_label : DocumentRow → Option AccessLabel → Outcome Error DocumentRecord
unfolding with_provenance
with_label row none = raised validation_error
with_label row (some access) = with_provenance row access (
    provenance_of row.provenance_source_uri row.provenance_custodian row.provenance_revision
      row.provenance_recorded_at)

with_tier : DocumentRow → Option AccessTier → Outcome Error DocumentRecord
unfolding with_label
with_tier row none = raised value_error
with_tier row (some tier) = with_label row (access_label row.tenant_id tier)

unfoldable pub document_of : DocumentRow → Outcome Error DocumentRecord
unfolding with_tier
document_of row = with_tier row (access_tier_of row.access_tier)

-- The `except` clause of the reads: a `PostgresError` only.
unfoldable pub as_read_error : Error → Error
as_read_error postgres_error = repository_error
as_read_error e = e

after_select : Outcome Error (Option DocumentRow) → Action (Option DocumentRecord)
unfolding as_read_error document_of
after_select (raised e) = raise (as_read_error e)
after_select (returned none) = pure none
after_select (returned (some row)) = elim (document_of row) [
  | returned document ↦ pure (some document)
  | raised e ↦ raise e
]

unfoldable pub get_document : Text → AuthorizationContext → Action (Option DocumentRecord)
unfolding after_select
get_document document_id scope = do
  row ←
      attempt (
        call (select_document document_id scope.tenant_id (tier_value scope.clearance))
          got_or_raise)
  after_select row

-- Does a chunk belong to another document?
unfoldable pub has_foreign : Text → List ChunkRecord → Bool
has_foreign document_id [] = false
has_foreign document_id (chunk ∷ chunks) =
    let rest = has_foreign document_id chunks in
    if not (chunk.document_id == document_id) then true else rest

-- The end of `async with connection.transaction()`.
after_inserts : Outcome Error Unit → Action Unit
after_inserts (returned done) = call commit got_or_raise
after_inserts (raised e) = do call rollback got_or_raise; raise e

-- The end of `async with self._pool.acquire()`: the connection is released, and an error of that
-- takes the place of the one before.
after_use : Outcome Error Unit → Action Unit
after_use (returned done) = call release got_or_raise
after_use (raised e) = do call release got_or_raise; raise e

-- The `except` clauses of the save.
unfoldable pub as_save_error : Error → Error
as_save_error postgres_error = repository_error
as_save_error os_error = repository_error
as_save_error e = e

after_transaction : Outcome Error Unit → Action Unit
unfolding as_save_error
after_transaction (returned done) = pure tt
after_transaction (raised e) = raise (as_save_error e)

unfoldable pub row_of_chunk : ChunkRecord → ChunkRow
unfolding format_vector
row_of_chunk chunk = record {
  chunk_id = chunk.chunk_id;
  document_id = chunk.document_id;
  chunk_index = chunk.chunk_index;
  chunk_text = chunk.text;
  embedding = format_vector chunk.embedding;
  tenant_id = chunk.access.tenant_id;
  access_tier = tier_value chunk.access.access_tier;
  provenance_source_uri = chunk.provenance.source_uri;
  provenance_custodian = chunk.provenance.custodian;
  provenance_revision = chunk.provenance.revision;
  provenance_recorded_at = chunk.provenance.recorded_at;
}

insert_chunks : List ChunkRecord → Action Unit
unfolding row_of_chunk
insert_chunks [] = pure tt
insert_chunks (chunk ∷ chunks) = do
  call (execute (chunk_row (row_of_chunk chunk))) got_or_raise
  insert_chunks chunks

inserts : DocumentRecord → List ChunkRecord → Action Unit
unfolding row_of_document insert_chunks
inserts document chunks = do
  call (execute (document_row (row_of_document document))) got_or_raise
  insert_chunks chunks

unfoldable pub transaction : DocumentRecord → List ChunkRecord → Action Unit
unfolding inserts after_inserts
transaction document chunks = do
  call begin got_or_raise
  done ← attempt (inserts document chunks)
  after_inserts done

unfoldable pub on_connection : DocumentRecord → List ChunkRecord → Action Unit
unfolding transaction after_use
on_connection document chunks = do
  call acquire got_or_raise
  done ← attempt (transaction document chunks)
  after_use done

unfoldable pub save_document : DocumentRecord → List ChunkRecord → Action Unit
unfolding has_foreign on_connection after_transaction
save_document document chunks =
    if has_foreign document.document_id chunks
    then raise repository_error
    else do done ← attempt (on_connection document chunks); after_transaction done
