-- ===== src/Documents/Listing.antt =====
-- src/adapters/persistence/document_repository.py: the reads that give many rows, and the mapping
-- of a chunk row. Spans are left out.
pub mod Reads
use ai_system_engineering_cu.Base.{ℕ, Bool, Option, none, some, List, Text, Double, if◌then◌else◌}
use ai_system_engineering_cu.Effects.{
  pure, raise, call, Outcome, returned, raised, ◌>>=◌, attempt, each,
}
use ai_system_engineering_cu.Domain.Access.{
  AccessTier, tier_value, access_tier_of, AccessLabel, access_label, AuthorizationContext,
}
use ai_system_engineering_cu.Domain.Documents.{
  Provenance, provenance_of, DocumentRecord, ChunkRecord,
}
use ai_system_engineering_cu.Domain.Chunking.{is_chunk}
use ai_system_engineering_cu.Documents.Calls.{
  Action, Error, validation_error, value_error, DocumentRow, ChunkRow, select_documents,
  select_chunks,
}
use ai_system_engineering_cu.Documents.Repository.{got_or_raise, document_of, as_read_error}

-- The end of a read: a list comprehension over the rows.
abbrev pub or_raised : {A : Type 0} → Outcome Error A → Action A
or_raised (returned a) = pure a
or_raised (raised e) = raise e

after_documents : Outcome Error (List DocumentRow) → Action (List DocumentRecord)
unfolding as_read_error document_of each
after_documents (raised e) = raise (as_read_error e)
after_documents (returned rows) = or_raised (each document_of rows)

unfoldable pub list_documents : AuthorizationContext → Action (List DocumentRecord)
unfolding after_documents
list_documents scope = do
  rows ← attempt (call (select_documents scope.tenant_id (tier_value scope.clearance)) got_or_raise)
  after_documents rows

-- `ChunkRecord(...)`, which validates.
checked_chunk : ChunkRecord → Outcome Error ChunkRecord
unfolding is_chunk
checked_chunk chunk = if is_chunk chunk then returned chunk else raised validation_error

chunk_with_provenance :
    ChunkRow → List Double → AccessLabel → Option Provenance → Outcome Error ChunkRecord
unfolding checked_chunk
chunk_with_provenance row embedding access none = raised validation_error
chunk_with_provenance row embedding access (some provenance) = checked_chunk (record {
  chunk_id = row.chunk_id;
  document_id = row.document_id;
  chunk_index = row.chunk_index;
  text = row.chunk_text;
  embedding = embedding;
  access = access;
  provenance = provenance;
})

chunk_with_label : ChunkRow → List Double → Option AccessLabel → Outcome Error ChunkRecord
unfolding chunk_with_provenance
chunk_with_label row embedding none = raised validation_error
chunk_with_label row embedding (some access) = chunk_with_provenance row embedding access (
    provenance_of row.provenance_source_uri row.provenance_custodian row.provenance_revision
      row.provenance_recorded_at)

chunk_with_tier : ChunkRow → List Double → Option AccessTier → Outcome Error ChunkRecord
unfolding chunk_with_label
chunk_with_tier row embedding none = raised value_error
chunk_with_tier row embedding (some tier) =
    chunk_with_label row embedding (access_label row.tenant_id tier)

-- `floats` is `json.loads` of a text and `float` of its parts; `none` is a ValueError.
module _ (floats : Text → Option (List Double)) where
  chunk_with_embedding : ChunkRow → Option (List Double) → Outcome Error ChunkRecord
  unfolding chunk_with_tier
  chunk_with_embedding row none = raised value_error
  chunk_with_embedding row (some embedding) =
      chunk_with_tier row embedding (access_tier_of row.access_tier)

  -- `_chunk`: the arguments are evaluated in order, the embedding before the label.
  unfoldable pub chunk_of_row : ChunkRow → Outcome Error ChunkRecord
  unfolding chunk_with_embedding
  chunk_of_row row = chunk_with_embedding row (floats row.embedding)

  after_chunks : Outcome Error (List ChunkRow) → Action (List ChunkRecord)
  unfolding as_read_error chunk_of_row each
  after_chunks (raised e) = raise (as_read_error e)
  after_chunks (returned rows) = or_raised (each chunk_of_row rows)

  unfoldable pub get_chunks : Text → AuthorizationContext → Action (List ChunkRecord)
  unfolding after_chunks
  get_chunks document_id scope = do
    rows ←
        attempt (
          call (select_chunks document_id scope.tenant_id (tier_value scope.clearance))
            got_or_raise)
    after_chunks rows
