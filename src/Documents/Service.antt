-- ===== src/Documents/Service.antt =====
-- src/api/document_service.py: `DocumentService`. The provider gives a repository, or none.
pub mod RoundTrip
pub mod Errors
use ai_system_engineering_cu.Base.{ℕ, Bool, true, false, Option, List, Text, Double}
use ai_system_engineering_cu.Effects.{pure, raise, Outcome, returned, raised, ◌>>=◌, ◌>>◌}
use ai_system_engineering_cu.Domain.Access.{AuthorizationContext}
use ai_system_engineering_cu.Domain.Documents.{DocumentRecord, ChunkRecord}
use ai_system_engineering_cu.Domain.Chunking.{
  ChunkingError, no_width, no_body_text, invalid_chunk, chunk_words, chunk_document,
}
use ai_system_engineering_cu.Documents.Calls.{
  Action, Error, value_error, validation_error, documents_unavailable,
}
use ai_system_engineering_cu.Documents.Repository.{save_document, get_document}
use ai_system_engineering_cu.Documents.Listing.{list_documents, get_chunks}

-- `_repository`
unfoldable pub repository : Bool → Action Unit
repository true = pure tt
repository false = raise documents_unavailable

as_error : ChunkingError → Error
as_error no_width = value_error
as_error no_body_text = value_error
as_error invalid_chunk = validation_error

save_chunked :
    Bool → DocumentRecord → Outcome ChunkingError (List ChunkRecord) → Action (List ChunkRecord)
unfolding repository as_error save_document
save_chunked available document (raised e) = raise (as_error e)
save_chunked available document (returned chunks) = do
  repository available
  save_document document chunks
  pure chunks

unfoldable pub create_document :
    (Text → Text) → (Text → ℕ → ℕ) → Bool → DocumentRecord → Action (List ChunkRecord)
unfolding save_chunked chunk_document
create_document casefold blake2b available document =
    save_chunked available document (chunk_document casefold blake2b document chunk_words)

unfoldable pub read_document : Bool → Text → AuthorizationContext → Action (Option DocumentRecord)
unfolding repository get_document
read_document available document_id scope = do repository available; get_document document_id scope

unfoldable pub list_all : Bool → AuthorizationContext → Action (List DocumentRecord)
unfolding repository list_documents
list_all available scope = do repository available; list_documents scope

unfoldable pub chunks_of :
    (Text → Option (List Double)) → Bool → Text → AuthorizationContext → Action (List ChunkRecord)
unfolding repository get_chunks
chunks_of floats available document_id scope = do
  repository available
  get_chunks floats document_id scope
