-- ===== src/Documents/Service/Errors.antt =====
-- The errors that leave the creation and the read of a document.
use ai_system_engineering_cu.Base.{ℕ, ◌≡◌, ◌⊎◌, inl, inr, refl, Bool, true, false, List, Text}
use ai_system_engineering_cu.Effects.{Outcome, returned, raised}
use ai_system_engineering_cu.Effects.Failure.{
  FailsAs, FailsAs-pure, FailsAs-raise, FailsAs-bind, FailsAs-weaken,
}
use ai_system_engineering_cu.Domain.Access.{AuthorizationContext}
use ai_system_engineering_cu.Domain.Documents.{DocumentRecord, ChunkRecord}
use ai_system_engineering_cu.Domain.Chunking.{
  ChunkingError, no_width, no_body_text, invalid_chunk, chunk_words, chunk_document,
}
use ai_system_engineering_cu.Documents.Calls.{Error, documents_unavailable}
use ai_system_engineering_cu.Documents.Repository.{save_document, get_document}
use ai_system_engineering_cu.Documents.Repository.Errors.{
  IsOwn, IsValueError, IsReadError, save_document-FailsAs, get_document-FailsAs,
}
use ai_system_engineering_cu.Documents.Service.{
  repository, as_error, save_chunked, create_document, read_document,
}

-- An error of the service, with those of the repository.
abbrev pub IsCreationError : Error → Type 0
IsCreationError e = IsOwn e ⊎ (e ≡ documents_unavailable) ⊎ IsValueError e

as_error-IsValueError : (e : ChunkingError) → IsValueError (as_error e)
unfolding as_error
as_error-IsValueError no_width = inl refl
as_error-IsValueError no_body_text = inl refl
as_error-IsValueError invalid_chunk = inr refl

repository-FailsAs :
    (P : Error → Type 0)
    → P documents_unavailable
    → (available : Bool) → FailsAs P (repository available)
unfolding repository
repository-FailsAs P p true = FailsAs-pure _ tt
repository-FailsAs P p false = FailsAs-raise _ _ p

save_chunked-FailsAs :
    (available : Bool) (document : DocumentRecord) (o : Outcome ChunkingError (List ChunkRecord))
    → FailsAs IsCreationError (save_chunked available document o)
unfolding save_chunked
save_chunked-FailsAs available document (raised e) =
    FailsAs-raise _ _ (inr (inr (as_error-IsValueError e)))
save_chunked-FailsAs available document (returned chunks) =
    FailsAs-bind _ (repository available) _ (repository-FailsAs _ (inr (inl refl)) available) (λ _.
      FailsAs-bind _ (save_document document chunks) _
        (FailsAs-weaken IsOwn IsCreationError (λ e h. inl h) (save_document document chunks)
          (save_document-FailsAs document chunks))
        (λ _. FailsAs-pure _ chunks))

-- A RepositoryError, an InterfaceError, a DocumentsUnavailable or a ValueError.
pub create_document-FailsAs :
    (casefold : Text → Text) (blake2b : Text → ℕ → ℕ) (available : Bool) (document : DocumentRecord)
    → FailsAs IsCreationError (create_document casefold blake2b available document)
unfolding create_document
create_document-FailsAs casefold blake2b available document =
    save_chunked-FailsAs available document (chunk_document casefold blake2b document chunk_words)

-- What a read gives, or the error of a service without a repository.
abbrev pub IsServiceReadError : Error → Type 0
IsServiceReadError e = (e ≡ documents_unavailable) ⊎ IsReadError e

pub read_document-FailsAs :
    (available : Bool) (document_id : Text) (scope : AuthorizationContext)
    → FailsAs IsServiceReadError (read_document available document_id scope)
unfolding read_document
read_document-FailsAs available document_id scope =
    FailsAs-bind _ (repository available) _ (repository-FailsAs _ (inl refl) available) (λ _.
      FailsAs-weaken IsReadError IsServiceReadError (λ e h. inr h) (get_document document_id scope)
        (get_document-FailsAs document_id scope))
