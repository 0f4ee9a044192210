-- ===== src/Routes/Documents.antt =====
-- src/api/routes.py: the document routes. The arguments are those that FastAPI has parsed; it
-- answers 422 where a bound of a query parameter fails.
pub mod Reads
pub mod Errors
use ai_system_engineering_cu.Base.{
  ℕ, Bool, not, Option, none, some, List, Text, Double, map, if◌then◌else◌,
}
use ai_system_engineering_cu.Effects.{pure, ◌>>=◌, attempt, or_raise}
use ai_system_engineering_cu.Domain.Validation.{has_length}
use ai_system_engineering_cu.Domain.Access.{AccessTier, AuthorizationContext, authorization_context}
use ai_system_engineering_cu.Domain.Documents.{DocumentRecord, ChunkRecord}
use ai_system_engineering_cu.Documents.Calls.{
  Action, Error, repository_error, validation_error, documents_unavailable,
}
use ai_system_engineering_cu.Documents.Service.{create_document, read_document, list_all, chunks_of}
use ai_system_engineering_cu.Routes.Http.{Response, responded, refused, answered}

pub record StoredDocument : Type 0 where
  pub document : DocumentRecord
  pub chunk_ids : List Text

pub record ChunkListing : Type 0 where
  pub document_id : Text
  pub chunks : List ChunkRecord

create_status : Error → Option ℕ
create_status documents_unavailable = some 503
create_status repository_error = some 409
create_status _ = none

read_status : Error → Option ℕ
read_status documents_unavailable = some 503
read_status repository_error = some 503
read_status _ = none

abbrev created_response : DocumentRecord → List ChunkRecord → Response StoredDocument
created_response document chunks = responded 201 (record {
  document = document;
  chunk_ids = map (λ (chunk : ChunkRecord). chunk.chunk_id) chunks;
})

-- `available` says whether a repository is composed.
unfoldable pub post_document :
    (Text → Text) → (Text → ℕ → ℕ) → Bool → DocumentRecord → Action (Response StoredDocument)
unfolding create_status create_document
post_document casefold blake2b available document = do
  chunks ← attempt (create_document casefold blake2b available document)
  answered create_status (created_response document) chunks

-- `_scope`; its ValidationError is raised in the `try` of the route.
unfoldable pub scope_of : Text → AccessTier → Action AuthorizationContext
unfolding authorization_context
scope_of tenant_id clearance = or_raise validation_error (authorization_context tenant_id clearance)

-- `Query(min_length=1, max_length=80)`
abbrev in_bounds : {A : Type 0} → Text → Action (Response A) → Action (Response A)
in_bounds tenant_id route = if not (has_length 80 tenant_id) then pure (refused 422) else route

unfoldable pub get_documents : Bool → Text → AccessTier → Action (Response (List DocumentRecord))
unfolding scope_of read_status list_all has_length
get_documents available tenant_id clearance = in_bounds tenant_id (do
  stored ← attempt (do scope ← scope_of tenant_id clearance; list_all available scope)
  answered read_status (responded 200) stored)

abbrev found_or_404 : Option DocumentRecord → Response DocumentRecord
found_or_404 none = refused 404
found_or_404 (some document) = responded 200 document

unfoldable pub get_one_document : Bool → Text → Text → AccessTier → Action (Response DocumentRecord)
unfolding scope_of read_status read_document has_length
get_one_document available document_id tenant_id clearance = in_bounds tenant_id (do
  stored ←
      attempt (do scope ← scope_of tenant_id clearance; read_document available document_id scope)
  answered read_status found_or_404 stored)

abbrev chunk_listing : Text → List ChunkRecord → Response ChunkListing
chunk_listing document_id chunks =
    responded 200 (record { document_id = document_id; chunks = chunks })

unfoldable pub get_document_chunks :
    (Text → Option (List Double)) → Bool → Text → Text → AccessTier → Action (Response ChunkListing)
unfolding scope_of read_status chunks_of has_length
get_document_chunks floats available document_id tenant_id clearance = in_bounds tenant_id (do
  stored ←
      attempt
        (do scope ← scope_of tenant_id clearance; chunks_of floats available document_id scope)
  answered read_status (chunk_listing document_id) stored)
