-- ===== src/Routes/DocumentsV2.antt =====
-- src/api/extensions/api_v2.py: the version 2 route of a new document, with the contracts of
-- src/api/v2_contracts.py. The route makes the statements of two components.
pub mod Replay
pub mod Run
pub mod Steps
pub mod Once
use ai_system_engineering_cu.Base.{
  ℕ, Bool, true, false, Option, Text, literal, List, length, leb, ◌&&◌, if◌then◌else◌,
}
use ai_system_engineering_cu.Effects.{
  Program, pure, raise, call, Outcome, returned, raised, ◌>>=◌, attempt,
}
use ai_system_engineering_cu.Domain.Documents.{DocumentRecord, ChunkRecord}
use ai_system_engineering_cu.Domain.Validation.{has_length}
use ai_system_engineering_cu.Documents.Calls as documents
use ai_system_engineering_cu.Documents.Service.{create_document}
use ai_system_engineering_cu.Idempotency.Calls as idempotency
use ai_system_engineering_cu.Idempotency.Calls.{
  Error, operation_error, insert_claim, select_claim, update_claim, delete_claim, perform,
}
use ai_system_engineering_cu.Idempotency.Handler.{Answered, run}

abbrev pub documents_operation_id : Text
documents_operation_id = literal "documents_v2_create"

pub record DocumentV2Request : Type 0 where
  pub document : DocumentRecord
  pub source_system : Text

-- `Field(min_length=1, max_length=120)`; the document has validators of its own.
unfoldable pub is_document_v2_request : DocumentV2Request → Bool
unfolding has_length
is_document_v2_request request = has_length 120 request.source_system

pub record DocumentV2Response : Type 0 where
  pub document_id : Text
  pub chunk_count : ℕ
  pub source_system : Text

pub data Call : Type 0 where
  claims_call : idempotency.Call → Call
  documents_call : documents.Call → Call

abbrev pub Answer : Call → Type 0
Answer (claims_call c) = idempotency.Answer c
Answer (documents_call c) = documents.Answer c

abbrev pub Action : Type 0 → Type 0
Action A = Program Call Answer Error A

-- An error of the document service is one of the operation.
abbrev pub on_documents : {A : Type 0} → documents.Action A → Action A
on_documents (pure a) = pure a
on_documents (raise e) = raise operation_error
on_documents (call c k) = call (documents_call c) (λ a. on_documents (k a))

-- The handler, with the operation that it calls.
abbrev pub protecting : {A : Type 0} → Action (ℕ × Text) → idempotency.Action A → Action A
protecting operation (pure a) = pure a
protecting operation (raise e) = raise e
protecting operation (call (insert_claim key operation_id) k) =
    call (claims_call (insert_claim key operation_id)) (λ a. protecting operation (k a))
protecting operation (call (select_claim key) k) =
    call (claims_call (select_claim key)) (λ a. protecting operation (k a))
protecting operation (call (update_claim key operation_id status body) k) =
    call (claims_call (update_claim key operation_id status body)) (λ a. protecting operation (k a))
protecting operation (call (delete_claim key operation_id) k) =
    call (claims_call (delete_claim key operation_id)) (λ a. protecting operation (k a))
protecting operation (call (perform key) k) =
    attempt operation >>= λ outcome. protecting operation (k outcome)

-- `kept` makes a text of the payload, as the handler keeps it.
unfoldable pub operation_v2 :
    (Text → Text)
    → (Text → ℕ → ℕ)
    → (DocumentV2Response → Text)
    → Bool
    → DocumentV2Request
    → documents.Action (ℕ × Text)
unfolding create_document
operation_v2 casefold blake2b kept available payload = do
  chunks ← create_document casefold blake2b available payload.document
  pure (
    201,
    kept (record {
      document_id = payload.document.document_id;
      chunk_count = length chunks;
      source_system = payload.source_system;
    }),
  )

-- `dump`, `encode` and `loads` are those of the handler.
unfoldable pub create_document_v2 :
    (Text → Text)
    → (Text → ℕ → ℕ)
    → (DocumentV2Response → Text)
    → (dump encode loads : Text → Text) → Bool
    → DocumentV2Request
    → Option Text
    → Action Answered
unfolding operation_v2 run
create_document_v2 casefold blake2b kept dump encode loads available payload header =
    protecting (on_documents (operation_v2 casefold blake2b kept available payload))
      (run dump encode loads documents_operation_id header)
