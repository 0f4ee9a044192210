-- ===== src/Documents/Examples.antt =====
-- The theorems about documents at concrete inputs.
use ai_system_engineering_cu.Base.{
  ℕ, ◌+◌, ◌*◌, ◌≡◌, refl, arith, Option, some, none, true, List, [], ◌∷◌, Text, literal, Double,
  length, split, is_space, attach, cons_head, if◌then◌else◌,
}
use ai_system_engineering_cu.Effects.{returned, Maps}
use ai_system_engineering_cu.Effects.Interference.{Ensures}
use ai_system_engineering_cu.Effects.Failure.{FailsAs}
use ai_system_engineering_cu.Documents.Repository.Errors.{IsOwn, save_document-FailsAs}
use ai_system_engineering_cu.Domain.Access.{
  standard, restricted, tier_value, AuthorizationContext, readable,
}
use ai_system_engineering_cu.Domain.Validation.{is_slug, has_length}
use ai_system_engineering_cu.Domain.Documents.{
  DocumentRecord, ChunkRecord, is_document, is_provenance,
}
use ai_system_engineering_cu.Domain.Chunking.Pieces.{words_of}
use ai_system_engineering_cu.Documents.Calls.{Shared, Performs, in_scope, DocumentRow}
use ai_system_engineering_cu.Documents.Listing.{list_documents}
use ai_system_engineering_cu.Documents.Listing.Reads.{DocumentsRead, list_documents-ReadsRows}
use ai_system_engineering_cu.Documents.Repository.Saved.{stored_in}
use ai_system_engineering_cu.Documents.Run.{run}
use ai_system_engineering_cu.Documents.Service.{create_document, read_document}
use ai_system_engineering_cu.Documents.Service.RoundTrip.{create_document-read_document}
use ai_system_engineering_cu.Documents.Repository.{
  row_of_document, document_of, save_document, get_document,
}
use ai_system_engineering_cu.Documents.Repository.Scope.{
  in_scope-readable, document_of-row_of_document, ReadsRow, get_document-ReadsRow,
}
use ai_system_engineering_cu.Documents.Repository.Atomic.{
  KeepsTransaction, CommitsOnly, rows_of, save_document-CommitsOnly,
}

abbrev caller : AuthorizationContext
caller = record { tenant_id = literal "t-a"; clearance = restricted }

abbrev document : DocumentRecord
document = record {
  document_id = literal "d-1";
  title = literal "Handling";
  body = literal "keep it cold";
  access = record { tenant_id = literal "t-a"; access_tier = restricted };
  provenance = record {
    source_uri = literal "s3://corpus/d-1";
    custodian = literal "quality";
    revision = literal "r1";
    recorded_at = 5;
  };
}

abbrev chunk : ChunkRecord
chunk = record {
  chunk_id = literal "d-1#0000";
  document_id = literal "d-1";
  chunk_index = 0;
  text = literal "keep it cold";
  embedding = [];
  access = document.access;
  provenance = document.provenance;
}

abbrev stored : Shared
stored = record { documents = row_of_document document ∷ []; chunks = []; pending = [] }

in_scope-readable_example :
    in_scope caller.tenant_id (tier_value caller.clearance) (literal "t-b") (tier_value standard)
    ≡ readable caller (literal "t-b") standard
in_scope-readable_example = in_scope-readable caller (literal "t-b") standard

document_of-row_of_document_example : document_of (row_of_document document) ≡ returned document
unfolding is_document is_slug is_provenance has_length
document_of-row_of_document_example = document_of-row_of_document document refl refl refl

get_document-ReadsRow_example :
    Ensures Performs
      (λ _ _. Unit {0})
      (λ _ _. Unit {0})
      (ReadsRow (literal "d-1") caller)
      (get_document (literal "d-1") caller)
      stored
get_document-ReadsRow_example = get_document-ReadsRow (literal "d-1") caller stored

save_document-CommitsOnly_example :
    Ensures Performs KeepsTransaction
      (CommitsOnly (rows_of document (chunk ∷ [])))
      (λ _ _. Unit {0})
      (save_document document (chunk ∷ []))
      stored
save_document-CommitsOnly_example = save_document-CommitsOnly document (chunk ∷ []) stored

save_document-FailsAs_example : FailsAs IsOwn (save_document document (chunk ∷ []))
save_document-FailsAs_example = save_document-FailsAs document (chunk ∷ [])

-- A lower-case text, a digest of its length, and no vector for any text.
abbrev lower : Text → Text
lower s = s

abbrev digest : Text → ℕ → ℕ
digest s i = length s * 7 + i

abbrev no_floats : Text → Option (List Double)
no_floats s = none

abbrev nothing_stored : Shared
nothing_stored = record { documents = []; chunks = []; pending = [] }

create_document-read_document_example :
    (chunks : List ChunkRecord) × (run (create_document lower digest true document) nothing_stored
      ≡ (returned chunks, stored_in nothing_stored document chunks))
    × (words_of chunks ≡ split document.body)
    × ((run
          (read_document true document.document_id caller)
          (stored_in nothing_stored document chunks)).0
        ≡ returned (
            if readable caller document.access.tenant_id document.access.access_tier
            then some document
            else none))
unfolding is_document is_slug is_provenance has_length split is_space attach cons_head
create_document-read_document_example =
    create_document-read_document lower digest document caller nothing_stored refl refl refl
      (λ h. cc) (omega arith) tt

list_documents-ReadsRows_example :
    Ensures Performs
      (λ _ _. Unit {0})
      (λ _ _. Unit {0})
      (λ documents t.
        (rows : List DocumentRow) × DocumentsRead caller rows t × Maps document_of rows documents)
      (list_documents caller)
      stored
list_documents-ReadsRows_example = list_documents-ReadsRows caller stored
