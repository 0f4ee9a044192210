-- ===== src/Domain/Documents.antt =====
-- src/domain/contracts.py: documents, their chunks and their custody records. A timestamp is a
-- count of microseconds.
use ai_system_engineering_cu.Base.{
  ℕ, Bool, ◌&&◌, Option, none, some, List, Text, Double, leb, length, if◌then◌else◌,
}
use ai_system_engineering_cu.Domain.Validation.{has_length, is_slug}
use ai_system_engineering_cu.Domain.Access.{AccessLabel}

pub record Provenance : Type 0 where
  pub source_uri : Text
  pub custodian : Text
  pub revision : Text
  pub recorded_at : ℕ

-- Building one validates its fields; `none` is a `ValidationError`, here and below.
unfoldable pub is_provenance : Provenance → Bool
is_provenance provenance =
    has_length 300 provenance.source_uri
    && has_length 120 provenance.custodian
    && has_length 40 provenance.revision

unfoldable pub provenance_of : Text → Text → Text → ℕ → Option Provenance
unfolding is_provenance
provenance_of source_uri custodian revision recorded_at =
    if is_provenance (record {
      source_uri = source_uri;
      custodian = custodian;
      revision = revision;
      recorded_at = recorded_at;
    })
    then some (record {
      source_uri = source_uri;
      custodian = custodian;
      revision = revision;
      recorded_at = recorded_at;
    })
    else none

pub record DocumentRecord : Type 0 where
  pub document_id : Text
  pub title : Text
  pub body : Text
  pub access : AccessLabel
  pub provenance : Provenance

unfoldable pub is_document : DocumentRecord → Bool
is_document document =
    is_slug 120 document.document_id
    && has_length 200 document.title
    && leb 1 (length document.body)

pub record ChunkRecord : Type 0 where
  pub chunk_id : Text
  pub document_id : Text
  pub chunk_index : ℕ
  pub text : Text
  pub embedding : List Double
  pub access : AccessLabel
  pub provenance : Provenance
