-- ===== src/Corpus/Loader.antt =====
-- src/adapters/persistence/corpus_loader.py: `CorpusLoader.load`, its writes and `_report`. Spans are left out.
pub mod Repeat
use ai_system_engineering_cu.Base.{
  ℕ, Bool, true, false, not, Option, none, some, List, [], ◌∷◌, ◌++◌, map, Text, literal, Table,
  lookup, length, elem, concat, ◌==◌, nat_eq, text_eq, text_leb, sort, join, decimal, if◌then◌else◌,
}
use ai_system_engineering_cu.Effects.{
  pure, raise, call, Outcome, returned, raised, ◌>>=◌, ◌>>◌, attempt, reply_or, each,
}
use ai_system_engineering_cu.Domain.Access.{tier_value}
use ai_system_engineering_cu.Domain.Documents.{DocumentRecord, ChunkRecord}
use ai_system_engineering_cu.Domain.Chunking.{
  ChunkingError, no_width, no_body_text, invalid_chunk, chunk_words, chunk_document,
}
use ai_system_engineering_cu.Documents.Repository.{row_of_document, row_of_chunk}
use ai_system_engineering_cu.Corpus.Calls.{
  Action, Error, corpus_fixture_error, value_error, key_error, type_error, validation_error,
  object_store_error, driver_error, Upsert, document_rows, chunk_rows, read_object, begin, commit,
  rollback, execute_many,
}
use ai_system_engineering_cu.Corpus.Lines.{Json, json_lines}
use ai_system_engineering_cu.Corpus.Reading.{value_or_raise, as_set, read_documents}

pub record LoadReport : Type 0 where
  pub documents : ℕ
  pub chunks : ℕ
  pub tenants : List Text
  pub access_tiers : List Text
  pub corpus_digest : Text

abbrev by_chunk_id : ChunkRecord → ChunkRecord → Bool
by_chunk_id a b = text_leb a.chunk_id b.chunk_id

as_chunk_error : ChunkingError → Error
as_chunk_error no_width = value_error
as_chunk_error no_body_text = value_error
as_chunk_error invalid_chunk = validation_error

chunked : Outcome ChunkingError (List ChunkRecord) → Outcome Error (List ChunkRecord)
unfolding as_chunk_error
chunked (returned chunks) = returned chunks
chunked (raised e) = raised (as_chunk_error e)

-- `casefold` and `blake2b` as for the vectors of the chunks.
unfoldable pub chunks_of :
    (Text → Text) → (Text → ℕ → ℕ) → DocumentRecord → Outcome Error (List ChunkRecord)
unfolding chunked chunk_document
chunks_of casefold blake2b document = chunked (chunk_document casefold blake2b document chunk_words)

-- `isoformat` is that of a timestamp, and `hexdigest` the digest of 16 bytes after these updates.
module _ (isoformat : ℕ → Text) (hexdigest : List Text → Text) where
  digested : ChunkRecord → Text
  unfolding decimal join
  digested chunk = join (b'|' ∷ []) (
      chunk.chunk_id
      ∷ chunk.document_id
      ∷ decimal chunk.chunk_index
      ∷ chunk.access.tenant_id
      ∷ tier_value chunk.access.access_tier
      ∷ chunk.provenance.source_uri
      ∷ chunk.provenance.custodian
      ∷ chunk.provenance.revision
      ∷ isoformat chunk.provenance.recorded_at
      ∷ [])

  unfoldable pub report : List DocumentRecord → List ChunkRecord → LoadReport
  unfolding digested as_set sort
  report documents chunks = record {
    documents = length documents;
    chunks = length chunks;
    tenants =
        sort text_leb
          (as_set (map (λ (document : DocumentRecord). document.access.tenant_id) documents));
    access_tiers = sort text_leb (
        as_set
          (map (λ (document : DocumentRecord). tier_value document.access.access_tier) documents));
    corpus_digest = hexdigest (map digested (sort by_chunk_id chunks));
  }

  write_rows : List DocumentRecord → List ChunkRecord → Action Unit
  unfolding row_of_document row_of_chunk
  write_rows documents chunks = do
    call (execute_many (document_rows (map row_of_document documents))) (reply_or driver_error)
    call (execute_many (chunk_rows (map row_of_chunk chunks))) (reply_or driver_error)

  -- The end of `async with connection.transaction()`.
  after_rows : Outcome Error Unit → Action Unit
  after_rows (returned done) = call commit (reply_or driver_error)
  after_rows (raised e) = do call rollback (reply_or driver_error); raise e

  unfoldable pub stored : List DocumentRecord → List ChunkRecord → Action LoadReport
  unfolding write_rows after_rows report
  stored documents chunks = do
    call begin (reply_or driver_error)
    done ← attempt (write_rows documents chunks)
    after_rows done
    pure (report documents chunks)

  module _ (json : Json) (casefold : Text → Text) (blake2b : Text → ℕ → ℕ) where
    unfoldable pub ingested : List DocumentRecord → Action LoadReport
    unfolding chunks_of each stored
    ingested documents = do
      chunks ← value_or_raise (each (chunks_of casefold blake2b) documents)
      stored documents (concat chunks)

    unfoldable pub load : Action LoadReport
    unfolding read_documents ingested
    load = do documents ← read_documents json; ingested documents
