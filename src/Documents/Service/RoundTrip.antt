-- ===== src/Documents/Service/RoundTrip.antt =====
-- A document that was created is read back.
use Prim.Native.Nat.{◌^◌}
use ai_system_engineering_cu.Base.{
  ◌≡◌, ◌≢◌, arith, true, false, none, some, List, [], Text, ℕ, ◌<◌, All, length, ◌==◌, text_eq,
  if◌then◌else◌, split,
}
use ai_system_engineering_cu.Effects.{pure, returned}
use ai_system_engineering_cu.Domain.Access.{AuthorizationContext, readable}
use ai_system_engineering_cu.Domain.Validation.{is_slug}
use ai_system_engineering_cu.Domain.Documents.{
  DocumentRecord, ChunkRecord, is_document, is_provenance,
}
use ai_system_engineering_cu.Domain.Chunking.{chunk_words}
use ai_system_engineering_cu.Domain.Chunking.Pieces.{words_of, chunk_document-Covers}
use ai_system_engineering_cu.Domain.Chunking.Labels.{chunk_document-Labelled}
use ai_system_engineering_cu.Documents.Calls.{Shared}
use ai_system_engineering_cu.Documents.Run.{run, run-bind}
use ai_system_engineering_cu.Documents.Repository.Saved.{
  stored_in, run-save_document, run-get_document,
}
use ai_system_engineering_cu.Documents.Repository.{save_document}
use ai_system_engineering_cu.Documents.Repository.Scope.{document_of-row_of_document}
use ai_system_engineering_cu.Documents.Service.{
  repository, save_chunked, create_document, read_document,
}

-- With a database that does what each statement asks: a document that passed its validators, with
-- a word in its body and fewer than 10^19 of them, whose identifier no row of the table has, is
-- created. Its row and those of its chunks, which hold the words of its body, are then in the
-- tables, and a read of it returns it to a caller that may read it and none to any other.
pub create_document-read_document :
    (casefold : Text → Text) (blake2b : Text → ℕ → ℕ) (document : DocumentRecord)
    (scope : AuthorizationContext) (s : Shared)
    → is_document document ≡ true
    → is_slug 80 document.access.tenant_id ≡ true
    → is_provenance document.provenance ≡ true
    → split document.body ≢ []
    → length (split document.body) < 10 ^ 19
    → All (λ row. (row.document_id == document.document_id) ≡ false) s.documents
    → (chunks : List ChunkRecord) × (run (create_document casefold blake2b true document) s
        ≡ (returned chunks, stored_in s document chunks))
      × (words_of chunks ≡ split document.body)
      × ((run (read_document true document.document_id scope) (stored_in s document chunks)).0
          ≡ returned (
              if readable scope document.access.tenant_id document.access.access_tier
              then some document
              else none))
unfolding create_document save_chunked repository read_document
create_document-read_document casefold blake2b document scope s doc slug custody some_word few
      fresh =
    let (chunks, cut, words, fits) =
      chunk_document-Covers casefold blake2b document chunk_words doc (omega arith) some_word few in
    let (parts, counted, distinct) =
      chunk_document-Labelled casefold blake2b document chunk_words chunks cut in
    (
      chunks,
      rw cut (
          run-bind (save_document document chunks) (λ _. pure chunks) s
            (stored_in s document chunks) tt (run-save_document document chunks s parts)),
      words,
      run-get_document document chunks scope s fresh
          (document_of-row_of_document document doc slug custody),
    )
