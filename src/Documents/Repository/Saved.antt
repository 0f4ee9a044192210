-- ===== src/Documents/Repository/Saved.antt =====
-- A save alone with a database that does what each statement asks, and a read after it.
use ai_system_engineering_cu.Base.{
  ◌≡◌, true, refl, sym, ap, ◌∙◌, Bool, false, none, some, List, [], ◌∷◌, ◌++◌, map, Text, All, ◌==◌,
  text_eq, text_beq_refl, if◌then◌else◌,
}
use ai_system_engineering_cu.Effects.{returned, attempt}
use ai_system_engineering_cu.Domain.Access.{AuthorizationContext, tier_value, readable}
use ai_system_engineering_cu.Domain.Documents.{DocumentRecord, ChunkRecord}
use ai_system_engineering_cu.Domain.Chunking.Labels.{IsChunkOf}
use ai_system_engineering_cu.Documents.Calls.{
  Shared, DocumentRow, Insert, document_row, chunk_row, applied, found, in_scope,
}
use ai_system_engineering_cu.Documents.Run.{run, run-attempt, run-bind}
use ai_system_engineering_cu.Documents.Repository.{
  row_of_document, row_of_chunk, has_foreign, insert_chunks, inserts, after_inserts, transaction,
  after_use, on_connection, after_transaction, save_document, document_of, after_select,
  get_document,
}
use ai_system_engineering_cu.Documents.Repository.Scope.{in_scope-readable}

-- The tables with the rows of a document and of its chunks behind what they held.
abbrev pub stored_in : Shared → DocumentRecord → List ChunkRecord → Shared
stored_in s document chunks = record {
  documents = s.documents ++ row_of_document document ∷ [];
  chunks = s.chunks ++ map row_of_chunk chunks;
  pending = [];
}

has_foreign_none :
    (document : DocumentRecord) (chunks : List ChunkRecord)
    → All (IsChunkOf document) chunks
    → has_foreign document.document_id chunks ≡ false
unfolding has_foreign
has_foreign_none document [] h = refl
has_foreign_none document (chunk ∷ chunks) h =
    rw (h.0.same_document, text_beq_refl document.document_id)
      (has_foreign_none document chunks h.1)

abbrev chunk_inserts : List ChunkRecord → List Insert
chunk_inserts = map (λ chunk. chunk_row (row_of_chunk chunk))

append_one : {A : Type 0} (xs : List A) (x : A) (ys : List A) → (xs ++ x ∷ []) ++ ys ≡ xs ++ x ∷ ys
append_one [] x ys = refl
append_one (y ∷ xs) x ys = ap (λ zs. y ∷ zs) (append_one xs x ys)

append_nil : {A : Type 0} (xs : List A) → xs ++ [] ≡ xs
append_nil [] = refl
append_nil (x ∷ xs) = ap (λ ys. x ∷ ys) (append_nil xs)

run-insert_chunks :
    (chunks : List ChunkRecord) (s : Shared)
    → run (insert_chunks chunks) s
      ≡ (returned tt, record s { pending = s.pending ++ chunk_inserts chunks })
unfolding insert_chunks
run-insert_chunks [] s =
    ap (λ p. (returned tt, record s { pending = p })) (sym (append_nil s.pending))
run-insert_chunks (chunk ∷ chunks) s =
    run-insert_chunks chunks
      (record s { pending = s.pending ++ chunk_row (row_of_chunk chunk) ∷ [] })
    ∙ ap (λ p. (returned tt, record s { pending = p }))
        (append_one s.pending (chunk_row (row_of_chunk chunk)) (chunk_inserts chunks))

applied-chunk_inserts :
    (chunks : List ChunkRecord) (s : Shared)
    → applied (chunk_inserts chunks) s ≡ record s { chunks = s.chunks ++ map row_of_chunk chunks }
unfolding applied
applied-chunk_inserts [] s = ap (λ c. record s { chunks = c }) (sym (append_nil s.chunks))
applied-chunk_inserts (chunk ∷ chunks) s =
    applied-chunk_inserts chunks (record s { chunks = s.chunks ++ row_of_chunk chunk ∷ [] })
    ∙ ap (λ c. record s { chunks = c })
        (append_one s.chunks (row_of_chunk chunk) (map row_of_chunk chunks))

run-inserts :
    (document : DocumentRecord) (chunks : List ChunkRecord) (s : Shared)
    → s.pending ≡ []
    → run (inserts document chunks) s ≡ (
      returned tt,
      record s { pending = document_row (row_of_document document) ∷ chunk_inserts chunks },
    )
unfolding inserts
run-inserts document chunks s h =
    run-insert_chunks chunks
      (record s { pending = s.pending ++ document_row (row_of_document document) ∷ [] })
    ∙ ap
        (λ p. (
          returned tt,
          record s {
            pending = (p ++ document_row (row_of_document document) ∷ []) ++ chunk_inserts chunks;
          },
        ))
        h

run-transaction :
    (document : DocumentRecord) (chunks : List ChunkRecord) (s : Shared)
    → run (transaction document chunks) s ≡ (returned tt, stored_in s document chunks)
unfolding transaction after_inserts applied
run-transaction document chunks s =
    run-bind (attempt (inserts document chunks)) after_inserts (record s { pending = [] }) _
      (returned tt)
      (run-attempt (inserts document chunks) (record s { pending = [] })
        ∙ ap (λ r. (returned r.0, r.1))
            (run-inserts document chunks (record s { pending = [] }) refl))
    ∙ ap (λ u. (returned tt, record u { pending = [] }))
        (applied-chunk_inserts chunks (record s {
          documents = s.documents ++ row_of_document document ∷ [];
          pending = document_row (row_of_document document) ∷ chunk_inserts chunks;
        }))

run-on_connection :
    (document : DocumentRecord) (chunks : List ChunkRecord) (s : Shared)
    → run (on_connection document chunks) s ≡ (returned tt, stored_in s document chunks)
unfolding on_connection after_use
run-on_connection document chunks s =
    run-bind (attempt (transaction document chunks)) after_use s (stored_in s document chunks)
      (returned tt)
      (run-attempt (transaction document chunks) s
        ∙ ap (λ r. (returned r.0, r.1)) (run-transaction document chunks s))

pub run-save_document :
    (document : DocumentRecord) (chunks : List ChunkRecord) (s : Shared)
    → All (IsChunkOf document) chunks
    → run (save_document document chunks) s ≡ (returned tt, stored_in s document chunks)
unfolding save_document after_transaction
run-save_document document chunks s h = rw (has_foreign_none document chunks h) (
    run-bind (attempt (on_connection document chunks)) after_transaction s
      (stored_in s document chunks) (returned tt)
      (run-attempt (on_connection document chunks) s
        ∙ ap (λ r. (returned r.0, r.1)) (run-on_connection document chunks s)))

found_fresh :
    (document_id tenant clearance : Text) (rows : List DocumentRow) (row : DocumentRow)
    → All (λ old. (old.document_id == document_id) ≡ false) rows
    → row.document_id ≡ document_id
    → found document_id tenant clearance (rows ++ row ∷ [])
      ≡ (if in_scope tenant clearance row.tenant_id row.access_tier then some row else none)
unfolding found
found_fresh document_id tenant clearance [] row h e = rw (e, text_beq_refl document_id) refl
found_fresh document_id tenant clearance (old ∷ rows) row h e =
    rw h.0 (found_fresh document_id tenant clearance rows row h.1 e)

found_document :
    (document : DocumentRecord) (scope : AuthorizationContext) (rows : List DocumentRow)
    → All (λ row. (row.document_id == document.document_id) ≡ false) rows
    → found document.document_id scope.tenant_id
        (tier_value scope.clearance)
        (rows ++ row_of_document document ∷ [])
      ≡ (if readable scope document.access.tenant_id document.access.access_tier
          then some (row_of_document document)
          else none)
unfolding row_of_document
found_document document scope rows fresh =
    found_fresh document.document_id scope.tenant_id (tier_value scope.clearance) rows
      (row_of_document document) fresh refl
    ∙ ap (λ b. if b then some (row_of_document document) else none)
        (in_scope-readable scope document.access.tenant_id document.access.access_tier)

-- A read after the save: the document, for a caller that may read it.
pub run-get_document :
    (document : DocumentRecord) (chunks : List ChunkRecord) (scope : AuthorizationContext)
    (s : Shared)
    → All (λ row. (row.document_id == document.document_id) ≡ false) s.documents
    → document_of (row_of_document document) ≡ returned document
    → (run (get_document document.document_id scope) (stored_in s document chunks)).0
      ≡ returned (
          if readable scope document.access.tenant_id document.access.access_tier
          then some document
          else none)
unfolding get_document after_select
run-get_document document chunks scope s fresh back =
    ap (λ o. (run (after_select (returned o)) (stored_in s document chunks)).0)
      (found_document document scope s.documents fresh)
    ∙ by_readable (readable scope document.access.tenant_id document.access.access_tier)
  where
    by_readable :
        (b : Bool)
        → (run
            (after_select (returned (if b then some (row_of_document document) else none)))
            (stored_in s document chunks)).0
          ≡ returned (if b then some document else none)
    by_readable true = rw (after_select, back) refl
    by_readable false = refl
