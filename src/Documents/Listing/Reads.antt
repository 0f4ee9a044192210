-- ===== src/Documents/Listing/Reads.antt =====
-- What the reads of many rows return.
use ai_system_engineering_cu.Base.{
  ◌≡◌, refl, subst, sym, true, Option, some, List, Text, Double, IsSorted,
}
use ai_system_engineering_cu.Effects.{
  Outcome, returned, raised, call, attempt, each, Maps, each-Maps,
}
use ai_system_engineering_cu.Effects.Interference.{
  Ensures, OfReturned, Ensures-pure, Ensures-raise, Ensures-call, Ensures-bind, Ensures-attempt,
}
use ai_system_engineering_cu.Domain.Access.{tier_value, access_label, AuthorizationContext}
use ai_system_engineering_cu.Domain.Validation.{is_slug}
use ai_system_engineering_cu.Domain.Documents.{ChunkRecord, is_provenance, provenance_of}
use ai_system_engineering_cu.Domain.Embedding.{format_vector}
use ai_system_engineering_cu.Domain.Chunking.{is_chunk}
use ai_system_engineering_cu.Documents.Calls.{
  Action, Error, Shared, DocumentRow, ChunkRow, Performs, Got, got, rejected, unreachable, unusable,
  keeps_document, keeps_chunk, by_index, Selects, select_documents, select_chunks,
}
use ai_system_engineering_cu.Documents.Repository.{got_or_raise, document_of, row_of_chunk}
use ai_system_engineering_cu.Documents.Repository.Scope.{tier_back}
use ai_system_engineering_cu.Documents.Listing.{
  or_raised, after_documents, list_documents, chunk_of_row, chunk_with_embedding, chunk_with_tier,
  chunk_with_label, chunk_with_provenance, checked_chunk, after_chunks, get_chunks,
}

abbrev Gives : {A : Type 0} → (A → Shared → Type 0) → Action A → Shared → Type 0
Gives Q m s = Ensures Performs (λ _ _. Unit {0}) (λ _ _. Unit {0}) Q m s

-- A comprehension over selected rows.
module _ {R A : Type 0} (f : R → Outcome Error A) (Q : List R → Shared → Type 0) where
  or_raised-Gives :
      (rows : List R) (o : Outcome Error (List A)) (s : Shared)
      → each f rows ≡ o
      → Q rows s
      → Gives (λ values t. (chosen : List R) × Q chosen t × Maps f chosen values) (or_raised o) s
  or_raised-Gives rows (returned values) s e h =
      Ensures-pure _ _ _ _ values s (rows, h, each-Maps f rows values e)
  or_raised-Gives rows (raised x) s e h = Ensures-raise _ _ _ _ x s

-- The rows that are read, in the scope of the caller: those of the table that the clause keeps.
module _ (scope : AuthorizationContext) where
  abbrev pub DocumentsRead : List DocumentRow → Shared → Type 0
  DocumentsRead rows s =
      Selects (keeps_document scope.tenant_id (tier_value scope.clearance)) s.documents rows

  selected_documents :
      (a : Got (List DocumentRow)) (s t : Shared)
      → Performs (select_documents scope.tenant_id (tier_value scope.clearance)) s a t
      → Gives DocumentsRead (got_or_raise a) t
  selected_documents (got rows) s t d =
      Ensures-pure _ _ _ _ rows t (subst (DocumentsRead rows) (sym d.1) d.0)
  selected_documents rejected s t d = Ensures-raise _ _ _ _ _ t
  selected_documents unreachable s t d = Ensures-raise _ _ _ _ _ t
  selected_documents unusable s t d = Ensures-raise _ _ _ _ _ t

  after_documents-Gives :
      (o : Outcome Error (List DocumentRow)) (s : Shared)
      → OfReturned Performs (λ _ _. Unit {0}) (λ _ _. Unit {0}) DocumentsRead o s
      → Gives
          (λ documents t.
            (rows : List DocumentRow) × DocumentsRead rows t × Maps document_of rows documents)
          (after_documents o)
          s
  unfolding after_documents
  after_documents-Gives (raised e) s h = Ensures-raise _ _ _ _ _ s
  after_documents-Gives (returned rows) s h =
      or_raised-Gives document_of DocumentsRead rows (each document_of rows) s refl h

  -- Whatever others do: when list_documents returns documents, they are what the rows of the table
  -- in the scope of the caller map to, each row of the table in the scope is among those rows, and
  -- no other is.
  pub list_documents-ReadsRows :
      (s : Shared)
      → Ensures Performs
          (λ _ _. Unit {0})
          (λ _ _. Unit {0})
          (λ documents t.
            (rows : List DocumentRow) × DocumentsRead rows t × Maps document_of rows documents)
          (list_documents scope)
          s
  unfolding list_documents
  list_documents-ReadsRows s =
      Ensures-bind _ _ _ _ _ (attempt (call (select_documents _ _) got_or_raise)) _ s
        (Ensures-attempt _ _ _ _ (call (select_documents _ _) got_or_raise) s
          (Ensures-call _ _ _ _ _ _ s (λ _ _. tt) (λ t r a t' d. selected_documents a t t' d)))
        after_documents-Gives

module _ (floats : Text → Option (List Double)) (document_id : Text)
    (scope : AuthorizationContext) where
  -- As above, and in the order of the chunk index.
  abbrev pub ChunksRead : List ChunkRow → Shared → Type 0
  ChunksRead rows s =
      Selects (keeps_chunk document_id scope.tenant_id (tier_value scope.clearance)) s.chunks rows
      × IsSorted by_index rows

  selected_chunks :
      (a : Got (List ChunkRow)) (s t : Shared)
      → Performs (select_chunks document_id scope.tenant_id (tier_value scope.clearance)) s a t
      → Gives ChunksRead (got_or_raise a) t
  selected_chunks (got rows) s t d =
      Ensures-pure _ _ _ _ rows t (subst (ChunksRead rows) (sym d.1) d.0)
  selected_chunks rejected s t d = Ensures-raise _ _ _ _ _ t
  selected_chunks unreachable s t d = Ensures-raise _ _ _ _ _ t
  selected_chunks unusable s t d = Ensures-raise _ _ _ _ _ t

  after_chunks-Gives :
      (o : Outcome Error (List ChunkRow)) (s : Shared)
      → OfReturned Performs (λ _ _. Unit {0}) (λ _ _. Unit {0}) ChunksRead o s
      → Gives
          (λ chunks t.
            (rows : List ChunkRow) × ChunksRead rows t × Maps (chunk_of_row floats) rows chunks)
          (after_chunks floats o)
          s
  unfolding after_chunks
  after_chunks-Gives (raised e) s h = Ensures-raise _ _ _ _ _ s
  after_chunks-Gives (returned rows) s h =
      or_raised-Gives (chunk_of_row floats) ChunksRead rows (each (chunk_of_row floats) rows) s refl
        h

  -- Whatever others do: when get_chunks returns chunks, they are what the rows under the
  -- identifier and in the scope of the caller map to, in the order of the chunk index; each such
  -- row of the table is among those rows, and no other is.
  pub get_chunks-ReadsRows :
      (s : Shared)
      → Ensures Performs
          (λ _ _. Unit {0})
          (λ _ _. Unit {0})
          (λ chunks t.
            (rows : List ChunkRow) × ChunksRead rows t × Maps (chunk_of_row floats) rows chunks)
          (get_chunks floats document_id scope)
          s
  unfolding get_chunks
  get_chunks-ReadsRows s =
      Ensures-bind _ _ _ _ _ (attempt (call (select_chunks _ _ _) got_or_raise)) _ s
        (Ensures-attempt _ _ _ _ (call (select_chunks _ _ _) got_or_raise) s
          (Ensures-call _ _ _ _ _ _ s (λ _ _. tt) (λ t r a t' d. selected_chunks a t t' d)))
        after_chunks-Gives

-- A chunk that passed its validators is read back from its row as it was, but for the embedding,
-- which is what the text of the column gives.
pub chunk_of_row-row_of_chunk :
    (floats : Text → Option (List Double)) (chunk : ChunkRecord) (embedding : List Double)
    → floats (format_vector chunk.embedding) ≡ some embedding
    → is_chunk (record chunk { embedding = embedding }) ≡ true
    → is_slug 80 chunk.access.tenant_id ≡ true
    → is_provenance chunk.provenance ≡ true
    → chunk_of_row floats (row_of_chunk chunk) ≡ returned (record chunk { embedding = embedding })
unfolding chunk_of_row chunk_with_embedding chunk_with_tier chunk_with_label chunk_with_provenance
    checked_chunk row_of_chunk access_label provenance_of
chunk_of_row-row_of_chunk floats chunk embedding e c a p =
    rw (e, tier_back chunk.access.access_tier, a, p, c) refl
