-- ===== src/Documents/Calls.antt =====
-- The statements of src/adapters/persistence/document_repository.py and what the tables of
-- src/infra/postgres/002_retrieval_corpus.sql do for each.
use ai_system_engineering_cu.Base.{
  ℕ, ◌≡◌, ◌⊎◌, ◌↔◌, In, IsSorted, leb, Bool, true, ◌&&◌, ◌||◌, Option, none, some, List, [], ◌∷◌,
  ◌++◌, Text, literal, ◌==◌, text_eq, if◌then◌else◌,
}
use ai_system_engineering_cu.Effects.{Program}

-- `interface_error` is what the driver raises beside a PostgresError and an OSError: the
-- InterfaceError of asyncpg, of a closed pool or connection for instance.
pub data Error : Type 0 where
  repository_error validation_error value_error documents_unavailable : Error
  postgres_error os_error interface_error : Error

-- A row of the table `documents`.
pub record DocumentRow : Type 0 where
  pub document_id : Text
  pub title : Text
  pub body : Text
  pub tenant_id : Text
  pub access_tier : Text
  pub provenance_source_uri : Text
  pub provenance_custodian : Text
  pub provenance_revision : Text
  pub provenance_recorded_at : ℕ

-- A row of the table `chunks`; the vector is kept as its literal.
pub record ChunkRow : Type 0 where
  pub chunk_id : Text
  pub document_id : Text
  pub chunk_index : ℕ
  pub chunk_text : Text
  pub embedding : Text
  pub tenant_id : Text
  pub access_tier : Text
  pub provenance_source_uri : Text
  pub provenance_custodian : Text
  pub provenance_revision : Text
  pub provenance_recorded_at : ℕ

pub data Insert : Type 0 where
  document_row : DocumentRow → Insert
  chunk_row : ChunkRow → Insert

-- What a statement gives, or the error that the driver raises.
pub data Got (A : Type 0) : Type 0 where
  got : A → Got A
  rejected unreachable unusable : Got A

-- `select_document` and `select_chunks` bind an identifier, a tenancy and a clearance,
-- `select_documents` the last two.
pub data Call : Type 0 where
  acquire release begin commit rollback : Call
  execute : Insert → Call
  select_document select_chunks : Text → Text → Text → Call
  select_documents : Text → Text → Call

abbrev pub Answer : Call → Type 0
Answer acquire = Got Unit
Answer release = Got Unit
Answer begin = Got Unit
Answer commit = Got Unit
Answer rollback = Got Unit
Answer (execute insert) = Got Unit
Answer (select_document document_id tenant clearance) = Got (Option DocumentRow)
Answer (select_chunks document_id tenant clearance) = Got (List ChunkRow)
Answer (select_documents tenant clearance) = Got (List DocumentRow)

abbrev pub Action : Type 0 → Type 0
Action A = Program Call Answer Error A

-- `_scope_clause` on a row with these labels, by the values bound to its two placeholders.
unfoldable pub in_scope : Text → Text → Text → Text → Bool
in_scope tenant clearance tenant_id access_tier =
    tenant_id == tenant && (access_tier == literal "standard" || clearance == literal "restricted")

-- The row with an identifier that the clause keeps.
unfoldable pub found : Text → Text → Text → List DocumentRow → Option DocumentRow
unfolding in_scope
found document_id tenant clearance [] = none
found document_id tenant clearance (row ∷ rows) =
    let rest = found document_id tenant clearance rows in
    if row.document_id == document_id && in_scope tenant clearance row.tenant_id row.access_tier
    then some row
    else rest

-- The committed rows, and what the transaction of the one connection holds.
pub record Shared : Type 0 where
  pub documents : List DocumentRow
  pub chunks : List ChunkRow
  pub pending : List Insert

unfoldable pub applied : List Insert → Shared → Shared
applied [] s = s
applied (document_row row ∷ inserts) s =
    applied inserts (record s { documents = s.documents ++ row ∷ [] })
applied (chunk_row row ∷ inserts) s = applied inserts (record s { chunks = s.chunks ++ row ∷ [] })

abbrev pub Gave : {A : Type 0} → Got A → A → Type 0
Gave (got a) b = a ≡ b
Gave _ b = Unit

-- The WHERE clause of `list_documents`, and that of `get_chunks`.
abbrev pub keeps_document : Text → Text → DocumentRow → Bool
keeps_document tenant clearance row = in_scope tenant clearance row.tenant_id row.access_tier

abbrev pub keeps_chunk : Text → Text → Text → ChunkRow → Bool
keeps_chunk document_id tenant clearance row =
    row.document_id == document_id && in_scope tenant clearance row.tenant_id row.access_tier

-- `ORDER BY chunk_index`
abbrev pub by_index : ChunkRow → ChunkRow → Bool
by_index a b = leb a.chunk_index b.chunk_index

-- A SELECT gives the rows of the table that its WHERE clause keeps, in some order.
abbrev pub Selects : {A : Type 0} → (A → Bool) → List A → List A → Type 0
Selects keeps table rows = (row : _) → In row rows ↔ (In row table × (keeps row ≡ true))

abbrev pub GaveDocuments : (DocumentRow → Bool) → List DocumentRow → Got (List DocumentRow) → Type 0
GaveDocuments keeps table (got rows) = Selects keeps table rows
GaveDocuments keeps table _ = Unit

abbrev pub GaveChunks : (ChunkRow → Bool) → List ChunkRow → Got (List ChunkRow) → Type 0
GaveChunks keeps table (got rows) = Selects keeps table rows × IsSorted by_index rows
GaveChunks keeps table _ = Unit

-- `Performs c s a s'`: the call `c` in the state `s` may answer `a` and leave `s'`.
abbrev pub Performs : (c : Call) → Shared → Answer c → Shared → Type 0
Performs acquire s a s' = s' ≡ s
Performs release s a s' = s' ≡ record s { pending = [] }
Performs begin s a s' = s' ≡ record s { pending = [] }
Performs (execute insert) s (got a) s' = s' ≡ record s { pending = s.pending ++ insert ∷ [] }
Performs (execute insert) s _ s' = s' ≡ s
Performs commit s (got a) s' = s' ≡ record (applied s.pending s) { pending = [] }
Performs commit s _ s' = (s' ≡ s) ⊎ (s' ≡ record (applied s.pending s) { pending = [] })
Performs rollback s a s' = s' ≡ record s { pending = [] }
Performs (select_document document_id tenant clearance) s a s' =
    Gave a (found document_id tenant clearance s.documents) × (s' ≡ s)
Performs (select_chunks document_id tenant clearance) s a s' =
    GaveChunks (keeps_chunk document_id tenant clearance) s.chunks a × (s' ≡ s)
Performs (select_documents tenant clearance) s a s' =
    GaveDocuments (keeps_document tenant clearance) s.documents a × (s' ≡ s)
