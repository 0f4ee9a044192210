-- ===== src/Domain/Chunking.antt =====
-- src/domain/chunking.py, and `ChunkRecord.validate_identity` of src/domain/contracts.py.
pub mod Pieces
pub mod Identity
pub mod Labels
use ai_system_engineering_cu.Base.{
  ℕ, zero, suc, ◌+◌, Bool, true, false, ◌&&◌, not, Option, none, some, List, [], ◌∷◌, ◌++◌, Text,
  length, take, drop, leb, ltb, ◌==◌, nat_eq, text_eq, if◌then◌else◌, split, join, padded,
}
use ai_system_engineering_cu.Effects.{Outcome, returned, raised}
use ai_system_engineering_cu.Domain.Validation.{has_length}
use ai_system_engineering_cu.Domain.Documents.{DocumentRecord, ChunkRecord}
use ai_system_engineering_cu.Domain.Embedding.{embed}

-- A ValidationError is a ValueError too.
pub data ChunkingError : Type 0 where
  no_width no_body_text invalid_chunk : ChunkingError

abbrev pub chunk_words : ℕ
chunk_words = 28

-- `f"{document_id}#{index:04d}"`
unfoldable pub chunk_id_of : Text → ℕ → Text
unfolding padded
chunk_id_of document_id index = document_id ++ b'#' ∷ padded 4 index

abbrev is_empty : {A : Type 0} → List A → Bool
is_empty [] = true
is_empty (x ∷ xs) = false

-- The field constraints and `validate_identity`.
unfoldable pub is_chunk : ChunkRecord → Bool
unfolding chunk_id_of has_length
is_chunk chunk =
    has_length 140 chunk.chunk_id
    && has_length 120 chunk.document_id
    && leb 1 (length chunk.text)
    && chunk.chunk_id == chunk_id_of chunk.document_id chunk.chunk_index
    && not (is_empty chunk.embedding)

-- `range(start, stop, step)`; with a positive step, `stop` of fuel are enough.
unfoldable pub range_from : ℕ → ℕ → ℕ → ℕ → List ℕ
range_from zero start stop step = []
range_from (suc fuel) start stop step = elim (ltb start stop) [
  | true ↦ start ∷ range_from fuel (start + step) stop step
  | false ↦ []
]

-- `range(0, len(words), n)`
abbrev pub offsets_of : ℕ → List Text → List ℕ
offsets_of n words = range_from (length words) 0 (length words) n

and_rest :
    ChunkRecord
    → Outcome ChunkingError (List ChunkRecord)
    → Outcome ChunkingError (List ChunkRecord)
and_rest chunk (returned chunks) = returned (chunk ∷ chunks)
and_rest chunk (raised e) = raised e

module _ (casefold : Text → Text) (blake2b : Text → ℕ → ℕ) where
  unfoldable pub chunk_of : DocumentRecord → ℕ → Text → ChunkRecord
  unfolding chunk_id_of embed
  chunk_of document index text = record {
    chunk_id = chunk_id_of document.document_id index;
    document_id = document.document_id;
    chunk_index = index;
    text = text;
    embedding = embed casefold blake2b (document.title ++ b' ' ∷ text);
    access = document.access;
    provenance = document.provenance;
  }

  -- The loop, from an index on; building a chunk validates it.
  unfoldable pub chunks_at :
      DocumentRecord → ℕ → List Text → ℕ → List ℕ → Outcome ChunkingError (List ChunkRecord)
  unfolding chunk_of is_chunk and_rest join
  chunks_at document n words index [] = returned []
  chunks_at document n words index (offset ∷ offsets) =
      let chunk = chunk_of document index (join (b' ' ∷ []) (take n (drop offset words))) in
      let rest = chunks_at document n words (suc index) offsets in
      if is_chunk chunk then and_rest chunk rest else raised invalid_chunk

  by_words : DocumentRecord → ℕ → List Text → Outcome ChunkingError (List ChunkRecord)
  unfolding chunks_at range_from
  by_words document n [] = raised no_body_text
  by_words document n (word ∷ words) =
      chunks_at document n (word ∷ words) 0 (offsets_of n (word ∷ words))

  unfoldable pub chunk_document : DocumentRecord → ℕ → Outcome ChunkingError (List ChunkRecord)
  unfolding by_words split
  chunk_document document n =
      if ltb n 1 then raised no_width else by_words document n (split document.body)
