-- ===== src/Domain/Examples.antt =====
-- The theorems about chunks and vectors at concrete inputs.
use mathlib.Core.List.{Permᴰ}
use ai_system_engineering_cu.Base.{
  ℕ, ◌+◌, ◌*◌, ◌≡◌, refl, arith, List, [], ◌∷◌, map, Text, literal, length, All, AreDistinct, split,
  is_space, attach, cons_head,
}
use ai_system_engineering_cu.Effects.{returned}
use ai_system_engineering_cu.Domain.Access.{restricted}
use ai_system_engineering_cu.Domain.Validation.{is_slug, has_length}
use ai_system_engineering_cu.Domain.Documents.{DocumentRecord, ChunkRecord, is_document}
use ai_system_engineering_cu.Domain.Embedding.{is_token, extend, find_all, tokenize, embed}
use ai_system_engineering_cu.Domain.Embedding.Order.{embed_any_order}
use ai_system_engineering_cu.Domain.Chunking.{chunk_id_of, chunk_document, chunk_of}
use ai_system_engineering_cu.Domain.Chunking.Identity.{chunk_of-valid}
use ai_system_engineering_cu.Domain.Chunking.Pieces.{words_of, Fits, chunk_document-Covers}
use ai_system_engineering_cu.Domain.Chunking.Labels.{
  IsChunkOf, counted, index_of, id_of, chunk_document-Labelled,
}

abbrev document : DocumentRecord
document = record {
  document_id = literal "d-1";
  title = literal "Handling";
  body = literal "keep it cold";
  access = record { tenant_id = literal "t-a"; access_tier = restricted };
  provenance = record {
    source_uri = literal "s3://corpus/d-1";
    custodian = literal "quality";
    revision = literal "r1";
    recorded_at = 5;
  };
}

-- A text in lower case, and a digest of its length.
abbrev lower : Text → Text
lower s = s

abbrev digest : Text → ℕ → ℕ
digest s i = length s * 7 + i

chunk_document-Covers_example :
    (chunks : List ChunkRecord) × (chunk_document lower digest document 2 ≡ returned chunks)
    × (words_of chunks ≡ split document.body)
    × All (Fits 2) chunks
unfolding is_document is_slug has_length split attach cons_head is_space
chunk_document-Covers_example =
    chunk_document-Covers lower digest document 2 refl (omega arith) (λ h. cc) (omega arith)

abbrev chunks : List ChunkRecord
chunks =
    chunk_of lower digest document 0 (literal "keep it")
    ∷ chunk_of lower digest document 1 (literal "cold")
    ∷ []

chunk_document_runs : chunk_document lower digest document 2 ≡ returned chunks
unfolding chunk_document is_document is_slug has_length
chunk_document_runs =
    rw
      (
        chunk_of-valid lower digest document 0 (literal "keep it") refl (omega arith) (omega arith),
        chunk_of-valid lower digest document 1 (literal "cold") refl (omega arith) (omega arith),
      )
      refl

chunk_document-Labelled_example :
    All (IsChunkOf document) chunks
    × (map index_of chunks ≡ counted 0 chunks)
    × AreDistinct (map id_of chunks)
chunk_document-Labelled_example =
    chunk_document-Labelled lower digest document 2 chunks chunk_document_runs

embed_any_order_example :
    embed lower digest (literal "keep cold") ≡ embed lower digest (literal "cold, keep")
unfolding tokenize find_all extend is_token cons_head
embed_any_order_example =
    embed_any_order lower digest (literal "keep cold") (literal "cold, keep") (Permᴰ.swap refl refl)

token_test :
    tokenize lower (literal "dry-ice 2x") ≡ literal "dry" ∷ literal "ice" ∷ literal "2x" ∷ []
unfolding tokenize find_all extend is_token cons_head
token_test = refl

id_test : chunk_id_of (literal "d-1") 12 ≡ literal "d-1#0012"
unfolding chunk_id_of
id_test = refl
