-- ===== src/Domain/Chunking/Labels.antt =====
-- What every chunk of a document takes from it, and that no two chunks share an identifier.
use ai_system_engineering_cu.Base.{
  ℕ, suc, ◌<◌, ◌≡◌, ◌≢◌, refl, ap, sym, ◌∙◌, subst, inl, inr, arith, Bool-cases, List, [], ◌∷◌,
  ◌++◌, map, Text, All, AreDistinct, false, ltb, split, value_from, value_from-padded,
}
use ai_system_engineering_cu.Effects.{returned}
use ai_system_engineering_cu.Domain.Documents.{DocumentRecord, ChunkRecord}
use ai_system_engineering_cu.Domain.Chunking.{
  chunk_id_of, offsets_of, chunk_of, chunks_at, by_words, chunk_document,
}
use ai_system_engineering_cu.Domain.Chunking.Pieces.{numbered, chunks_at_cases}

append_cancel : {A : Type 0} (xs : List A) {ys zs : List A} → xs ++ ys ≡ xs ++ zs → ys ≡ zs
append_cancel [] h = h
append_cancel (x ∷ xs) h = append_cancel xs (cc h)

-- The identifier tells the position.
pub chunk_id_of-injective :
    (document_id : Text) (i j : ℕ) → chunk_id_of document_id i ≡ chunk_id_of document_id j → i ≡ j
unfolding chunk_id_of
chunk_id_of-injective document_id i j h =
    sym (value_from-padded 4 i)
    ∙ ap (value_from 0) (cc (append_cancel document_id h))
    ∙ value_from-padded 4 j

-- The indices from `index` on.
abbrev pub counted : ℕ → List ChunkRecord → List ℕ
counted index [] = []
counted index (chunk ∷ chunks) = index ∷ counted (suc index) chunks

abbrev pub index_of : ChunkRecord → ℕ
index_of chunk = chunk.chunk_index

abbrev pub id_of : ChunkRecord → Text
id_of chunk = chunk.chunk_id

-- The document, the label and the custody record of the parent.
pub record IsChunkOf (document : DocumentRecord) (chunk : ChunkRecord) : Type 0 where
  pub same_document : chunk.document_id ≡ document.document_id
  pub same_access : chunk.access ≡ document.access
  pub same_provenance : chunk.provenance ≡ document.provenance
  pub positioned : chunk.chunk_id ≡ chunk_id_of document.document_id chunk.chunk_index

module _ (casefold : Text → Text) (blake2b : Text → ℕ → ℕ) (document : DocumentRecord) (n : ℕ) where
  module _ (words : List Text) where
    numbered-IsChunkOf :
        (index : ℕ) (offsets : List ℕ)
        → All (IsChunkOf document) (numbered casefold blake2b document n words index offsets)
    unfolding chunk_of
    numbered-IsChunkOf index [] = tt
    numbered-IsChunkOf index (offset ∷ offsets) = (
      record {
        same_document = refl;
        same_access = refl;
        same_provenance = refl;
        positioned = refl;
      },
      numbered-IsChunkOf (suc index) offsets,
    )

    numbered-counted :
        (index : ℕ) (offsets : List ℕ)
        → map index_of (numbered casefold blake2b document n words index offsets)
          ≡ counted index (numbered casefold blake2b document n words index offsets)
    unfolding chunk_of
    numbered-counted index [] = refl
    numbered-counted index (offset ∷ offsets) =
        ap (λ is. index ∷ is) (numbered-counted (suc index) offsets)

    numbered-later :
        (i index : ℕ) (offsets : List ℕ)
        → i < index
        → All
            (λ id. chunk_id_of document.document_id i ≢ id)
            (map id_of (numbered casefold blake2b document n words index offsets))
    unfolding chunk_of
    numbered-later i index [] h = tt
    numbered-later i index (offset ∷ offsets) h = (
      (λ same. absurd (omega (arith, chunk_id_of-injective document.document_id i index same))),
      numbered-later i (suc index) offsets (omega arith),
    )

    numbered-AreDistinct :
        (index : ℕ) (offsets : List ℕ)
        → AreDistinct (map id_of (numbered casefold blake2b document n words index offsets))
    unfolding chunk_of
    numbered-AreDistinct index [] = tt
    numbered-AreDistinct index (offset ∷ offsets) = (
      numbered-later index (suc index) offsets (omega arith),
      numbered-AreDistinct (suc index) offsets,
    )

  abbrev Labelled : List ChunkRecord → Type 0
  Labelled chunks =
      All (IsChunkOf document) chunks
      × (map index_of chunks ≡ counted 0 chunks)
      × AreDistinct (map id_of chunks)

  by_words-Labelled :
      (words : List Text) (chunks : List ChunkRecord)
      → by_words casefold blake2b document n words ≡ returned chunks
      → Labelled chunks
  unfolding by_words
  by_words-Labelled [] chunks h = cc
  by_words-Labelled (w ∷ ws) chunks h =
      elim (chunks_at_cases casefold blake2b document n (w ∷ ws) 0 (offsets_of n (w ∷ ws))) [
        | inl done ↦ subst Labelled (same done) (
          numbered-IsChunkOf (w ∷ ws) 0 (offsets_of n (w ∷ ws)),
          numbered-counted (w ∷ ws) 0 (offsets_of n (w ∷ ws)),
          numbered-AreDistinct (w ∷ ws) 0 (offsets_of n (w ∷ ws)),
        )
        | inr (e, failed) ↦ cc
      ]
    where
      same :
          {cs : List ChunkRecord}
          → chunks_at casefold blake2b document n (w ∷ ws) 0 (offsets_of n (w ∷ ws)) ≡ returned cs
          → cs ≡ chunks
      same done = cc

  -- Each chunk that chunk_document returns has the document, the label and the custody record of
  -- its parent and the identifier of its position; the positions count from 0, and no two chunks
  -- share an identifier.
  pub chunk_document-Labelled :
      (chunks : List ChunkRecord)
      → chunk_document casefold blake2b document n ≡ returned chunks
      → All (IsChunkOf document) chunks
        × (map index_of chunks ≡ counted 0 chunks)
        × AreDistinct (map id_of chunks)
  unfolding chunk_document
  chunk_document-Labelled chunks h = elim (Bool-cases (ltb n 1)) [
    | inl narrow ↦ ground (arith, h, narrow)
    | inr wide ↦ by_words-Labelled (split document.body) chunks (sym (wide_enough wide) ∙ h)
  ]
    where
      wide_enough :
          ltb n 1 ≡ false
          → chunk_document casefold blake2b document n
            ≡ by_words casefold blake2b document n (split document.body)
      wide_enough wide = rw wide refl
