-- ===== src/Domain/Chunking/Pieces.antt =====
-- The words of the chunks are those of the body, and the chunks are all that the loop makes.
use Prim.Native.Nat.{◌^◌}
use ai_system_engineering_cu.Base.{
  ℕ, zero, suc, ◌+◌, ◌≤◌, ◌<◌, ◌≡◌, ◌≢◌, refl, sym, ◌⊎◌, inl, inr, arith, true, false, Bool-cases,
  List, [], ◌∷◌, map, Text, length, take, drop, concat, All, All-take, All-drop, take_append_drop,
  drop-drop, drop_all, length-take-drop, length-take, ltb, IsWord, split-IsWord, split-join, split,
  join,
}
use ai_system_engineering_cu.Domain.Chunking.Identity.{chunk_of-valid}
use ai_system_engineering_cu.Effects.{returned, raised}
use ai_system_engineering_cu.Domain.Documents.{DocumentRecord, ChunkRecord, is_document}
use ai_system_engineering_cu.Domain.Chunking.{
  ChunkingError, invalid_chunk, is_chunk, range_from, offsets_of, and_rest, chunk_of, chunks_at,
  by_words, chunk_document,
}

-- The words of the chunks, in order.
abbrev pub words_of : List ChunkRecord → List Text
words_of chunks = concat (map (λ (chunk : ChunkRecord). split chunk.text) chunks)

-- The words at an offset.
abbrev pub piece : ℕ → List Text → ℕ → List Text
piece n words offset = take n (drop offset words)

-- Between one word and `n`.
abbrev pub Fits : ℕ → ChunkRecord → Type 0
Fits n chunk = (1 ≤ length (split chunk.text)) × (length (split chunk.text) ≤ n)

join_not_empty : (ws : List Text) → All IsWord ws → 1 ≤ length ws → 1 ≤ length (join (b' ' ∷ []) ws)
unfolding join
join_not_empty ((c ∷ w) ∷ []) h k = omega arith
join_not_empty ((c ∷ w) ∷ v ∷ ws) h k = omega arith
join_not_empty ([] ∷ ws) h k = absurd h.0
join_not_empty [] h k = absurd (omega arith)

module _ (casefold : Text → Text) (blake2b : Text → ℕ → ℕ) (document : DocumentRecord) (n : ℕ)
    (words : List Text) where
  -- What the loop makes when no chunk is refused.
  abbrev pub numbered : ℕ → List ℕ → List ChunkRecord
  numbered index [] = []
  numbered index (offset ∷ offsets) =
      chunk_of casefold blake2b document index (join (b' ' ∷ []) (piece n words offset))
      ∷ numbered (suc index) offsets

  pub chunks_at_cases :
      (index : ℕ) (offsets : List ℕ)
      → (chunks_at casefold blake2b document n words index offsets
          ≡ returned (numbered index offsets))
        ⊎ ((e : ChunkingError) × (chunks_at casefold blake2b document n words index offsets
              ≡ raised e))
  unfolding chunks_at and_rest
  chunks_at_cases index [] = inl refl
  chunks_at_cases index (offset ∷ offsets) =
      elim (Bool-cases (
        is_chunk
          (chunk_of casefold blake2b document index (join (b' ' ∷ []) (piece n words offset))))) [
            | inl valid ↦ elim (chunks_at_cases (suc index) offsets) [
              | inl done ↦ inl (rw (valid, done) refl)
              | inr (e, failed) ↦ inr (e, rw (valid, failed) refl)
            ]
            | inr invalid ↦ inr (invalid_chunk, rw invalid refl)
          ]

  -- A valid chunk at each offset is enough.
  pub chunks_at_all :
      (index : ℕ) (offsets : List ℕ)
      → All (λ chunk. is_chunk chunk ≡ true) (numbered index offsets)
      → chunks_at casefold blake2b document n words index offsets
        ≡ returned (numbered index offsets)
  unfolding chunks_at and_rest
  chunks_at_all index [] h = refl
  chunks_at_all index (offset ∷ offsets) h = rw (h.0, chunks_at_all (suc index) offsets h.1) refl

  module _ (valid : All IsWord words) (positive : 1 ≤ n) where
    pub words_of-numbered :
        (fuel index offset : ℕ)
        → length words ≤ offset + fuel
        → words_of (numbered index (range_from fuel offset (length words) n)) ≡ drop offset words
    unfolding range_from chunk_of
    words_of-numbered zero index offset h = sym (drop_all offset words (omega arith))
    words_of-numbered (suc fuel) index offset h = elim (Bool-cases (ltb offset (length words))) [
      | inl inside ↦
          rw (inside, range_from)
            (rw
              (
                split-join (piece n words offset)
                    (All-take IsWord n _ (All-drop IsWord offset words valid)),
                words_of-numbered fuel (suc index) (offset + n) (omega arith),
                sym (drop-drop offset n (offset + n) words refl),
              )
              (take_append_drop n (drop offset words)))
      | inr outside ↦ rw (outside, range_from) (sym (drop_all offset words (ground arith)))
    ]

    -- Each chunk holds at least one word and no more than the width.
    pub numbered-Fits :
        (fuel index offset : ℕ)
        → All (Fits n) (numbered index (range_from fuel offset (length words) n))
    unfolding range_from chunk_of
    numbered-Fits zero index offset = tt
    numbered-Fits (suc fuel) index offset = elim (Bool-cases (ltb offset (length words))) [
      | inl inside ↦
          rw (inside, range_from)
            (
              rw
                  (split-join (piece n words offset)
                    (All-take IsWord n _ (All-drop IsWord offset words valid)))
                  (
                    length-take-drop offset n words (ground arith) positive,
                    length-take n (drop offset words),
                  ),
              numbered-Fits fuel (suc index) (offset + n),
            )
      | inr outside ↦ rw (outside, range_from) tt
    ]

    pub numbered-valid :
        (fuel index offset : ℕ)
        → is_document document ≡ true
        → index + fuel < 10 ^ 19
        → All
            (λ chunk. is_chunk chunk ≡ true)
            (numbered index (range_from fuel offset (length words) n))
    unfolding range_from
    numbered-valid zero index offset doc small = tt
    numbered-valid (suc fuel) index offset doc small =
        elim (Bool-cases (ltb offset (length words))) [
          | inl inside ↦
              rw (inside, range_from)
                (
                  chunk_of-valid casefold blake2b document index _ doc (omega arith) (
                      join_not_empty (piece n words offset)
                        (All-take IsWord n _ (All-drop IsWord offset words valid))
                        (length-take-drop offset n words (ground arith) positive)),
                  numbered-valid fuel (suc index) (offset + n) doc (omega arith),
                )
          | inr outside ↦ rw (outside, range_from) tt
        ]

-- A document that passed its validators, with a positive width, a word in its body and fewer than
-- 10^19 of them, is cut into chunks: their words in order are the words of the body, and each
-- chunk has at least one word and no more than the width.
pub chunk_document-Covers :
    (casefold : Text → Text) (blake2b : Text → ℕ → ℕ) (document : DocumentRecord) (n : ℕ)
    → is_document document ≡ true
    → 1 ≤ n
    → split document.body ≢ []
    → length (split document.body) < 10 ^ 19
    → (chunks : List ChunkRecord) × (chunk_document casefold blake2b document n ≡ returned chunks)
      × (words_of chunks ≡ split document.body)
      × All (Fits n) chunks
unfolding chunk_document
chunk_document-Covers casefold blake2b document n doc positive some_word few =
    rw (le→ltb_false n positive)
      (go (split document.body) (split-IsWord document.body) some_word few)
  where
    le→ltb_false : (m : ℕ) → 1 ≤ m → ltb m 1 ≡ false
    le→ltb_false m h = ground arith

    go :
        (words : List Text)
        → All IsWord words
        → words ≢ []
        → length words < 10 ^ 19
        → (chunks : List ChunkRecord) × (by_words casefold blake2b document n words
            ≡ returned chunks)
          × (words_of chunks ≡ words)
          × All (Fits n) chunks
    go [] v h k = absurd (h refl)
    go (w ∷ ws) v h k = (
      numbered casefold blake2b document n (w ∷ ws) 0 (offsets_of n (w ∷ ws)),
      chunks_at_all casefold blake2b document n (w ∷ ws) 0 _ (
          numbered-valid casefold blake2b document n (w ∷ ws) v positive (length (w ∷ ws)) 0 0 doc
            (omega arith)),
      words_of-numbered casefold blake2b document n (w ∷ ws) v positive (length (w ∷ ws)) 0 0
          (omega arith),
      numbered-Fits casefold blake2b document n (w ∷ ws) v positive (length (w ∷ ws)) 0 0,
    )
